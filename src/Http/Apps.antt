-- ===== src/Http/Apps.antt =====
-- inc/Apps.h, `_initHttp`: requests that come in pieces, the coroutines that answer them, and the set
-- of the responses that were aborted. A response object is the number of its address, which
-- uWebSockets may use again; handlers of routes are parameters, and give a text or throw.
pub mod Answers
pub mod Aborts
use sm.Base.{
  ℕ, zero, suc, ◌+◌, ◌-◌, ◌*◌, ◌/◌, ◌%◌, ◌^◌, ◌≤◌, ◌<◌, ◌≡◌, refl, sym, ap, ap₂, ◌∙◌, fun_ext, ◌≢◌,
  ◌↔◌, ◌⊎◌, inl, inr, Bool, true, false, not, ◌&&◌, ◌||◌, Option, none, some, List, [], ◌∷◌, ◌++◌,
  append-nil, append_assoc, map, arith, ltb, leb, ◌==◌, if◌then◌else◌, ltb→lt, lt→ltb, le→ltb,
  ==→eq, ==_refl, tests, Bool-cases, Option-cases, length, take, drop, length-append, take-append,
  drop-append, drop-append_cons, take-append_at, drop-append_at, take-append_drop, take_of_length,
  drop_of_length, length-drop, length-take, take-append_le, drop-append_le, All, Bytes, dec_lt,
  dec_le, ℕ_discrete,
}
use sm.Base.Map.{find, assign, nat_eq}

abbrev pub HttpHandler : Type 0
HttpHandler = List ℕ → List ℕ → Option (List ℕ)

-- What the server ends a response with; `PostProcess404` gives the text of the latter.
pub data Reply : Type 0 where
  replied : List ℕ → Reply
  not_found : Reply

-- The handlers of a route in turn, until one gives a text that is not empty.
unfoldable pub first_reply : List HttpHandler → List ℕ → List ℕ → Option (List ℕ) → Option (List ℕ)
first_reply [] msg token resp = resp
first_reply (func ∷ funcs) msg token resp = elim (func msg token) [
  | none ↦ first_reply funcs msg token resp
  | some ret ↦ elim ret [ [] ↦ first_reply funcs msg token (some []) | c ∷ cs ↦ some (c ∷ cs) ]
]

unfoldable pub end_reply : Option (List ℕ) → Reply
end_reply none = not_found
end_reply (some []) = not_found
end_reply (some (c ∷ cs)) = replied (c ∷ cs)

-- What a handler of data keeps of a request.
pub record HttpRequest : Type 0 where
  pub funcs : List HttpHandler
  pub querystr : List ℕ
  pub token : List ℕ
  pub postdata : List ℕ

-- What is dealt with: the data, or the query where there are none.
unfoldable pub dealt_text : List ℕ → List ℕ → List ℕ
dealt_text [] querystr = querystr
dealt_text (c ∷ postdata) querystr = c ∷ postdata

unfoldable pub answer_of : HttpRequest → Reply
answer_of q = end_reply (first_reply q.funcs (dealt_text q.postdata q.querystr) q.token none)

-- `_abortReps`; the requests by response; the coroutines that deal with one, with what they will end
-- it with; and what was sent.
pub record Apps : Type 0 where
  pub abort_reps : List ℕ
  pub requests : List (ℕ × HttpRequest)
  pub dealing : List (ℕ × Reply)
  pub answered : List (ℕ × Reply)

-- A server before its first request.
abbrev pub no_requests : Apps
no_requests = record { abort_reps = []; requests = []; dealing = []; answered = [] }

abbrev pub is_aborted : ℕ → List ℕ → Bool
is_aborted rep [] = false
is_aborted rep (k ∷ ks) = if k == rep then true else is_aborted rep ks

unfoldable pub forget : ℕ → List ℕ → List ℕ
forget rep [] = []
forget rep (k ∷ ks) = let rest = forget rep ks in if k == rep then rest else k ∷ rest

-- `dealer`: a request of a route.
unfoldable pub begin_request : ℕ → List HttpHandler → List ℕ → List ℕ → Apps → Apps
begin_request rep funcs querystr token s =
    let q : HttpRequest = record {
      funcs = funcs;
      querystr = querystr;
      token = token;
      postdata = [];
    } in
    record s { requests = assign rep q s.requests }

unfoldable pub aborted : ℕ → Apps → Apps
aborted rep s = record s { abort_reps = rep ∷ s.abort_reps }

-- A piece of the data of a request that is not aborted, and whether it is the last.
unfoldable pub append_data : ℕ → Option HttpRequest → List ℕ → Bool → Apps → Apps
append_data rep none chunk is_end s = s
append_data rep (some q) chunk false s = record s {
  requests = assign rep (record q { postdata = q.postdata ++ chunk }) s.requests;
}
append_data rep (some q) chunk true s =
    let q' : HttpRequest = record q { postdata = q.postdata ++ chunk } in
    record s {
      requests = assign rep q' s.requests;
      dealing = s.dealing ++ ((rep, answer_of q') ∷ []);
    }

-- `datadealer`
unfoldable pub data_dealer : ℕ → List ℕ → Bool → Apps → Apps
data_dealer rep chunk is_end s =
    if is_aborted rep s.abort_reps
    then record s { abort_reps = forget rep s.abort_reps }
    else append_data rep (find rep s.requests) chunk is_end s

-- The end of `repdealer` of the coroutine at a place, in the thread of the server.
unfoldable pub end_first : List (ℕ × Reply) → ℕ → Apps → Apps
end_first [] place s = s
end_first ((rep, reply) ∷ rest) place s =
    let others = take place s.dealing ++ rest in
    if is_aborted rep s.abort_reps
    then record s { abort_reps = forget rep s.abort_reps; dealing = others }
    else record s { dealing = others; answered = s.answered ++ ((rep, reply) ∷ []) }

unfoldable pub end_response : ℕ → Apps → Apps
end_response place s = end_first (drop place s.dealing) place s

pub data HttpEvent : Type 0 where
  begins : ℕ → List HttpHandler → List ℕ → List ℕ → HttpEvent
  aborts : ℕ → HttpEvent
  gets_data : ℕ → List ℕ → Bool → HttpEvent
  ends : ℕ → HttpEvent

unfoldable pub http_step : HttpEvent → Apps → Apps
http_step (begins rep funcs querystr token) s = begin_request rep funcs querystr token s
http_step (aborts rep) s = aborted rep s
http_step (gets_data rep chunk is_end) s = data_dealer rep chunk is_end s
http_step (ends place) s = end_response place s

unfoldable pub http_run : List HttpEvent → Apps → Apps
http_run [] s = s
http_run (e ∷ es) s = http_run es (http_step e s)
