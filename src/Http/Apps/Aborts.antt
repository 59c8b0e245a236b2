-- ===== src/Http/Apps/Aborts.antt =====
-- A response that was aborted is not written to.
use sm.Base.{
  ℕ, suc, ◌≤◌, ◌≡◌, Bool, true, false, not, ◌&&◌, List, [], ◌∷◌, arith, ◌==◌, if◌then◌else◌,
  ==_refl, length,
}
use sm.Base.Map.{find, assign, nat_eq}
use sm.Http.Apps.{
  HttpHandler, Reply, HttpRequest, answer_of, Apps, is_aborted, forget, begin_request, aborted,
  append_data, data_dealer, end_first, end_response, HttpEvent, begins, aborts, gets_data, ends,
  http_step, http_run, no_requests,
}

-- What was sent to a response.
abbrev pub replies_to : ℕ → List (ℕ × Reply) → List Reply
replies_to rep [] = []
replies_to rep ((k, r) ∷ rs) = if k == rep then r ∷ replies_to rep rs else replies_to rep rs

-- Whether a list of events neither begins a request of a response nor brings it data, as after an
-- abort.
abbrev pub is_quiet : ℕ → List HttpEvent → Bool
is_quiet rep [] = true
is_quiet rep (begins k funcs querystr token ∷ es) = not (k == rep) && is_quiet rep es
is_quiet rep (aborts k ∷ es) = is_quiet rep es
is_quiet rep (gets_data k chunk is_end ∷ es) = not (k == rep) && is_quiet rep es
is_quiet rep (ends place ∷ es) = is_quiet rep es

-- The coroutines that deal with a response: at most one where it is aborted, none where it is not.
abbrev Safe : ℕ → Bool → ℕ → Type 0
Safe rep true n = n ≤ 1
Safe rep false n = n ≡ 0

abbrev pub deals_on : ℕ → List (ℕ × Reply) → ℕ
deals_on rep dealing = length (replies_to rep dealing)

abbrev IsSafe : ℕ → Apps → Type 0
IsSafe rep s = Safe rep (is_aborted rep s.abort_reps) (deals_on rep s.dealing)

-- How often the data of a request of a response came to their end.
abbrev pub last_data : ℕ → List HttpEvent → ℕ
last_data rep [] = 0
last_data rep (begins k funcs querystr token ∷ es) = last_data rep es
last_data rep (aborts k ∷ es) = last_data rep es
last_data rep (gets_data k chunk false ∷ es) = last_data rep es
last_data rep (gets_data k chunk true ∷ es) =
    if k == rep then suc (last_data rep es) else last_data rep es
last_data rep (ends place ∷ es) = last_data rep es

-- Where a coroutine deals with a request whose response is aborted, and the address is used again for
-- a request whose data come in two pieces, the first piece takes the abort away: then two coroutines
-- deal with the address, and an abort of the second request keeps only the first of them from
-- writing. The second one writes to the response that was aborted.
http_abort_lost :
    (rep : ℕ) (funcs funcs' : List HttpHandler)
    (querystr token querystr' token' data1 data2 data3 : List ℕ)
    → let q : HttpRequest = record {
      funcs = funcs';
      querystr = querystr';
      token = token';
      postdata = data3;
    } in
      (http_run
        (begins rep funcs querystr token
          ∷ gets_data rep data1 true
          ∷ aborts rep
          ∷ begins rep funcs' querystr' token'
          ∷ gets_data rep data2 false
          ∷ gets_data rep data3 true
          ∷ aborts rep
          ∷ ends 0
          ∷ ends 0
          ∷ [])
        no_requests).answered
      ≡ (rep, answer_of q) ∷ []
unfolding http_run http_step begin_request aborted data_dealer append_data end_response end_first
    forget find assign
http_abort_lost rep funcs funcs' querystr token querystr' token' data1 data2 data3 =
    ground (arith, ==_refl rep)
