-- ===== src/Http/Apps/Answers.antt =====
-- Which requests are answered, and with what.
use sm.Base.{
  ℕ, ◌≡◌, refl, true, false, none, some, List, [], ◌∷◌, ◌++◌, ==_refl, length, if◌then◌else◌, ◌==◌,
}
use sm.Base.Map.{nat_eq}
use sm.Http.Apps.{
  not_found, replied, HttpHandler, Reply, Apps, begin_request, aborted, data_dealer, HttpEvent,
  begins, aborts, gets_data, http_step, http_run,
}

-- The data of a request, piece by piece.
abbrev pub uploads : ℕ → List (List ℕ) → List ℕ → List HttpEvent
uploads rep [] last = gets_data rep last true ∷ []
uploads rep (chunk ∷ chunks) last = gets_data rep chunk false ∷ uploads rep chunks last

abbrev pub joined : List (List ℕ) → List ℕ → List ℕ
joined [] last = last
joined (chunk ∷ chunks) last = chunk ++ joined chunks last

pub run-append :
    (es es' : List HttpEvent) (s : Apps) → http_run (es ++ es') s ≡ http_run es' (http_run es s)
unfolding http_run
run-append [] es' s = refl
run-append (e ∷ es) es' s = run-append es es' (http_step e s)

-- What is the same of a server, but for its requests, when a coroutine was started.
abbrev Deals : Apps → ℕ → Reply → Apps → Type 0
Deals s rep reply s' =
    (s'.abort_reps ≡ s.abort_reps)
    × (s'.dealing ≡ s.dealing ++ ((rep, reply) ∷ []))
    × (s'.answered ≡ s.answered)

-- The first text that is not empty among those that the handlers of a route give.
abbrev pub first_answer : List HttpHandler → List ℕ → List ℕ → Reply
first_answer [] msg token = not_found
first_answer (func ∷ funcs) msg token = elim (func msg token) [
  | none ↦ first_answer funcs msg token
  | some ret ↦ elim ret [ [] ↦ first_answer funcs msg token | c ∷ cs ↦ replied (c ∷ cs) ]
]

-- The data, or the query where there are no data.
abbrev pub data_or_query : List ℕ → List ℕ → List ℕ
data_or_query data_text querystr = if length data_text == 0 then querystr else data_text

-- Where a request is aborted before its data have come, and uWebSockets uses the response's address
-- again for another one, whose data come in one piece: that one gets no coroutine and no answer,
-- since its data are taken for those of the aborted one.
http_stale_abort :
    (rep : ℕ) (funcs : List HttpHandler) (querystr token chunk : List ℕ) (s : Apps)
    → let s' =
        http_run (aborts rep ∷ begins rep funcs querystr token ∷ gets_data rep chunk true ∷ []) s in
      (s'.dealing ≡ s.dealing) × (s'.answered ≡ s.answered)
unfolding http_run http_step aborted begin_request data_dealer
http_stale_abort rep funcs querystr token chunk s = rw (==_refl rep) (refl, refl)
