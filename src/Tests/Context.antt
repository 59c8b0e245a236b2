-- ===== src/Tests/Context.antt =====
-- An answering context of NNG that is called back three times.
use sm.Base.{◌+◌, ◌≤◌, ◌<◌, ◌≡◌, true, false, List, [], ◌∷◌, length}
use sm.Net.Nng.Context.{new_context, waits, asserts, context_recv}
use sm.Net.Nng.Once.{Use, calls, answers, takes, use_context, nng_context_receives_once}

abbrev one_request : List Use
one_request =
    calls 0 [] ∷ calls 0 (7 ∷ []) ∷ takes ∷ answers true true true (8 ∷ []) ∷ calls 0 (9 ∷ []) ∷ []

nng_context_receives_once_example :
    let (r, got) = use_context one_request new_context [] in
    (length got + length r.msgs ≤ 1)
    × (0 < length got → (context_recv true r ≡ asserts) × (context_recv false r ≡ waits))
nng_context_receives_once_example = nng_context_receives_once one_request
