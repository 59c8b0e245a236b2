-- ===== src/Net/Nng/Request.antt =====
-- What becomes of requests over NNG.
use sm.Base.{ℕ, ◌≡◌, refl, ap, ◌∙◌, Bool, false, Option, some, List, [], ◌∷◌, arith, ==_refl}
use sm.Net.Router.{Signal, pending, NMessage}
use sm.Net.Router.Lookup.{same_refl}
use sm.Net.Manager.{LocalNetManager}
use sm.Net.Manager.Notice.{channel_of}
use sm.Net.Session.{Setting, awaits_sent, unsent, Session, runs, sends, resumes, step, run}
use sm.Net.Session.Refine.{
  outstanding, ended, view, told, resumed, input, told_by, sending, advance, go_on,
}
use sm.Net.Session.Run.{inputs, view-run}
use sm.Net.Nng.{req_send_pack}

sent_refused :
    (nng_send : List ℕ → ℕ) (n b : ℕ) (bs : List ℕ)
    → nng_send (b ∷ bs) ≡ 0
    → req_send_pack nng_send (n, b ∷ bs) ≡ false
unfolding req_send_pack
sent_refused nng_send n b bs h = rw h (ground arith)

inputs_two :
    (c : Setting) (n : ℕ) (m : LocalNetManager) (flag : Bool) (s : Session)
    → sending c n m s.dataapp ≡ told flag
    → inputs c n (sends m ∷ resumes n ∷ []) s ≡ told flag ∷ resumed ∷ []
unfolding inputs input step
inputs_two c n m flag s h = rw (h, ==_refl n) refl

-- A request that waits for its sending, and is the next to be sent, over NNG: where the library takes
-- the message, and answers zero, as it does then, the request ends as if it were not sent, if it has
-- any bytes.
nng_request_unsent :
    (c : Setting) (n b : ℕ) (bs : List ℕ) (rest : List (ℕ × NMessage)) (nng_send : List ℕ → ℕ)
    (m : LocalNetManager) (rep : Option (Signal NMessage)) (s s' : Session)
    → nng_send (b ∷ bs) ≡ 0
    → channel_of m c.sock ≡ some (req_send_pack nng_send)
    → s.dataapp ≡ (c.sock, (n, b ∷ bs)) ∷ rest
    → view c n s ≡ outstanding awaits_sent (some pending) rep
    → run c (sends m ∷ resumes n ∷ []) s ≡ runs s'
    → view c n s' ≡ ended unsent
unfolding advance go_on
nng_request_unsent c n b bs rest nng_send m rep s s' ok known next v e =
    let fails : sending c n m s.dataapp ≡ told false =
      ap (sending c n m) next
      ∙ rw (same_refl c.sock n)
          (ap (λ o. told_by o (n, b ∷ bs)) known ∙ ap told (sent_refused nng_send n b bs ok)) in
    view-run c n (sends m ∷ resumes n ∷ []) s s' e ∙ rw (inputs_two c n m false s fails, v) refl
