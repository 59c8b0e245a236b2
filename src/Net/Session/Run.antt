-- ===== src/Net/Session/Run.antt =====
-- A run of a session, as it is for one request.
use sm.Base.{ℕ, ◌≡◌, sym, ap, List, [], ◌∷◌}
use sm.Net.Session.{
  Setting, Session, Outcome, runs, asserts, undefined, stops, and_then, Event, step, run,
}
use sm.Net.Session.Refine.{Request, view, advance, Input, input}
use sm.Net.Session.Asks.{Goes}
use sm.Net.Session.Hears.{step_lem}

-- What a run is for a request.
abbrev follow : Outcome → (Session → List Input) → List Input
follow (runs s) f = f s
follow asserts f = []
follow undefined f = []
follow stops f = []

unfoldable pub inputs : Setting → ℕ → List Event → Session → List Input
inputs c n [] s = []
inputs c n (e ∷ es) s = input c n e s ∷ follow (step c e s) (inputs c n es)

abbrev pub advances : List Input → Request → Request
advances [] q = q
advances (x ∷ xs) q = advances xs (advance x q)

first_step :
    (c : Setting) (n : ℕ) (es : List Event) (s' : Session) (x : Input) (q : Request) (o : Outcome)
    → Goes (λ s1. view c n s1 ≡ advance x q) o
    → ((s1 : Session)
        → run c es s1 ≡ runs s'
        → view c n s' ≡ advances (inputs c n es s1) (view c n s1))
    → and_then o (run c es) ≡ runs s'
    → view c n s' ≡ advances (follow o (inputs c n es)) (advance x q)
first_step c n es s' x q (runs s1) g rest e = rw (← g) (rest s1 e)
first_step c n es s' x q asserts g rest e = cc
first_step c n es s' x q undefined g rest e = cc
first_step c n es s' x q stops g rest e = cc

abbrev pub session_of : Session → Outcome → Session
session_of s (runs s') = s'
session_of s asserts = s
session_of s undefined = s
session_of s stops = s

-- Whatever the coroutines of a channel do, in whatever order, a request sees only this of it: that it
-- is made or refused, that its sending is reported, that a message with its number comes, and that
-- its coroutine goes on; and what it sees decides what becomes of it.
pub view-run :
    (c : Setting) (n : ℕ) (es : List Event) (s s' : Session)
    → run c es s ≡ runs s'
    → view c n s' ≡ advances (inputs c n es s) (view c n s)
unfolding run inputs
view-run c n [] s s' e = ap (view c n) (sym (ap (session_of s) e))
view-run c n (ev ∷ es) s s' e =
    first_step c n es s' (input c n ev s) (view c n s) (step c ev s) (step_lem c n ev s)
      (λ s1. view-run c n es s1 s') e
