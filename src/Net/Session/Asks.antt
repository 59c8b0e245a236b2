-- ===== src/Net/Session/Asks.antt =====
-- A request that is made, and that goes on, as it is for one number.
use sm.Base.{
  ℕ, ◌≡◌, refl, ap, ◌∙◌, inl, inr, Bool, true, false, Option, none, some, List, [], ◌∷◌, ◌++◌,
  arith, ◌==◌, if◌then◌else◌, ==→eq, Bool-cases, Option-cases,
}
use sm.Base.Map.{find, assign, erase, nat_eq, find-assign, find-erase}
use sm.Net.Router.{
  Signal, pending, fired, NMessage, lookup, can_req_rep, finish_req_rep, remove,
  prepare_signal_send_complete, prepare_signal_recv_net_rep,
}
use sm.Net.Router.Lookup.{same, lookup-place, lookup-remove}
use sm.Net.Router.Life.{prepared, prepare_free, prepare_taken}
use sm.Net.Channel.{new_req}
use sm.Net.Session.{
  Setting, Phase, awaits_sent, awaits_rep, Ret, responded, unsent, threw, Session, Outcome, runs,
  asserts, undefined, stops, begin_req, finish, resume_sent, resume_rep, resume, begins,
}
use sm.Net.Session.Refine.{
  Request, outstanding, ended, view, seen, past, go_on, advance, asked, refused, other, input,
}
use sm.Net.Session.Frames.{}

-- What holds of the session that a step goes on with.
abbrev pub Goes : (Session → Type 0) → Outcome → Type 0
Goes P (runs s) = P s
Goes P asserts = Unit
Goes P undefined = Unit
Goes P stops = Unit

pub Goes-if :
    (b : Bool) (P : Session → Type 0) (o o' : Outcome)
    → Goes P o
    → Goes P o'
    → Goes P (if b then o else o')
Goes-if true P o o' p p' = p
Goes-if false P o o' p p' = p'

pub same_sock : (s k n : ℕ) → same s k s n ≡ (k == n)
same_sock s k n = ground arith

module _ (c : Setting) (n : ℕ) where
  begun :
      (k : ℕ) (body : List ℕ) (s : Session)
      → let q = record s {
        router = prepared c.sock k s.router;
        req_no = k;
        dataapp = s.dataapp ++ ((c.sock, (k, body)) ∷ []);
        waiting = assign k awaits_sent s.waiting;
      } in
        view c n q ≡ advance (if k == n then asked else other) (view c n s)
  unfolding view advance prepare_signal_send_complete prepare_signal_recv_net_rep
  begun k body s =
      rw
        (
          find-assign k n awaits_sent s.waiting,
          lookup-place c.sock k c.sock n pending s.router.send_complete,
          lookup-place c.sock k c.sock n pending s.router.net_rep,
          same_sock c.sock k n,
        )
        (elim (Bool-cases (k == n)) [ inl h ↦ rw h refl | inr h ↦ rw h refl ])

  thrown :
      (k : ℕ) (body : List ℕ) (s : Session)
      → let q = record s {
        req_no = k;
        dataapp = s.dataapp ++ ((c.sock, (k, body)) ∷ []);
        done = assign k threw s.done;
      } in
        view c n q ≡ advance (if k == n then refused else other) (view c n s)
  unfolding view advance
  thrown k body s = rw (find-assign k n threw s.done) (elim (Bool-cases (k == n)) [
    | inl h ↦ rw h (elim (Option-cases (find n s.waiting)) [
      | inl w ↦ rw w (passed (find n s.done))
      | inr (phase, w) ↦ rw w refl
    ])
    | inr h ↦ rw h refl
  ])
    where
      passed : (ret : Option Ret) → ended threw ≡ advance refused (past ret)
      passed none = refl
      passed (some ret) = refl

  pub begin_lem :
      (body : List ℕ) (s : Session)
      → Goes
          (λ s'. view c n s' ≡ advance (input c n (begins body) s) (view c n s))
          (begin_req c body s)
  unfolding begin_req input
  begin_lem body s =
      let k = new_req c.mode s.req_no in
      elim (Bool-cases (can_req_rep c.sock k s.router)) [
        | inl h ↦ rw (h, prepare_free c.sock k s.router h) (begun k body s)
        | inr h ↦
            rw (h, prepare_taken c.sock k s.router h)
              (Goes-if c.debug _ asserts _ tt (thrown k body s))
      ]

  finished_seen :
      (k : ℕ) (ret : Ret) (s : Session) (is_sent : Option (Signal Bool))
      (rep : Option (Signal NMessage))
      → seen (find n (erase k s.waiting)) (find n (assign k ret s.done)) is_sent rep
        ≡ (if k == n then ended ret else seen (find n s.waiting) (find n s.done) is_sent rep)
  finished_seen k ret s is_sent rep =
      rw (find-erase k n s.waiting, find-assign k n ret s.done)
        (elim (Bool-cases (k == n)) [ inl h ↦ rw h refl | inr h ↦ rw h refl ])

  finished :
      (k : ℕ) (ret : Ret) (s : Session)
      → view c n (finish c k ret s) ≡ (if k == n then ended ret else view c n s)
  unfolding finish view finish_req_rep
  finished k ret s = at c.debug
    where
      at :
          (b : Bool)
          → let r = if b then (finish_req_rep c.sock k s.router).1 else s.router in
            seen
              (find n (erase k s.waiting))
              (find n (assign k ret s.done))
              (lookup c.sock n r.send_complete)
              (lookup c.sock n r.net_rep)
            ≡ (if k == n then ended ret else view c n s)
      at true =
          finished_seen k ret s (lookup c.sock n (remove c.sock k s.router.send_complete))
            (lookup c.sock n (remove c.sock k s.router.net_rep))
          ∙ rw
              (
                lookup-remove c.sock k c.sock n s.router.send_complete,
                lookup-remove c.sock k c.sock n s.router.net_rep,
                same_sock c.sock k n,
              )
              (elim (Bool-cases (k == n)) [ inl h ↦ rw h refl | inr h ↦ rw h refl ])
      at false =
          finished_seen k ret s (lookup c.sock n s.router.send_complete)
            (lookup c.sock n s.router.net_rep)

  -- A coroutine that waits goes on.
  moved :
      (k : ℕ) (phase : Phase) (s : Session)
      → view c n (record s { waiting = assign k phase s.waiting }) ≡ (
          if k == n
          then outstanding phase
              (lookup c.sock n s.router.send_complete)
              (lookup c.sock n s.router.net_rep)
          else view c n s)
  unfolding view
  moved k phase s =
      rw (find-assign k n phase s.waiting)
        (elim (Bool-cases (k == n)) [ inl h ↦ rw h refl | inr h ↦ rw h refl ])

  pub same_view :
      (k : ℕ) (s : Session) (q : Request)
      → view c k s ≡ q
      → view c n s ≡ (if k == n then q else view c n s)
  same_view k s q v = elim (Bool-cases (k == n)) [
    | inl h ↦ rw (h, ← ==→eq k n h) v
    | inr h ↦ rw h refl
  ]

  resumed_sent :
      (k : ℕ) (s : Session) (o : Option (Signal Bool))
      → let rep = lookup c.sock k s.router.net_rep in
        lookup c.sock k s.router.send_complete ≡ o
        → view c k s ≡ outstanding awaits_sent o rep
        → view c n (resume_sent c k o s)
          ≡ (if k == n then go_on (outstanding awaits_sent o rep) else view c n s)
  unfolding resume_sent go_on
  resumed_sent k s (some (fired true)) l v =
      moved k awaits_rep s
      ∙ elim (Bool-cases (k == n)) [ inl h ↦ rw (h, ← l, ==→eq k n h) refl | inr h ↦ rw h refl ]
  resumed_sent k s (some (fired false)) l v = finished k unsent s
  resumed_sent k s (some pending) l v =
      same_view k s (outstanding awaits_sent (some pending) (lookup c.sock k s.router.net_rep)) v
  resumed_sent k s none l v =
      same_view k s (outstanding awaits_sent none (lookup c.sock k s.router.net_rep)) v

  resumed_rep :
      (k : ℕ) (s : Session) (o : Option (Signal NMessage))
      → let is_sent = lookup c.sock k s.router.send_complete in
        view c k s ≡ outstanding awaits_rep is_sent o
        → view c n (resume_rep c k o s)
          ≡ (if k == n then go_on (outstanding awaits_rep is_sent o) else view c n s)
  unfolding resume_rep go_on
  resumed_rep k s (some (fired vv)) v = finished k (responded vv.1) s
  resumed_rep k s (some pending) v =
      same_view k s (outstanding awaits_rep (lookup c.sock k s.router.send_complete) (some pending))
        v
  resumed_rep k s none v =
      same_view k s (outstanding awaits_rep (lookup c.sock k s.router.send_complete) none) v

  idle :
      (k : ℕ) (s : Session)
      → find k s.waiting ≡ none
      → (if k == n then past (find k s.done) else view c n s)
        ≡ (if k == n then go_on (view c k s) else view c n s)
  unfolding view go_on
  idle k s w = rw w (kept (find k s.done))
    where
      kept :
          (o : Option Ret)
          → (if k == n then past o else view c n s)
            ≡ (if k == n then go_on (past o) else view c n s)
      kept none = refl
      kept (some ret) = refl

  suspended : (k : ℕ) (s : Session) → find k s.waiting ≡ none → resume c k s ≡ s
  unfolding resume
  suspended k s w = rw (w, resume)

  pub resume_lem :
      (k : ℕ) (s : Session)
      → view c n (resume c k s) ≡ (if k == n then go_on (view c k s) else view c n s)
  unfolding resume view
  resume_lem k s = elim (Option-cases (find k s.waiting)) [
    | inl w ↦
        ap (view c n) (suspended k s w)
        ∙ same_view k s (past (find k s.done)) (rw w refl)
        ∙ idle k s w
    | inr (awaits_sent, w) ↦
        rw (w, resume) (resumed_sent k s (lookup c.sock k s.router.send_complete) refl (rw w refl))
    | inr (awaits_rep, w) ↦
        rw (w, resume) (resumed_rep k s (lookup c.sock k s.router.net_rep) (rw w refl))
  ]
