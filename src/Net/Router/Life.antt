-- ===== src/Net/Router/Life.antt =====
-- One request: prepared, told of, finished.
use sm.Base.{
  ℕ, ◌≡◌, refl, sym, ap, ◌∙◌, inl, inr, Bool, true, false, not, ◌&&◌, ◌||◌, none, some, List,
  Bool-cases,
}
use sm.Net.Router.{
  Signal, Signals, pending, fired, Router, lookup, place, remove, send_signal,
  prepare_signal_send_complete, prepare_signal_recv_net_rep, notify_send_net_complete,
  notify_recv_net_rep, finish_req_rep, can_req_rep, prepare_req_rep,
}
use sm.Net.Router.Lookup.{
  same, same→eq, same_refl, lookup-place, lookup-remove, has_signal-place, has_signal-remove,
}

-- The router after `prepareReqRep` of a number that is free.
abbrev pub prepared : ℕ → ℕ → Router → Router
prepared sock msgno r =
    prepare_signal_recv_net_rep sock msgno (prepare_signal_send_complete sock msgno r)

can_req_rep-prepared :
    (s n s' n' : ℕ) (r : Router)
    → can_req_rep s' n' (prepared s n r) ≡ (not (same s n s' n') && can_req_rep s' n' r)
unfolding can_req_rep prepare_signal_recv_net_rep prepare_signal_send_complete
can_req_rep-prepared s n s' n' r =
    rw
      (
        has_signal-place s n s' n' pending r.send_complete,
        has_signal-place s n s' n' pending r.net_rep,
      )
      (elim (Bool-cases (same s n s' n')) [ inl h ↦ rw h | inr h ↦ rw h ])

can_req_rep-finish_req_rep :
    (s n s' n' : ℕ) (r : Router)
    → can_req_rep s' n' (finish_req_rep s n r).1 ≡ (same s n s' n' || can_req_rep s' n' r)
unfolding can_req_rep finish_req_rep
can_req_rep-finish_req_rep s n s' n' r =
    rw (has_signal-remove s n s' n' r.send_complete, has_signal-remove s n s' n' r.net_rep)
      (elim (Bool-cases (same s n s' n')) [ inl h ↦ rw h | inr h ↦ rw h ])

pub prepare_free :
    (s n : ℕ) (r : Router)
    → can_req_rep s n r ≡ true
    → prepare_req_rep s n r ≡ (true, prepared s n r)
unfolding prepare_req_rep
prepare_free s n r h = rw (h, prepare_req_rep)

pub prepare_taken :
    (s n : ℕ) (r : Router) → can_req_rep s n r ≡ false → prepare_req_rep s n r ≡ (false, r)
unfolding prepare_req_rep
prepare_taken s n r h = rw (h, prepare_req_rep)

taken_stays :
    (s n s' n' : ℕ) (r : Router)
    → can_req_rep s n r ≡ false
    → can_req_rep s' n' r ≡ (not (same s n s' n') && can_req_rep s' n' r)
taken_stays s n s' n' r h = elim (Bool-cases (same s n s' n')) [
  | inl e ↦ let (es, en) = same→eq s n s' n' e in rw (e, ← es, ← en) h
  | inr e ↦ rw e
]

absorbed : (a b : Bool) → (a || (not a && b)) ≡ (a || b)
absorbed true b = refl
absorbed false b = refl

-- `prepareReqRep` succeeds for exactly the numbers that `canReqRep` allows, and then takes its number and no
-- other; `FinishReqRepRecver` frees the number and no other.
prepare_req_rep-finish_req_rep :
    (s n s' n' : ℕ) (r : Router)
    → let (ok, r') = prepare_req_rep s n r in
      (ok ≡ can_req_rep s n r)
      × (can_req_rep s' n' r' ≡ (not (same s n s' n') && can_req_rep s' n' r))
      × (can_req_rep s' n' (finish_req_rep s n r').1 ≡ (same s n s' n' || can_req_rep s' n' r))
prepare_req_rep-finish_req_rep s n s' n' r = elim (Bool-cases (can_req_rep s n r)) [
  | inl free ↦ rw (prepare_free s n r free) (
    sym free,
    can_req_rep-prepared s n s' n' r,
    can_req_rep-finish_req_rep s n s' n' (prepared s n r)
        ∙ ap (λ b. same s n s' n' || b) (can_req_rep-prepared s n s' n' r)
        ∙ absorbed (same s n s' n') (can_req_rep s' n' r),
  )
  | inr taken ↦
      rw (prepare_taken s n r taken)
        (sym taken, taken_stays s n s' n' r taken, can_req_rep-finish_req_rep s n s' n' r)
]

pub send_pending :
    {V : Type 0} (s n : ℕ) (v : V) (m : Signals V)
    → lookup s n m ≡ some pending
    → send_signal s n v m ≡ (true, place s n (fired v) m)
unfolding send_signal
send_pending s n v m h = rw (h, send_signal)

pub send_fired :
    {V : Type 0} (s n : ℕ) (v w : V) (m : Signals V)
    → lookup s n m ≡ some (fired w)
    → send_signal s n v m ≡ (false, m)
unfolding send_signal
send_fired s n v w m h = rw (h, send_signal)

pub send_none :
    {V : Type 0} (s n : ℕ) (v : V) (m : Signals V)
    → lookup s n m ≡ none
    → send_signal s n v m ≡ (false, m)
unfolding send_signal
send_none s n v m h = rw (h, send_signal)

pub lookup-place_self :
    {V : Type 0} (s n : ℕ) (v : Signal V) (m : Signals V) → lookup s n (place s n v m) ≡ some v
lookup-place_self s n v m = rw (lookup-place s n s n v m, same_refl s n)

pub lookup-remove_self : {V : Type 0} (s n : ℕ) (m : Signals V) → lookup s n (remove s n m) ≡ none
lookup-remove_self s n m = rw (lookup-remove s n s n m, same_refl s n)

signal_life :
    {V : Type 0} (s n : ℕ) (v v' : V) (m : Signals V)
    → let (ok, m') = send_signal s n v (place s n pending m) in
      (ok ≡ true)
      × (lookup s n m' ≡ some (fired v))
      × ((send_signal s n v' m').0 ≡ false)
      × ((send_signal s n v' (remove s n m')).0 ≡ false)
signal_life s n v v' m =
    let before = place s n pending m in
    let after = place s n (fired v) before in
    rw (send_pending s n v before (lookup-place_self s n pending m)) (
      refl,
      lookup-place_self s n (fired v) before,
      ap (λ p. p.0) (send_fired s n v' v after (lookup-place_self s n (fired v) before)),
      ap (λ p. p.0) (send_none s n v' (remove s n after) (lookup-remove_self s n after)),
    )

-- Behind a successful `prepareReqRep`, the first notice of the response is delivered after
-- that of the sending; a second notice of either is refused, and behind `FinishReqRepRecver` every
-- notice is.
pub notify_once :
    (s n : ℕ) (flag flag' : Bool) (body body' : List ℕ) (r : Router)
    → can_req_rep s n r ≡ true
    → let r1 = (prepare_req_rep s n r).1 in
      let (sent, r2) = notify_send_net_complete s n flag r1 in
      let (replied, r3) = notify_recv_net_rep s (n, body) r2 in
      let r4 = (finish_req_rep s n r3).1 in
      (sent ≡ true)
      × (replied ≡ true)
      × (lookup s n r3.send_complete ≡ some (fired flag))
      × (lookup s n r3.net_rep ≡ some (fired (n, body)))
      × ((notify_send_net_complete s n flag' r3).0 ≡ false)
      × ((notify_recv_net_rep s (n, body') r3).0 ≡ false)
      × ((notify_send_net_complete s n flag' r4).0 ≡ false)
      × ((notify_recv_net_rep s (n, body') r4).0 ≡ false)
unfolding prepare_signal_recv_net_rep prepare_signal_send_complete notify_send_net_complete
    notify_recv_net_rep finish_req_rep
notify_once s n flag flag' body body' r free = rw (prepare_free s n r free) (
    let (sent, kept, again, gone) = signal_life s n flag flag' r.send_complete in
    let (sent', kept', again', gone') = signal_life s n (n, body) (n, body') r.net_rep in
    (sent, sent', kept, kept', again, again', gone, gone'))
