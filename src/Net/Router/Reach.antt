-- ===== src/Net/Router/Reach.antt =====
-- The router as a state machine: what holds behind any sequence of its operations.
use sm.Base.{ℕ, ◌≡◌, refl, sym, ◌∙◌, inl, inr, Bool, true, false, ◌||◌, [], Bool-cases}
use sm.Base.Map.{find, contains}
use sm.Net.Router.{
  pending, NMessage, Router, has_signal, prepare_signal_send_complete, prepare_signal_recv_net_rep,
  prepare_signal_recv_app_rep, notify_send_net_complete, notify_recv_net_rep, notify_recv_app_rep,
  finish_req_rep, can_req_rep, can_wait_app_rep, prepare_req_rep, prepare_app_rep,
}
use sm.Net.Router.Lookup.{
  same, same_refl, has_signal-place, has_signal-remove, has_signal-send_signal,
}

abbrev pub empty_router : Router
empty_router = record { send_complete = []; net_rep = []; app_rep = [] }

-- The calls that the channels and the application make.
pub data Step : Router → Router → Type 0 where
  prepares_req : (s n : ℕ) (r : Router) → Step r (prepare_req_rep s n r).1
  prepares_app : (s n : ℕ) (r : Router) → Step r (prepare_app_rep s n r).1
  notifies_sent :
      (s n : ℕ) (flag : Bool) (r : Router) → Step r (notify_send_net_complete s n flag r).1
  notifies_net : (s : ℕ) (msg : NMessage) (r : Router) → Step r (notify_recv_net_rep s msg r).1
  notifies_app : (s : ℕ) (msg : NMessage) (r : Router) → Step r (notify_recv_app_rep s msg r).1
  finishes : (s n : ℕ) (r : Router) → Step r (finish_req_rep s n r).1

pub data Steps : Router → Router → Type 0 where
  start : (r : Router) → Steps r r
  after : (r r' r'' : Router) → Steps r r' → Step r' r'' → Steps r r''

or_true : (b : Bool) → (b || true) ≡ true
or_true true = refl
or_true false = refl

-- No operation removes a signal for a response of the application.
app_rep_stays :
    (s n : ℕ) (r r' : Router)
    → Step r r'
    → has_signal s n r.app_rep ≡ true
    → has_signal s n r'.app_rep ≡ true
unfolding prepare_req_rep prepare_app_rep notify_send_net_complete notify_recv_net_rep
    notify_recv_app_rep finish_req_rep prepare_signal_send_complete prepare_signal_recv_net_rep
    prepare_signal_recv_app_rep
app_rep_stays s n _ _ (prepares_req s' n' r) h = elim (Bool-cases (can_req_rep s' n' r)) [
  | inl e ↦ rw (e, prepare_req_rep) h
  | inr e ↦ rw (e, prepare_req_rep) h
]
app_rep_stays s n _ _ (prepares_app s' n' r) h = elim (Bool-cases (can_wait_app_rep s' n' r)) [
  | inl e ↦
      rw (e, prepare_app_rep)
        (has_signal-place s' n' s n pending r.app_rep ∙ rw h (or_true (same s' n' s n)))
  | inr e ↦ rw (e, prepare_app_rep) h
]
app_rep_stays s n _ _ (notifies_sent s' n' flag r) h = h
app_rep_stays s n _ _ (notifies_net s' msg r) h = h
app_rep_stays s n _ _ (notifies_app s' msg r) h =
    has_signal-send_signal s' msg.0 s n msg r.app_rep ∙ h
app_rep_stays s n _ _ (finishes s' n' r) h = h

pub app_rep_kept :
    (s n : ℕ) (r r' : Router)
    → Steps r r'
    → has_signal s n r.app_rep ≡ true
    → has_signal s n r'.app_rep ≡ true
app_rep_kept s n _ _ (start r) h = h
app_rep_kept s n _ _ (after r r' r'' steps step) h =
    app_rep_stays s n r' r'' step (app_rep_kept s n r r' steps h)

has_signal-prepare_app_rep :
    (s n : ℕ) (r : Router) → has_signal s n (prepare_app_rep s n r).1.app_rep ≡ true
unfolding prepare_app_rep can_wait_app_rep prepare_signal_recv_app_rep
has_signal-prepare_app_rep s n r = elim (Bool-cases (has_signal s n r.app_rep)) [
  | inl h ↦ rw (h, prepare_app_rep) h
  | inr h ↦ rw (h, prepare_app_rep) (rw (has_signal-place s n s n pending r.app_rep, same_refl s n))
]

prepare_app_rep_taken :
    (s n : ℕ) (r : Router) → has_signal s n r.app_rep ≡ true → prepare_app_rep s n r ≡ (false, r)
unfolding prepare_app_rep can_wait_app_rep
prepare_app_rep_taken s n r h = rw (h, prepare_app_rep)

-- Once `prepareAppRep` was called for a message number of a socket, no sequence of operations lets it
-- give a receiver for that number again.
prepare_app_rep_once :
    (s n : ℕ) (r r' : Router)
    → Steps (prepare_app_rep s n r).1 r'
    → prepare_app_rep s n r' ≡ (false, r')
prepare_app_rep_once s n r r' steps =
    prepare_app_rep_taken s n r'
      (app_rep_kept s n (prepare_app_rep s n r).1 r' steps (has_signal-prepare_app_rep s n r))

abbrev Paired : Router → Type 0
Paired r = (s n : ℕ) → has_signal s n r.send_complete ≡ has_signal s n r.net_rep

kept-Paired : (r r' : Router) → Step r r' → Paired r → Paired r'
unfolding prepare_req_rep prepare_app_rep notify_send_net_complete notify_recv_net_rep
    notify_recv_app_rep finish_req_rep prepare_signal_send_complete prepare_signal_recv_net_rep
    prepare_signal_recv_app_rep
kept-Paired _ _ (prepares_req s' n' r) p s n = elim (Bool-cases (can_req_rep s' n' r)) [
  | inl e ↦
      rw (e, prepare_req_rep)
        (rw (
          has_signal-place s' n' s n pending r.send_complete,
          has_signal-place s' n' s n pending r.net_rep,
          p s n,
        ))
  | inr e ↦ rw (e, prepare_req_rep) (p s n)
]
kept-Paired _ _ (prepares_app s' n' r) p s n = elim (Bool-cases (can_wait_app_rep s' n' r)) [
  | inl e ↦ rw (e, prepare_app_rep) (p s n)
  | inr e ↦ rw (e, prepare_app_rep) (p s n)
]
kept-Paired _ _ (notifies_sent s' n' flag r) p s n =
    has_signal-send_signal s' n' s n flag r.send_complete ∙ p s n
kept-Paired _ _ (notifies_net s' msg r) p s n =
    p s n ∙ sym (has_signal-send_signal s' msg.0 s n msg r.net_rep)
kept-Paired _ _ (notifies_app s' msg r) p s n = p s n
kept-Paired _ _ (finishes s' n' r) p s n =
    rw (has_signal-remove s' n' s n r.send_complete, has_signal-remove s' n' s n r.net_rep, p s n)

along-Paired : (r r' : Router) → Steps r r' → Paired r → Paired r'
along-Paired _ _ (start r) p = p
along-Paired _ _ (after r r' r'' steps step) p = kept-Paired r' r'' step (along-Paired r r' steps p)

empty-Paired : Paired empty_router
unfolding has_signal contains find
empty-Paired s n = refl

-- In every router that is reached from the first, a number has a signal for the sending of a request
-- exactly if it has one for the response from the network.
pub signals_paired :
    (s n : ℕ) (r : Router)
    → Steps empty_router r
    → has_signal s n r.send_complete ≡ has_signal s n r.net_rep
signals_paired s n r steps = along-Paired empty_router r steps empty-Paired s n
