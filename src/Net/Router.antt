-- ===== src/Net/Router.antt =====
-- networkinterface/MessageRouter.cpp, and what networkinterface.cpp makes of it: the signals by which
-- the senders of requests and of responses are told of them, by socket and message number.
-- `operator[]` makes an empty map for a socket without one, which no look-up tells from none.
pub mod Lookup
pub mod Life
pub mod Reach
use sm.Base.{
  ℕ, zero, suc, ◌+◌, ◌-◌, ◌*◌, ◌/◌, ◌%◌, ◌^◌, ◌≤◌, ◌<◌, ◌≡◌, refl, sym, ap, ap₂, ◌∙◌, fun_ext, ◌≢◌,
  ◌↔◌, ◌⊎◌, inl, inr, Bool, true, false, not, ◌&&◌, ◌||◌, Option, none, some, List, [], ◌∷◌, ◌++◌,
  append-nil, append_assoc, map, arith, ltb, leb, ◌==◌, if◌then◌else◌, ltb→lt, lt→ltb, le→ltb,
  ==→eq, ==_refl, tests, Bool-cases, Option-cases, length, take, drop, length-append, take-append,
  drop-append, drop-append_cons, take-append_at, drop-append_at, take-append_drop, take_of_length,
  drop_of_length, length-drop, length-take, take-append_le, drop-append_le, All, Bytes, dec_lt,
  dec_le, ℕ_discrete,
}
use sm.Base.Map.{find, contains, assign, erase, nat_eq}

-- The sender of a `oneshot`: it can send once, and throws then.
pub data Signal (V : Type 0) : Type 0 where
  pending : Signal V
  fired : V → Signal V

abbrev pub Signals : Type 0 → Type 0
Signals V = List (ℕ × List (ℕ × Signal V))

-- A message number and its body.
abbrev pub NMessage : Type 0
NMessage = ℕ × List ℕ

pub record Router : Type 0 where
  pub send_complete : Signals Bool
  pub net_rep : Signals NMessage
  pub app_rep : Signals NMessage

module _ {V : Type 0} where
  abbrev pub at_sock : ℕ → Signals V → List (ℕ × Signal V)
  at_sock sock m = elim (find sock m) [ none ↦ [] | some signals ↦ signals ]

  unfoldable pub lookup : ℕ → ℕ → Signals V → Option (Signal V)
  lookup sock msgno m = find msgno (at_sock sock m)

  unfoldable pub place : ℕ → ℕ → Signal V → Signals V → Signals V
  place sock msgno signal m = assign sock (assign msgno signal (at_sock sock m)) m

  unfoldable pub remove : ℕ → ℕ → Signals V → Signals V
  remove sock msgno m = assign sock (erase msgno (at_sock sock m)) m

  -- The body of the three `notify` functions; the exception of a sender that has sent is caught.
  unfoldable pub send_signal : ℕ → ℕ → V → Signals V → Bool × Signals V
  send_signal sock msgno value m = elim (lookup sock msgno m) [
    | none ↦ (false, m)
    | some pending ↦ (true, place sock msgno (fired value) m)
    | some (fired old) ↦ (false, m)
  ]

unfoldable pub prepare_signal_send_complete : ℕ → ℕ → Router → Router
prepare_signal_send_complete sock msgno r = record r {
  send_complete = place sock msgno pending r.send_complete;
}

unfoldable pub prepare_signal_recv_net_rep : ℕ → ℕ → Router → Router
prepare_signal_recv_net_rep sock msgno r = record r { net_rep = place sock msgno pending r.net_rep }

unfoldable pub prepare_signal_recv_app_rep : ℕ → ℕ → Router → Router
prepare_signal_recv_app_rep sock msgno r = record r { app_rep = place sock msgno pending r.app_rep }

unfoldable pub notify_send_net_complete : ℕ → ℕ → Bool → Router → Bool × Router
notify_send_net_complete sock msgno flag r =
    let (ok, m) = send_signal sock msgno flag r.send_complete in
    (ok, record r { send_complete = m })

unfoldable pub notify_recv_net_rep : ℕ → NMessage → Router → Bool × Router
notify_recv_net_rep sock msg r =
    let (ok, m) = send_signal sock msg.0 msg r.net_rep in (ok, record r { net_rep = m })

unfoldable pub notify_recv_app_rep : ℕ → NMessage → Router → Bool × Router
notify_recv_app_rep sock msg r =
    let (ok, m) = send_signal sock msg.0 msg r.app_rep in (ok, record r { app_rep = m })

unfoldable pub finish_req_rep : ℕ → ℕ → Router → Bool × Router
finish_req_rep sock msgno r = (
  true,
  record r {
    send_complete = remove sock msgno r.send_complete;
    net_rep = remove sock msgno r.net_rep;
  },
)

-- Whether a message number has a signal.
unfoldable pub has_signal : {V : Type 0} → ℕ → ℕ → Signals V → Bool
has_signal sock msgno m = contains msgno (at_sock sock m)

unfoldable pub can_req_rep : ℕ → ℕ → Router → Bool
can_req_rep sock msgno r =
    if has_signal sock msgno r.send_complete
    then false
    else (if has_signal sock msgno r.net_rep then false else true)

unfoldable pub can_wait_app_rep : ℕ → ℕ → Router → Bool
can_wait_app_rep sock msgno r = if has_signal sock msgno r.app_rep then false else true

-- `prepareReqRep` of networkinterface.cpp: whether its receivers are valid.
unfoldable pub prepare_req_rep : ℕ → ℕ → Router → Bool × Router
prepare_req_rep sock msgno r =
    if can_req_rep sock msgno r
    then (true, prepare_signal_recv_net_rep sock msgno (prepare_signal_send_complete sock msgno r))
    else (false, r)

-- `prepareAppRep`: whether it gives a receiver, or null.
unfoldable pub prepare_app_rep : ℕ → ℕ → Router → Bool × Router
prepare_app_rep sock msgno r =
    if can_wait_app_rep sock msgno r
    then (true, prepare_signal_recv_app_rep sock msgno r)
    else (false, r)
