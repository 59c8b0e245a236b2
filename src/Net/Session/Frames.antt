-- ===== src/Net/Session/Frames.antt =====
-- Which signals of a number the router's operations change.
use sm.Base.{
  ℕ, ◌≡◌, refl, ◌∙◌, inl, inr, Bool, true, false, Option, none, some, Bool-cases, Option-cases,
}
use sm.Base.Map.{nat_eq}
use sm.Net.Dealer.{Handler}
use sm.Net.Platform.Manager.{PackUnpackManager}
use sm.Net.Router.{
  Signal, Signals, pending, fired, NMessage, Router, lookup, send_signal, prepare_app_rep,
  notify_recv_app_rep, prepare_signal_recv_app_rep, can_wait_app_rep, notify_send_net_complete,
}
use sm.Net.Router.Lookup.{same, same_refl, lookup-send_signal, lookup-place}
use sm.Net.Deal.{Round, continues, returns, undefined_behaviour, aborts, answer, deal_round}
use sm.Net.Manager.{Channel, LocalNetManager, send_pack}
use sm.Net.Manager.Notice.{channel_of, send_pack-channel_of}
use sm.Net.Deal.Ends.{round_ends}
use sm.Conf.Routes.{RoutersTrans}

-- What a signal becomes when a value is sent on it.
abbrev pub tell : {V : Type 0} → V → Option (Signal V) → Option (Signal V)
tell v none = none
tell v (some pending) = some (fired v)
tell v (some (fired w)) = some (fired w)

module _ {V : Type 0} where
  pub send_signal_self :
      (s n : ℕ) (v : V) (m : Signals V) → lookup s n (send_signal s n v m).1 ≡ tell v (lookup s n m)
  unfolding send_signal
  send_signal_self s n v m = elim (Option-cases (lookup s n m)) [
    | inl h ↦ rw (h, send_signal) h
    | inr (pending, h) ↦ rw (h, send_signal) (lookup-place s n s n (fired v) m ∙ rw (same_refl s n))
    | inr (fired w, h) ↦ rw (h, send_signal) h
  ]

  pub send_signal_other :
      (s n s' n' : ℕ) (v : V) (m : Signals V)
      → same s n s' n' ≡ false
      → lookup s' n' (send_signal s n v m).1 ≡ lookup s' n' m
  send_signal_other s n s' n' v m h =
      lookup-send_signal s n s' n' v m
      ∙ elim (Bool-cases (send_signal s n v m).0) [ inl k ↦ rw (k, h) | inr k ↦ rw k ]

-- What a request waits for, in two routers.
abbrev pub SameRequests : Router → Router → Type 0
SameRequests r r' = (r'.send_complete ≡ r.send_complete) × (r'.net_rep ≡ r.net_rep)

-- A round changes only who waits for the application.
abbrev pub Apart : Router → Round → Type 0
Apart r (continues r') = SameRequests r r'
Apart r returns = Unit
Apart r undefined_behaviour = Unit
Apart r aborts = Unit

answer-Apart :
    (debug : Bool) (sock : ℕ) (msg : NMessage) (r : Router) → Apart r (answer debug sock msg r)
unfolding answer notify_recv_app_rep
answer-Apart false sock msg r = (refl, refl)
answer-Apart true sock msg r = elim (Bool-cases (send_signal sock msg.0 msg r.app_rep).0) [
  | inl h ↦ rw h (refl, refl)
  | inr h ↦ rw h tt
]

pub round-Apart :
    (debug : Bool) (platforms : PackUnpackManager) (routers : RoutersTrans Handler) (sock mainc : ℕ)
    (msg : NMessage) (r : Router)
    → Apart r (deal_round debug platforms routers sock mainc msg r)
round-Apart debug platforms routers sock mainc msg r =
    round_ends debug sock r (Apart r) (tt, tt, tt) (refl, refl) (λ m. answer-Apart debug sock m r)
      platforms routers mainc msg

pub prepare_app_rep_apart : (s n : ℕ) (r : Router) → SameRequests r (prepare_app_rep s n r).1
unfolding prepare_app_rep prepare_signal_recv_app_rep
prepare_app_rep_apart s n r = elim (Bool-cases (can_wait_app_rep s n r)) [
  | inl h ↦ rw (h, prepare_app_rep) (refl, refl)
  | inr h ↦ rw (h, prepare_app_rep) (refl, refl)
]

-- What the sender of a message of a socket tells whoever waits.
abbrev pub told_of : Option Channel → NMessage → Option (Signal Bool) → Option (Signal Bool)
told_of none msg o = o
told_of (some channel) msg o = tell (channel msg) o

pub send_pack_told :
    (m : LocalNetManager) (sock : ℕ) (msg : NMessage) (r : Router)
    → lookup sock msg.0 (send_pack m sock msg r).1.send_complete
      ≡ told_of (channel_of m sock) msg (lookup sock msg.0 r.send_complete)
unfolding notify_send_net_complete
send_pack_told m sock msg r =
    rw (send_pack-channel_of m sock msg r) (elim (Option-cases (channel_of m sock)) [
      | inl h ↦ rw h
      | inr (channel, h) ↦ rw h (send_signal_self sock msg.0 (channel msg) r.send_complete)
    ])

pub send_pack_untold :
    (m : LocalNetManager) (sock : ℕ) (msg : NMessage) (s n : ℕ) (r : Router)
    → same sock msg.0 s n ≡ false
    → lookup s n (send_pack m sock msg r).1.send_complete ≡ lookup s n r.send_complete
unfolding notify_send_net_complete
send_pack_untold m sock msg s n r k =
    rw (send_pack-channel_of m sock msg r) (elim (Option-cases (channel_of m sock)) [
      | inl h ↦ rw h
      | inr (channel, h) ↦ rw h (send_signal_other sock msg.0 s n (channel msg) r.send_complete k)
    ])

pub send_pack_net_rep :
    (m : LocalNetManager) (sock : ℕ) (msg : NMessage) (r : Router)
    → (send_pack m sock msg r).1.net_rep ≡ r.net_rep
unfolding notify_send_net_complete
send_pack_net_rep m sock msg r =
    rw (send_pack-channel_of m sock msg r)
      (elim (Option-cases (channel_of m sock)) [ inl h ↦ rw h | inr (channel, h) ↦ rw h ])
