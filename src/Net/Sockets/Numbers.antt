-- ===== src/Net/Sockets/Numbers.antt =====
-- The numbers of a manager, whatever was done with it.
use mathlib.Core.Path.{subst}
use sm.Base.{
  ℕ, ◌+◌, ◌^◌, ◌<◌, ◌≡◌, sym, ap, ◌∙◌, inl, inr, some, List, [], ◌∷◌, ◌++◌, arith, ◌==◌, ==→eq,
  Bool-cases, Option-cases,
}
use sm.Base.Map.{find, assign, nat_eq, find-assign}
use sm.Net.Sockets.{Sockets, send_data, take_first, recv_data}
use sm.Net.Sockets.Uses.{
  Use, pair, tcp, req, rep, sends, receives, left_by, use_one, use_all, cost_one, cost, in_range,
  is_some, IsNumbered, no_sockets,
}
use sm.Net.Sockets.Create.{
  none-IsNumbered, pair-IsNumbered, tcp-IsNumbered, req-IsNumbered, rep_all-IsNumbered,
  more-IsNumbered,
}

-- A queue that is there is changed.
queue-IsNumbered :
    (used : ℕ) (m : Sockets) (sock : ℕ) (queue new : List (List ℕ))
    → IsNumbered used m
    → find sock m.senddata ≡ some queue
    → IsNumbered used (record m { senddata = assign sock new m.senddata })
queue-IsNumbered used m sock queue new v e = record {
  paired = v.paired;
  few = v.few;
  ends = v.ends;
  queues = λ n. rw (find-assign sock n new m.senddata) (elim (Bool-cases (sock == n)) [
    | inl h ↦ rw h (
        sym (ap (λ o. is_some o) e) ∙ v.queues sock ∙ ap (λ k. in_range k m.index) (==→eq sock n h))
    | inr h ↦ rw h (v.queues n)
  ]);
  network = v.network;
}

send-IsNumbered :
    (used : ℕ) (m : Sockets) (sock : ℕ) (msg : List ℕ)
    → IsNumbered used m
    → IsNumbered used (send_data sock msg m).1
unfolding send_data
send-IsNumbered used m sock msg v = elim (Option-cases (find sock m.senddata)) [
  | inl e ↦ rw (e, send_data) v
  | inr (queue, e) ↦
      rw (e, send_data) (queue-IsNumbered used m sock queue (queue ++ (msg ∷ [])) v e)
]

recv-IsNumbered :
    (used : ℕ) (m : Sockets) (sock : ℕ)
    → IsNumbered used m
    → IsNumbered used (left_by m (recv_data sock m))
unfolding recv_data take_first
recv-IsNumbered used m sock v = elim (Option-cases (find sock m.channel_pairs)) [
  | inl e ↦ rw (e, recv_data) v
  | inr (end, e) ↦ elim (Option-cases (find end m.senddata)) [
    | inl k ↦ rw (e, k, recv_data) v
    | inr ([], k) ↦ rw (e, k, recv_data) v
    | inr (msg ∷ queue, k) ↦
        rw (e, k, recv_data) (queue-IsNumbered used m end (msg ∷ queue) queue v k)
  ]
]

use-IsNumbered :
    (u : Use) (used : ℕ) (m : Sockets)
    → used + cost_one u < 2 ^ 32
    → IsNumbered used m
    → IsNumbered (used + cost_one u) (use_one u m)
unfolding use_one
use-IsNumbered pair used m h v = pair-IsNumbered used m h v
use-IsNumbered (tcp channel) used m h v = tcp-IsNumbered used m channel h v
use-IsNumbered (req channel) used m h v = req-IsNumbered used m channel h v
use-IsNumbered (rep opened outcomes listening) used m h v =
    rep_all-IsNumbered opened listening outcomes used m h v
use-IsNumbered (sends sock msg) used m h v =
    more-IsNumbered used 0 _ (send-IsNumbered used m sock msg v)
use-IsNumbered (receives sock) used m h v = more-IsNumbered used 0 _ (recv-IsNumbered used m sock v)

uses-IsNumbered :
    (us : List Use) (used : ℕ) (m : Sockets)
    → used + cost us < 2 ^ 32
    → IsNumbered used m
    → IsNumbered (used + cost us) (use_all us m)
uses-IsNumbered [] used m h v = more-IsNumbered used 0 m v
uses-IsNumbered (u ∷ us) used m h v =
    subst (λ k. IsNumbered k (use_all us (use_one u m))) (omega arith)
      (uses-IsNumbered us (used + cost_one u) (use_one u m) (omega arith)
        (use-IsNumbered u used m (omega arith) v))

-- Whatever channels were made and whatever was sent on pairs, with fewer than 2 ^ 32 numbers used up:
-- the numbers of the pairs' ends are those from 1 to an even last one, each odd one paired with the
-- number behind it, each with a queue; and no channel of the network has a number above `_sockNo`.
pub use_all-IsNumbered :
    (us : List Use) → cost us < 2 ^ 32 → IsNumbered (cost us) (use_all us no_sockets)
use_all-IsNumbered us h =
    subst (λ k. IsNumbered k (use_all us no_sockets)) (omega arith)
      (uses-IsNumbered us 0 no_sockets (omega arith) none-IsNumbered)
