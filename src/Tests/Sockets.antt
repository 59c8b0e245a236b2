-- ===== src/Tests/Sockets.antt =====
-- Pairs of channels, over their queue and at the manager.
use sm.Base.{
  ℕ, ◌^◌, ◌<◌, ◌≡◌, refl, true, false, some, List, [], ◌∷◌, ◌++◌, arith, ◌==◌, if◌then◌else◌,
}
use sm.Base.Map.{find, nat_eq}
use sm.Net.Router.{NMessage, notify_send_net_complete}
use sm.Net.Router.Reach.{empty_router}
use sm.Net.Frame.{StreamNetDealer}
use sm.Net.Frame.RoundTrip.{frame_head}
use sm.Net.Tcp.{no_dealer}
use sm.Net.Manager.{Channel, send_pack}
use sm.Net.Pipe.{send_head, send_body, delivers, asserts, recv_pipe, sent, use_pipe}
use sm.Net.Pipe as Pipe
use sm.Net.Pipe.Order.{entries, known, overlapping, use_pipe-sent, recv_pipe_overlap}
use sm.Net.Sockets.{next, create_pair, create_tcp_channel, send_data, recv_data}
use sm.Net.Sockets.Uses.{Use, pair, tcp, no_sockets, use_one, use_all, peer}
use sm.Net.Sockets.Ends.{queue_of, Received, pair_queues, pair_ends_misrouted}

abbrev first : NMessage
first = (1, 7 ∷ 8 ∷ [])

abbrev second : NMessage
second = (2, 9 ∷ [])

abbrev exchange : List Pipe.Use
exchange = Pipe.sends first ∷ Pipe.sends second ∷ Pipe.receives ∷ []

use_pipe-sent_example :
    (msgs' left' : List NMessage) × (use_pipe true exchange no_dealer no_dealer [] []
      ≡ some (msgs', entries left'))
    × (msgs' ++ left' ≡ first ∷ second ∷ [])
use_pipe-sent_example =
    use_pipe-sent true exchange no_dealer no_dealer [] [] tt
      ((omega arith, omega arith), ((omega arith, omega arith), tt))

recv_pipe_overlap_example :
    (overlapping false first second no_dealer no_dealer []
      ≡ frame_head 1 2 ∷ frame_head 2 1 ∷ (9 ∷ []) ∷ (7 ∷ 8 ∷ []) ∷ [])
    × (recv_pipe true no_dealer (frame_head 1 2 ∷ frame_head 2 1 ∷ (9 ∷ []) ∷ (7 ∷ 8 ∷ []) ∷ [])
        ≡ delivers (1, frame_head 2 1) (known 1 2) ((9 ∷ []) ∷ (7 ∷ 8 ∷ []) ∷ []))
    × ((e1 : StreamNetDealer)
        → 1 < 8
        → (recv_pipe true e1 ((9 ∷ []) ∷ (7 ∷ 8 ∷ []) ∷ []) ≡ asserts)
          × (e2 : StreamNetDealer) × (recv_pipe false e1 ((9 ∷ []) ∷ (7 ∷ 8 ∷ []) ∷ [])
              ≡ delivers (e1.msgno, 7 ∷ 8 ∷ []) e2 []))
    × ((e1 : StreamNetDealer) (number len : ℕ) (others : List ℕ)
        → number < 2 ^ 32
        → len < 2 ^ 32
        → 9 ∷ [] ≡ frame_head number len ++ others
        → recv_pipe true e1 ((9 ∷ []) ∷ (7 ∷ 8 ∷ []) ∷ [])
          ≡ delivers (number, 7 ∷ 8 ∷ []) (known number len) [])
recv_pipe_overlap_example =
    recv_pipe_overlap false true no_dealer no_dealer no_dealer first second [] []
      (omega arith, omega arith)

abbrev sends_all : Channel
sends_all msg = true

-- A pair, and a channel over TCP.
abbrev uses : List Use
uses = pair ∷ pair ∷ tcp sends_all ∷ []

pair_queues_example :
    let m = use_all uses no_sockets in
    ((send_data 2 (5 ∷ []) m).0 ≡ true)
    × ((k : ℕ)
        → queue_of k (send_data 2 (5 ∷ []) m).1
          ≡ (if 2 == k then queue_of 2 m ++ ((5 ∷ []) ∷ []) else queue_of k m))
    × Received 2 m (queue_of 2 m) (recv_data 1 m)
unfolding use_one create_pair create_tcp_channel next
pair_queues_example = pair_queues uses 2 (5 ∷ []) (omega arith) refl

pair_ends_misrouted_example :
    let m = use_all uses no_sockets in
    let (sockno, m') = create_tcp_channel sends_all m in
    (m.sock_no < 3 → send_pack m.manager 3 first empty_router ≡ (false, empty_router))
    × (m.sock_no < m.index
        → (find sockno m'.channel_pairs ≡ some (peer sockno))
          × (send_pack m'.manager sockno first empty_router
              ≡ (true, (notify_send_net_complete sockno 1 true empty_router).1)))
pair_ends_misrouted_example = pair_ends_misrouted uses 3 sends_all first empty_router (omega arith)
