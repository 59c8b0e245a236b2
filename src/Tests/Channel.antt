-- ===== src/Tests/Channel.antt =====
-- Channels, their router, and the routes.
use sm.Base.{
  ℕ, ◌<◌, ◌≡◌, refl, ◌≢◌, true, false, some, List, [], ◌∷◌, ◌++◌, map, arith, length, take, All,
}
use sm.Base.Map.{find, contains, nat_eq}
use sm.Net.Frame.{pack}
use sm.Net.Tcp.{got, Reading, received, recv_pack, sent, write_threw, send_pack, no_dealer}
use sm.Net.Tcp.Recv.{joined, recv_pack-frame}
use sm.Net.Tcp.Send.{send_pack_outcome}
use sm.Net.Router.{
  Router, fired, lookup, has_signal, can_req_rep, prepare_req_rep, finish_req_rep,
  notify_send_net_complete, notify_recv_net_rep,
}
use sm.Net.Router.Life.{notify_once}
use sm.Net.Router.Reach.{empty_router, prepares_req, finishes, Steps, start, after, signals_paired}

abbrev body : List ℕ
body = 1 ∷ 2 ∷ []

-- The frame of a message of two bytes with number 5, in two reads, and a byte behind it.
abbrev chunks : List (List ℕ)
chunks = (0 ∷ 0 ∷ 0 ∷ 2 ∷ 0 ∷ []) ∷ (0 ∷ 0 ∷ 5 ∷ 1 ∷ 2 ∷ 7 ∷ []) ∷ []

recv_pack-frame_example :
    (r' : Reading) × (rest : List (List ℕ)) × (recv_pack [] [] (map got chunks)
      ≡ some (received 5 body, r', map got rest))
    × (r'.recv ++ joined rest ≡ 7 ∷ [])
    × All (λ c. 0 < length c) rest
unfolding pack
recv_pack-frame_example =
    recv_pack-frame 5 body (7 ∷ []) [] [] chunks (omega arith) (omega arith) (omega arith) refl

send_pack_outcome_example :
    let head = (pack no_dealer 5 2).1 in
    (length body ≢ 8 → send_pack body 5 (sent 2 ∷ []) ≡ some (false, take 2 head))
    × (send_pack body 5 (write_threw ∷ []) ≡ some (false, []))
    × (send_pack body 5 (sent 8 ∷ sent 2 ∷ []) ≡ some (true, head ++ body))
    × (send_pack body 5 (sent 8 ∷ write_threw ∷ []) ≡ some (false, head))
send_pack_outcome_example = send_pack_outcome 1 (2 ∷ []) 5 2 []

notify_once_example :
    let r1 = (prepare_req_rep 1 5 empty_router).1 in
    let (is_sent, r2) = notify_send_net_complete 1 5 true r1 in
    let (is_replied, r3) = notify_recv_net_rep 1 (5, body) r2 in
    let r4 = (finish_req_rep 1 5 r3).1 in
    (is_sent ≡ true)
    × (is_replied ≡ true)
    × (lookup 1 5 r3.send_complete ≡ some (fired true))
    × (lookup 1 5 r3.net_rep ≡ some (fired (5, body)))
    × ((notify_send_net_complete 1 5 false r3).0 ≡ false)
    × ((notify_recv_net_rep 1 (5, []) r3).0 ≡ false)
    × ((notify_send_net_complete 1 5 false r4).0 ≡ false)
    × ((notify_recv_net_rep 1 (5, []) r4).0 ≡ false)
unfolding can_req_rep has_signal contains find
notify_once_example = notify_once 1 5 true false body [] empty_router refl

-- A request that is prepared and finished.
abbrev two_steps : (r : Router) → Steps r (finish_req_rep 1 5 (prepare_req_rep 1 5 r).1).1
two_steps r =
    after r (prepare_req_rep 1 5 r).1 (finish_req_rep 1 5 (prepare_req_rep 1 5 r).1).1
      (after r r (prepare_req_rep 1 5 r).1 (start r) (prepares_req 1 5 r))
      (finishes 1 5 (prepare_req_rep 1 5 r).1)

signals_paired_example :
    let r = (finish_req_rep 1 5 (prepare_req_rep 1 5 empty_router).1).1 in
    has_signal 1 5 r.send_complete ≡ has_signal 1 5 r.net_rep
signals_paired_example =
    signals_paired 1 5 (finish_req_rep 1 5 (prepare_req_rep 1 5 empty_router).1).1
      (two_steps empty_router)
