-- ===== src/Net/Sockets/Ends.antt =====
-- The ends of a pair: their queues, and what the router makes of their numbers.
use mathlib.Core.Path.{subst}
use sm.Base.{
  ℕ, ◌+◌, ◌%◌, ◌^◌, ◌<◌, ◌≡◌, refl, sym, ap, ◌∙◌, inl, inr, true, false, Option, none, some, List,
  [], ◌∷◌, ◌++◌, arith, ◌==◌, if◌then◌else◌, ==_refl, Bool-cases,
}
use sm.Base.Map.{find, insert, assign, nat_eq, find-insert, find-assign}
use sm.Net.Manager.{send_pack, Channel, LocalNetManager}
use sm.Net.Manager.Notice.{channel_of, send_pack-channel_of, outcome}
use sm.Net.Sockets.{
  Sockets, create_tcp_channel, send_data, Taken, waits, takes, take_first, recv_data,
}
use sm.Net.Router.{NMessage, Router, notify_send_net_complete}
use sm.Net.Sockets.Uses.{Use, use_all, cost, peer, in_range, is_some, IsNumbered, no_sockets}
use sm.Net.Sockets.Create.{next_one, none_of}
use sm.Net.Sockets.Numbers.{use_all-IsNumbered}

-- What the queue of a number holds.
abbrev or_empty : Option (List (List ℕ)) → List (List ℕ)
or_empty none = []
or_empty (some queue) = queue

abbrev pub queue_of : ℕ → Sockets → List (List ℕ)
queue_of n m = or_empty (find n m.senddata)

-- What `recvPack` is, for the queue of the other end.
abbrev pub Received : ℕ → Sockets → List (List ℕ) → Taken → Type 0
Received n m [] o = o ≡ waits
Received n m (msg ∷ queue) o =
    (m' : Sockets) × (o ≡ takes msg m')
    × ((k : ℕ) → queue_of k m' ≡ (if n == k then queue else queue_of k m))

peer-peer : (n last : ℕ) → in_range n last ≡ true → peer (peer n) ≡ n
peer-peer n last h = ground arith

peer-in_range : (n last : ℕ) → last % 2 ≡ 0 → in_range n last ≡ true → in_range (peer n) last ≡ true
peer-in_range n last e h = ground arith

queued :
    (o : Option (List (List ℕ))) → is_some o ≡ true → (queue : List (List ℕ)) × (o ≡ some queue)
queued none h = cc
queued (some queue) h = (queue, refl)

sent_on :
    (m : Sockets) (n : ℕ) (msg : List ℕ) (queue : List (List ℕ))
    → find n m.senddata ≡ some queue
    → ((send_data n msg m).0 ≡ true)
      × ((k : ℕ)
          → queue_of k (send_data n msg m).1
            ≡ (if n == k then queue ++ (msg ∷ []) else queue_of k m))
unfolding send_data
sent_on m n msg queue e =
    rw (e, send_data)
      (
        refl,
        λ k.
            rw (find-assign n k (queue ++ (msg ∷ [])) m.senddata)
              (elim (Bool-cases (n == k)) [ inl h ↦ rw h refl | inr h ↦ rw h refl ]),
      )

received_from :
    (m : Sockets) (s n : ℕ) (queue : List (List ℕ))
    → find s m.channel_pairs ≡ some n
    → find n m.senddata ≡ some queue
    → Received n m queue (recv_data s m)
unfolding recv_data take_first
received_from m s n [] e k = rw (e, k, recv_data) refl
received_from m s n (msg ∷ queue) e k =
    rw (e, k, recv_data)
      (
        record m { senddata = assign n queue m.senddata },
        refl,
        λ j.
            rw (find-assign n j queue m.senddata)
              (elim (Bool-cases (n == j)) [ inl h ↦ rw h refl | inr h ↦ rw h refl ]),
      )

ends_queue :
    (used : ℕ) (m : Sockets) (n : ℕ) (msg : List ℕ)
    → IsNumbered used m
    → in_range n m.index ≡ true
    → ((send_data n msg m).0 ≡ true)
      × ((k : ℕ)
          → queue_of k (send_data n msg m).1
            ≡ (if n == k then queue_of n m ++ (msg ∷ []) else queue_of k m))
      × Received n m (queue_of n m) (recv_data (peer n) m)
ends_queue used m n msg v r =
    let (queue, e) = queued (find n m.senddata) (v.queues n ∙ r) in
    let (ok, others) = sent_on m n msg queue e in
    let mate : find (peer n) m.channel_pairs ≡ some n =
      v.ends (peer n)
      ∙ ap (λ b. if b then some (peer (peer n)) else none) (peer-in_range n m.index v.paired r)
      ∙ ap (λ k. some k) (peer-peer n m.index r) in
    let whole : queue_of n m ≡ queue = ap or_empty e in
    (
      ok,
      λ k. others k ∙ ap (λ q. if n == k then q ++ (msg ∷ []) else queue_of k m) (sym whole),
      subst (λ q. Received n m q (recv_data (peer n) m)) (sym whole)
          (received_from m (peer n) n queue mate e),
    )

unsendable :
    (used : ℕ) (m : Sockets) (n : ℕ) (msg : NMessage) (r : Router)
    → IsNumbered used m
    → m.sock_no < n
    → send_pack m.manager n msg r ≡ (false, r)
unsendable used m n msg r v h =
    send_pack-channel_of m.manager n msg r ∙ ap (λ o. outcome o n msg r) (v.network n h)

first_found :
    (k : ℕ) (channel : Channel) (manager : LocalNetManager)
    → channel_of manager k ≡ none
    → channel_of (record manager { channels_tcp = insert k channel manager.channels_tcp }) k
      ≡ some channel
first_found k channel manager e =
    let (a, b, d) =
      none_of (find k manager.channels_tcp) (find k manager.channels_rep)
        (find k manager.channels_req) e in
    rw (find-insert k k channel manager.channels_tcp, a, ==_refl k) refl

taken_over :
    (used : ℕ) (m : Sockets) (channel : Channel) (msg : NMessage) (r : Router)
    → used + 1 < 2 ^ 32
    → IsNumbered used m
    → m.sock_no < m.index
    → let (sockno, m') = create_tcp_channel channel m in
      (find sockno m'.channel_pairs ≡ some (peer sockno))
      × (send_pack m'.manager sockno msg r
          ≡ (true, (notify_send_net_complete sockno msg.0 (channel msg) r).1))
unfolding create_tcp_channel
taken_over used m channel msg r h v few =
    let (le, le') = v.few in
    let k = m.sock_no + 1 in
    let inside : in_range k m.index ≡ true = ground arith in
    rw (next_one m.sock_no (omega arith)) (
      v.ends k ∙ ap (λ b. if b then some (peer k) else none) inside,
      send_pack-channel_of
            (record m.manager { channels_tcp = insert k channel m.manager.channels_tcp }) k msg r
          ∙ ap (λ o. outcome o k msg r)
              (first_found k channel m.manager (v.network k (omega arith))),
    )

-- After any calls of the manager that use up fewer than 2 ^ 32 numbers: a text that is sent on an end
-- of a pair goes behind what its queue holds, and the other end takes what the queue holds from its
-- front, and waits where it holds nothing; no other queue changes.
pub pair_queues :
    (us : List Use) (n : ℕ) (msg : List ℕ)
    → cost us < 2 ^ 32
    → let m = use_all us no_sockets in
      in_range n m.index ≡ true
      → ((send_data n msg m).0 ≡ true)
        × ((k : ℕ)
            → queue_of k (send_data n msg m).1
              ≡ (if n == k then queue_of n m ++ (msg ∷ []) else queue_of k m))
        × Received n m (queue_of n m) (recv_data (peer n) m)
pair_queues us n msg h r =
    ends_queue (cost us) (use_all us no_sockets) n msg (use_all-IsNumbered us h) r

-- The router finds no channel for an end whose number is above those of the network's channels, and
-- tells nobody of the sending of its messages; and the next channel over TCP, if there are more ends
-- than numbers of the network, has the number of an end, whose messages it then sends.
pub pair_ends_misrouted :
    (us : List Use) (n : ℕ) (channel : Channel) (msg : NMessage) (r : Router)
    → cost us + 1 < 2 ^ 32
    → let m = use_all us no_sockets in
      let (sockno, m') = create_tcp_channel channel m in
      (m.sock_no < n → send_pack m.manager n msg r ≡ (false, r))
      × (m.sock_no < m.index
          → (find sockno m'.channel_pairs ≡ some (peer sockno))
            × (send_pack m'.manager sockno msg r
                ≡ (true, (notify_send_net_complete sockno msg.0 (channel msg) r).1)))
unfolding create_tcp_channel
pair_ends_misrouted us n channel msg r h =
    let m = use_all us no_sockets in
    let v = use_all-IsNumbered us (omega arith) in
    (unsendable (cost us) m n msg r v, taken_over (cost us) m channel msg r h v)
