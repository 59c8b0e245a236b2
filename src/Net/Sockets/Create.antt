-- ===== src/Net/Sockets/Create.antt =====
-- The numbers that each kind of channel takes.
use mathlib.Core.Path.{subst}
use sm.Base.{
  ℕ, ◌+◌, ◌%◌, ◌^◌, ◌<◌, ◌≡◌, refl, inl, inr, Bool, true, false, ◌&&◌, Option, none, some, List, [],
  ◌∷◌, arith, if◌then◌else◌, Option-cases, length,
}
use sm.Base.Map.{or_else, find, insert, nat_eq, find-insert}
use sm.Net.Manager.{Channel, LocalNetManager}
use sm.Net.Manager.Notice.{channel_of}
use sm.Net.Sockets.{
  Sockets, next, create_pair, create_tcp_channel, create_req, create_reps, create_rep,
}
use sm.Net.Sockets.Uses.{peer, in_range, is_some, IsNumbered, no_sockets}

pub none-IsNumbered : IsNumbered 0 no_sockets
unfolding find
none-IsNumbered = record {
  paired = refl;
  few = (omega arith, omega arith);
  ends = λ n. ground arith;
  queues = λ n. ground arith;
  network = λ n h. refl;
}

pub next_one : (n : ℕ) → n + 1 < 2 ^ 32 → next n ≡ n + 1
unfolding next
next_one n h = omega arith

next_two : (n : ℕ) → n + 2 < 2 ^ 32 → next (n + 1) ≡ n + 2
unfolding next
next_two n h = omega arith

-- Two numbers more.
paired_ends :
    (i n : ℕ) (pairs : List (ℕ × ℕ))
    → i % 2 ≡ 0
    → find n pairs ≡ (if in_range n i then some (peer n) else none)
    → find n (insert (i + 2) (i + 1) (insert (i + 1) (i + 2) pairs))
      ≡ (if in_range n (i + 2) then some (peer n) else none)
paired_ends i n pairs even h =
    rw
      (
        find-insert (i + 2) n (i + 1) (insert (i + 1) (i + 2) pairs),
        find-insert (i + 1) n (i + 2) pairs,
        h,
      )
      (ground arith)

paired_queues :
    (i n : ℕ) (texts : List (ℕ × List (List ℕ)))
    → is_some (find n texts) ≡ in_range n i
    → is_some (find n (insert (i + 2) [] (insert (i + 1) [] texts))) ≡ in_range n (i + 2)
paired_queues i n texts h =
    rw (find-insert (i + 2) n [] (insert (i + 1) [] texts), find-insert (i + 1) n [] texts)
      (elim (Option-cases (find n texts)) [
        | inl k ↦ rw k (ground (arith, h, k))
        | inr (q, k) ↦ rw k (ground (arith, h, k))
      ])

pub pair-IsNumbered :
    (used : ℕ) (m : Sockets)
    → used + 2 < 2 ^ 32
    → IsNumbered used m
    → IsNumbered (used + 2) (create_pair m).1
unfolding create_pair
pair-IsNumbered used m h v =
    let (le, le') = v.few in
    rw (next_one m.index (omega arith), next_two m.index (omega arith))
      (record {
        paired = let e = v.paired in omega arith;
        few = (omega arith, omega arith);
        ends = λ n. paired_ends m.index n m.channel_pairs v.paired (v.ends n);
        queues = λ n. paired_queues m.index n m.senddata (v.queues n);
        network = v.network;
      })

-- A channel under the next number is a channel of no later one.
later_none :
    (k n : ℕ) (channel : Channel) (channels : List (ℕ × Channel))
    → k < n
    → find n channels ≡ none
    → find n (insert k channel channels) ≡ none
later_none k n channel channels h e = rw (find-insert k n channel channels, e) (ground arith)

pub none_of :
    (a b d : Option Channel) → or_else a (or_else b d) ≡ none → (a ≡ none) × (b ≡ none) × (d ≡ none)
none_of none none none e = (refl, refl, refl)
none_of none none (some x) e = cc
none_of none (some x) d e = cc
none_of (some x) b d e = cc

-- What one more number is, for whatever is done with it.
IsNumbered-more :
    (used : ℕ) (m : Sockets) (manager : LocalNetManager)
    → used + 1 < 2 ^ 32
    → IsNumbered used m
    → ((n : ℕ) → m.sock_no + 1 < n → channel_of m.manager n ≡ none → channel_of manager n ≡ none)
    → IsNumbered (used + 1) (record m { sock_no = next m.sock_no; manager = manager })
IsNumbered-more used m manager h v later =
    let (le, le') = v.few in
    rw (next_one m.sock_no (omega arith)) (record {
      paired = v.paired;
      few = (omega arith, omega arith);
      ends = v.ends;
      queues = v.queues;
      network = λ n k. later n k (v.network n (omega arith));
    })

pub tcp-IsNumbered :
    (used : ℕ) (m : Sockets) (channel : Channel)
    → used + 1 < 2 ^ 32
    → IsNumbered used m
    → IsNumbered (used + 1) (create_tcp_channel channel m).1
unfolding create_tcp_channel
tcp-IsNumbered used m channel h v =
    let (le, le') = v.few in
    IsNumbered-more used m _ h v λ n k e.
      let (a, b, d) =
        none_of (find n m.manager.channels_tcp) (find n m.manager.channels_rep)
          (find n m.manager.channels_req) e in
      rw
        (
          later_none (next m.sock_no) n channel m.manager.channels_tcp
              (rw (next_one m.sock_no (omega arith)) k) a,
          b,
          d,
        )
        refl

pub req-IsNumbered :
    (used : ℕ) (m : Sockets) (channel : Channel)
    → used + 1 < 2 ^ 32
    → IsNumbered used m
    → IsNumbered (used + 1) (create_req channel m).1
unfolding create_req
req-IsNumbered used m channel h v =
    let (le, le') = v.few in
    IsNumbered-more used m _ h v λ n k e.
      let (a, b, d) =
        none_of (find n m.manager.channels_tcp) (find n m.manager.channels_rep)
          (find n m.manager.channels_req) e in
      rw
        (
          a,
          b,
          later_none (next m.sock_no) n channel m.manager.channels_req
              (rw (next_one m.sock_no (omega arith)) k) d,
        )
        refl

pub more-IsNumbered : (used more : ℕ) (m : Sockets) → IsNumbered used m → IsNumbered (used + more) m
more-IsNumbered used more m v =
    let (le, le') = v.few in
    record {
      paired = v.paired;
      few = (omega arith, omega arith);
      ends = v.ends;
      queues = v.queues;
      network = v.network;
    }

rep-IsNumbered :
    (used : ℕ) (m : Sockets) (channel : Channel)
    → used + 1 < 2 ^ 32
    → IsNumbered used m
    → IsNumbered (used + 1) (record m {
      sock_no = next m.sock_no;
      manager = record m.manager {
        channels_rep = insert (next m.sock_no) channel m.manager.channels_rep;
      };
    })
rep-IsNumbered used m channel h v =
    let (le, le') = v.few in
    IsNumbered-more used m _ h v λ n k e.
      let (a, b, d) =
        none_of (find n m.manager.channels_tcp) (find n m.manager.channels_rep)
          (find n m.manager.channels_req) e in
      rw
        (
          a,
          later_none (next m.sock_no) n channel m.manager.channels_rep
              (rw (next_one m.sock_no (omega arith)) k) b,
          d,
        )
        refl

either-IsNumbered :
    (b : Bool) (used : ℕ) (x y : Bool × Sockets)
    → IsNumbered used x.1
    → IsNumbered used y.1
    → IsNumbered used (if b then x else y).1
either-IsNumbered true used x y p q = p
either-IsNumbered false used x y p q = q

reps-IsNumbered :
    (outcomes : List (Bool × Bool × Channel)) (used : ℕ) (m : Sockets)
    → used + length outcomes < 2 ^ 32
    → IsNumbered used m
    → IsNumbered (used + length outcomes) (create_reps outcomes m).1
unfolding create_reps
reps-IsNumbered [] used m h v = more-IsNumbered used 0 m v
reps-IsNumbered ((allocated, opened, channel) ∷ rest) used m h v =
    subst (λ k. IsNumbered k (create_reps ((allocated, opened, channel) ∷ rest) m).1) (omega arith)
      (either-IsNumbered (allocated && opened) (used + 1 + length rest) (create_reps rest _)
        (false, record m { sock_no = next m.sock_no })
        (reps-IsNumbered rest (used + 1) _ (omega arith)
          (rep-IsNumbered used m channel (omega arith) v))
        (more-IsNumbered (used + 1) (length rest) _
          (IsNumbered-more used m m.manager (omega arith) v (λ n k e. e))))

pub rep_all-IsNumbered :
    (opened listening : Bool) (outcomes : List (Bool × Bool × Channel)) (used : ℕ) (m : Sockets)
    → used + length outcomes < 2 ^ 32
    → IsNumbered used m
    → IsNumbered (used + length outcomes) (create_rep opened outcomes listening m).1
unfolding create_rep
rep_all-IsNumbered opened listening outcomes used m h v =
    let made = reps-IsNumbered outcomes used m h v in
    either-IsNumbered opened (used + length outcomes) _ (false, m)
      (either-IsNumbered (create_reps outcomes m).0 (used + length outcomes) (listening, _)
        (false, _) made made)
      (more-IsNumbered used (length outcomes) m v)
