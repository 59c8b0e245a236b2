-- ===== src/Net/Tcp/Send.antt =====
-- When `sendPack` reports success.
use sm.Base.{
  ℕ, ◌<◌, ◌≡◌, refl, ap, ◌∙◌, ◌≢◌, false, some, List, [], ◌∷◌, ◌++◌, arith, ◌==◌, lt→ltb, length,
  take,
}
use sm.Net.Frame.{pack}
use sm.Net.Tcp.{Write, sent, write_threw, Sending, write_some, send_loop, send_pack, no_dealer}

-- Of two tries, the loop makes one.
send_loop_once :
    (src : List ℕ) (s : Sending) (event : Write) (events : List Write)
    → s.hadsend < length src
    → send_loop src 0 s (event ∷ events) ≡ some (write_some src event s, events)
unfolding send_loop
send_loop_once src s event [] h = rw (lt→ltb s.hadsend (length src) h, send_loop)
send_loop_once src s event (e ∷ events) h = rw (lt→ltb s.hadsend (length src) h, send_loop)

head_long : (msgno len : ℕ) → 0 < length (pack no_dealer msgno len).1
unfolding pack
head_long msgno len = omega arith

head_whole : (msgno len : ℕ) → take 8 (pack no_dealer msgno len).1 ≡ (pack no_dealer msgno len).1
unfolding pack
head_whole msgno len = refl

abbrev start : Sending
start = record { wire = []; hadsend = 0; len = 0 }

head_fails :
    (src : List ℕ) (msgno : ℕ) (event : Write) (events : List Write)
    → let s = write_some (pack no_dealer msgno (length src)).1 event start in
      (s.hadsend == 8) ≡ false → send_pack src msgno (event ∷ events) ≡ some (false, s.wire)
unfolding send_pack
head_fails src msgno event events h = rw (
  send_loop_once (pack no_dealer msgno (length src)).1 start event events
      (head_long msgno (length src)),
  h,
  send_pack,
)

head_succeeds :
    (b : ℕ) (rest : List ℕ) (msgno : ℕ) (event : Write) (events : List Write)
    → let src = b ∷ rest in
      let head = (pack no_dealer msgno (length src)).1 in
      let s = write_some src event (record { wire = head; hadsend = 0; len = 8 }) in
      send_pack src msgno (sent 8 ∷ event ∷ events) ≡ some (s.hadsend == length src, s.wire)
unfolding send_pack
head_succeeds b rest msgno event events =
    let src = b ∷ rest in
    let head = (pack no_dealer msgno (length src)).1 in
    rw (
      send_loop_once head start (sent 8) (event ∷ events) (head_long msgno (length src)),
      head_whole msgno (length src),
      send_loop_once src (record { wire = head; hadsend = 0; len = 8 }) event events (omega arith),
      send_pack,
    )

-- `sendPack` makes one write for the head and one for a body that is not empty. A head that is not
-- written whole is a failure, and so is a body, but for the write that throws: it counts as many
-- bytes as the write of the head before, so that a body of eight bytes is reported as sent though
-- none of it is.
pub send_pack_outcome :
    (b : ℕ) (rest : List ℕ) (msgno n : ℕ) (events : List Write)
    → let src = b ∷ rest in
      let head = (pack no_dealer msgno (length src)).1 in
      (n ≢ 8 → send_pack src msgno (sent n ∷ events) ≡ some (false, take n head))
      × (send_pack src msgno (write_threw ∷ events) ≡ some (false, []))
      × (send_pack src msgno (sent 8 ∷ sent n ∷ events)
          ≡ some (n == length src, head ++ take n src))
      × (send_pack src msgno (sent 8 ∷ write_threw ∷ events) ≡ some (8 == length src, head))
send_pack_outcome b rest msgno n events = (
  (λ h. head_fails (b ∷ rest) msgno (sent n) events (ground arith)),
  head_fails (b ∷ rest) msgno write_threw events refl,
  head_succeeds b rest msgno (sent n) events
      ∙ ap
          (λ k. some (
            k == length (b ∷ rest),
            (pack no_dealer msgno (length (b ∷ rest))).1 ++ take n (b ∷ rest),
          ))
          (omega arith),
  head_succeeds b rest msgno write_threw events,
)
