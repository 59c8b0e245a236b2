-- ===== src/Net/Stream/Reassembly.antt =====
-- What `recvPack` makes of the bytes that `sendPack` sent, however they are cut into reads.
use sm.Base.{
  ℕ, suc, ◌+◌, ◌^◌, ◌≤◌, ◌<◌, ◌≡◌, refl, sym, ap, ◌∙◌, ◌⊎◌, inl, inr, Bool, true, false, Option,
  some, List, [], ◌∷◌, ◌++◌, append_assoc, map, arith, ltb, if◌then◌else◌, lt→ltb, length, drop,
  length-append, take-append_drop, All, dec_lt, dec_le,
}
use sm.Base.{same_prefix, le→leb, lt→leb}
use sm.Utils.Endian.{be32, packuint32, unpackuint32}
use sm.Utils.Endian.RoundTrip.{unpackuint32-be32}
use sm.Utils.Packet.{to_u32}
use sm.Net.Tcp.{Read, got}
use sm.Net.Tcp.Recv.{joined}
use sm.Net.Stream.{
  fix_pack_len_place_holder, StreamHandler, read_stream, is_empty, read_head, split_known, split,
  recv_loop, recv_stream, packnethead, send_buffer,
}

is_empty_full : (xs : List ℕ) → 0 < length xs → is_empty xs ≡ false
is_empty_full [] h = absurd (omega arith)
is_empty_full (x ∷ xs) h = refl

unpackuint32_short :
    (src : List ℕ) (old : ℕ) → length src < 4 → unpackuint32 src old ≡ (false, src, old)
unfolding unpackuint32
unpackuint32_short (a ∷ b ∷ c ∷ d ∷ rest) old h = absurd (omega arith)
unpackuint32_short _ old h = refl

read_head_first :
    (s : StreamHandler) (ok : Bool) (rest : List ℕ) (n : ℕ)
    → s.curpacklen ≡ 0
    → 0 < length s.recvbuf
    → unpackuint32 s.recvbuf 0 ≡ (ok, rest, n)
    → read_head s ≡ record { recvbuf = rest; recvmsg = []; curpacklen = n }
unfolding read_head
read_head_first s ok rest n zero_len full e =
    rw (zero_len, is_empty_full s.recvbuf full, e, read_head)

read_head_known : (s : StreamHandler) → 0 < s.curpacklen → read_head s ≡ s
unfolding read_head
read_head_known s h = ground arith

module _ (msg later : List ℕ) (some_msg : 0 < length msg) (fits : length msg < 2 ^ 32) where
  -- What is still to come of the message, before and behind its length.
  data Pending (s : StreamHandler) (chunks : List (List ℕ)) : Type 0 where
    at_head :
        s.curpacklen ≡ 0
        → s.recvbuf ++ joined chunks ≡ be32 (length msg) ++ (msg ++ later)
        → Pending s chunks
    at_body :
        s.curpacklen ≡ length msg → s.recvbuf ++ joined chunks ≡ msg ++ later → Pending s chunks

  -- Bytes that do not hold the rest of the message.
  Short : StreamHandler → Type 0
  Short s =
      ((s.curpacklen ≡ 0) × (length s.recvbuf < 4))
      ⊎ ((s.curpacklen ≡ length msg) × (length s.recvbuf < length msg))

  -- One `switch` either cuts the message out or waits for more of it.
  Outcome : StreamHandler → List (List ℕ) → Bool × StreamHandler → Type 0
  Outcome s chunks (true, s') = (s'.recvmsg ≡ msg) × (s'.recvbuf ++ joined chunks ≡ later)
  Outcome s chunks (false, s') = Pending s' chunks × Short s'

  body-Outcome :
      (s : StreamHandler) (chunks : List (List ℕ))
      → s.curpacklen ≡ length msg
      → s.recvbuf ++ joined chunks ≡ msg ++ later
      → Outcome s chunks (split_known s)
  unfolding split_known Outcome Short
  body-Outcome s chunks known e = elim (dec_le (length msg) (length s.recvbuf)) [
    | yes enough ↦
        let (cut, left) =
          same_prefix (length msg) s.recvbuf (joined chunks) msg later e refl enough in
        rw
          (
            known,
            lt→ltb 0 (length msg) some_msg,
            le→leb (length msg) (length s.recvbuf) enough,
            split_known,
            Outcome,
          )
          (cut, left)
    | no few ↦
        rw
          (
            known,
            lt→ltb 0 (length msg) some_msg,
            lt→leb (length msg) (length s.recvbuf) (omega arith),
            split_known,
            Outcome,
          )
          (at_body refl e, inr (refl, omega arith))
  ]

  head-Outcome :
      (s : StreamHandler) (chunks : List (List ℕ))
      → s.curpacklen ≡ 0
      → 0 < length s.recvbuf
      → s.recvbuf ++ joined chunks ≡ be32 (length msg) ++ (msg ++ later)
      → Outcome s chunks (split_known (read_head s))
  unfolding split_known Outcome Short
  head-Outcome s chunks zero_len full e = elim (dec_lt (length s.recvbuf) 4) [
    | yes few ↦
        rw (read_head_first s false s.recvbuf 0 zero_len full (unpackuint32_short s.recvbuf 0 few))
          (at_head refl e, inl (refl, few))
    | no enough ↦
        let (cut, left) =
          same_prefix 4 s.recvbuf (joined chunks) (be32 (length msg)) (msg ++ later) e refl
            (omega arith) in
        let parts : s.recvbuf ≡ be32 (length msg) ++ drop 4 s.recvbuf =
          sym (take-append_drop 4 s.recvbuf) ∙ ap (λ h. h ++ drop 4 s.recvbuf) cut in
        let read : unpackuint32 s.recvbuf 0 ≡ (true, drop 4 s.recvbuf, length msg) =
          ap (λ b. unpackuint32 b 0) parts
          ∙ unpackuint32-be32 (length msg) 0 (drop 4 s.recvbuf) fits in
        rw (read_head_first s true (drop 4 s.recvbuf) (length msg) zero_len full read) (
          body-Outcome
            (record { recvbuf = drop 4 s.recvbuf; recvmsg = []; curpacklen = length msg }) chunks
            refl left)
  ]

  split-Outcome :
      (s : StreamHandler) (chunks : List (List ℕ))
      → 0 < length s.recvbuf
      → Pending s chunks
      → Outcome s chunks (split fix_pack_len_place_holder s)
  unfolding split
  split-Outcome s chunks full (at_head zero_len e) = head-Outcome s chunks zero_len full e
  split-Outcome s chunks full (at_body known e) =
      rw (read_head_known s (rw known some_msg)) (body-Outcome s chunks known e)

  -- With all bytes there, nothing is waited for.
  complete : (s : StreamHandler) → Pending s [] → Short s → ⊥
  unfolding Short
  complete s (at_head z e) (inl (k, h)) = omega (
    arith,
    ap length e,
    length-append s.recvbuf [],
    length-append (be32 (length msg)) (msg ++ later),
  )
  complete s (at_head z e) (inr (k, h)) = omega arith
  complete s (at_body z e) (inl (k, h)) = omega arith
  complete s (at_body z e) (inr (k, h)) =
      omega (arith, ap length e, length-append s.recvbuf [], length-append msg later)

  -- The loop after the message was cut out.
  loop_done :
      (retry i : ℕ) (s : StreamHandler) (events : List Read)
      → recv_loop fix_pack_len_place_holder retry i true s events ≡ some (true, s, events)
  unfolding recv_loop
  loop_done retry i s [] = refl
  loop_done retry i s (e ∷ events) = refl

  grown : StreamHandler → List ℕ → StreamHandler
  grown s c = read_stream (got c) s

  loop_step :
      (retry i : ℕ) (s s' : StreamHandler) (c : List ℕ) (events : List Read) (ok : Bool)
      → i < retry
      → 0 < length (grown s c).recvbuf
      → split fix_pack_len_place_holder (grown s c) ≡ (ok, s')
      → recv_loop fix_pack_len_place_holder retry i false s (got c ∷ events)
        ≡ recv_loop fix_pack_len_place_holder retry (suc i) ok s' events
  unfolding recv_loop grown
  loop_step retry i s s' c events ok more full e =
      rw (lt→ltb i retry more, is_empty_full (s.recvbuf ++ c) full, e, recv_loop)

  Found : Option (Bool × StreamHandler × List Read) → Type 0
  Found o =
      (s' : StreamHandler) × (rest : List (List ℕ)) × (o ≡ some (true, s', map got rest))
      × (s'.recvmsg ≡ msg)
      × (s'.recvbuf ++ joined rest ≡ later)

  read-Pending :
      (s : StreamHandler) (c : List ℕ) (chunks : List (List ℕ))
      → Pending s (c ∷ chunks)
      → Pending (grown s c) chunks
  unfolding grown
  read-Pending s c chunks (at_head z e) = at_head z (append_assoc s.recvbuf c (joined chunks) ∙ e)
  read-Pending s c chunks (at_body k e) = at_body k (append_assoc s.recvbuf c (joined chunks) ∙ e)

  grown_full : (s : StreamHandler) (c : List ℕ) → 0 < length c → 0 < length (grown s c).recvbuf
  unfolding grown
  grown_full s c h = omega (arith, length-append s.recvbuf c)

  -- One more read ends the loop, or leaves a shorter wait to `again`.
  after_read :
      (retry i : ℕ) (s : StreamHandler) (c : List ℕ) (chunks : List (List ℕ))
      (p : Bool × StreamHandler)
      → 0 < length c
      → i < retry
      → split fix_pack_len_place_holder (grown s c) ≡ p
      → Outcome (grown s c) chunks p
      → ((s' : StreamHandler)
          → Pending s' chunks
          → Short s'
          → Found (recv_loop fix_pack_len_place_holder retry (suc i) false s' (map got chunks)))
      → Found (recv_loop fix_pack_len_place_holder retry i false s (got c ∷ map got chunks))
  unfolding Outcome Found
  after_read retry i s c chunks (true, s') full more e (cut, left) again = (
    s',
    chunks,
    loop_step retry i s s' c (map got chunks) true more (grown_full s c full) e
        ∙ loop_done retry (suc i) s' (map got chunks),
    cut,
    left,
  )
  after_read retry i s c chunks (false, s') full more e (pending, short) again =
      let (s'', rest, done, cut, left) = again s' pending short in
      (
        s'',
        rest,
        loop_step retry i s s' c (map got chunks) false more (grown_full s c full) e ∙ done,
        cut,
        left,
      )

  loop_finds :
      (retry i : ℕ) (s : StreamHandler) (c : List ℕ) (chunks : List (List ℕ))
      → All (λ c. 0 < length c) (c ∷ chunks)
      → i + length (c ∷ chunks) ≤ retry
      → Pending s (c ∷ chunks)
      → Found (recv_loop fix_pack_len_place_holder retry i false s (got c ∷ map got chunks))
  loop_finds retry i s c [] (hc, full) enough pending =
      after_read retry i s c [] (split fix_pack_len_place_holder (grown s c)) hc (omega arith) refl
        (split-Outcome (grown s c) [] (grown_full s c hc) (read-Pending s c [] pending))
        (λ s' p short. absurd (complete s' p short))
  loop_finds retry i s c (d ∷ chunks) (hc, full) enough pending =
      after_read retry i s c (d ∷ chunks) (split fix_pack_len_place_holder (grown s c)) hc
        (omega arith) refl
        (split-Outcome (grown s c) (d ∷ chunks) (grown_full s c hc)
          (read-Pending s c (d ∷ chunks) pending))
        (λ s' p short. loop_finds retry (suc i) s' d chunks full (omega arith) p)

send_buffer_head :
    (msg later : List ℕ)
    → length msg < 2 ^ 32
    → send_buffer fix_pack_len_place_holder msg ++ later ≡ be32 (length msg) ++ (msg ++ later)
unfolding send_buffer packnethead packuint32
send_buffer_head msg later fits =
    let small : to_u32 (length msg) ≡ length msg = omega arith in
    ap (λ n. be32 n ++ (msg ++ later)) small

-- A message that `sendPack` sent behind its length is given by `recvPack`, with what follows it left
-- for later, whatever the cut of the stream into reads, a part of the bytes that an earlier call
-- left in the buffer included: if the reads are at least one, bring some bytes each, are no more
-- than the tries and than 100, and bring the whole message. The message is not empty.
pub recv_stream-send_buffer :
    (msg later c : List ℕ) (chunks : List (List ℕ)) (retrycount : ℕ) (s : StreamHandler)
    → 0 < length msg
    → length msg < 2 ^ 32
    → All (λ c. 0 < length c) (c ∷ chunks)
    → length (c ∷ chunks) ≤ retrycount
    → length (c ∷ chunks) ≤ 100
    → s.recvbuf ++ joined (c ∷ chunks) ≡ send_buffer fix_pack_len_place_holder msg ++ later
    → (s' : StreamHandler) × (rest : List (List ℕ)) × (recv_stream fix_pack_len_place_holder
          retrycount s
          (map got (c ∷ chunks))
        ≡ some (true, s', map got rest))
      × (s'.recvmsg ≡ msg)
      × (s'.recvbuf ++ joined rest ≡ later)
unfolding Found recv_stream
recv_stream-send_buffer msg later c chunks retrycount s some_msg fits full tries few e =
    loop_finds msg later some_msg fits (if ltb 100 retrycount then 100 else retrycount) 0
      (record s { curpacklen = 0 }) c chunks full (ground arith)
      (at_head refl (e ∙ send_buffer_head msg later fits))
