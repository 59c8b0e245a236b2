-- ===== src/Net/Tcp/Stale.antt =====
-- `len` of `recvPack` after a read that threw: it is that of the read before.
use sm.Base.{
  ℕ, suc, ◌+◌, ◌^◌, ◌≤◌, ◌<◌, ◌≡◌, refl, sym, ap, ◌∙◌, some, List, [], ◌∷◌, ◌++◌, arith, lt→ltb,
  length, take, drop, length-append, take-append,
}
use sm.Net.Frame.RoundTrip.{frame_head}
use sm.Net.Tcp.{Read, got, read_threw, Reading, append_read, fill, received, recv_pack}
use sm.Net.Tcp.Recv.{
  fill_enough, fill_reads, fill_threw, frame_len_eq, recv_body_found, recv_pack_head, unpack_head,
}

take-append_more : (n : ℕ) (xs ys : List ℕ) → take (length xs + n) (xs ++ ys) ≡ xs ++ take n ys
take-append_more n [] ys = ap (λ k. take k ys) (omega arith)
take-append_more n (x ∷ xs) ys =
    let e : suc (length xs) + n ≡ suc (length xs + n) = omega arith in
    rw e (ap (◌∷◌ x) (take-append_more n xs ys))

-- What stands in the array is appended again.
appended :
    (recv c tail : List ℕ)
    → 0 < length c
    → append_read (record { recv = recv; recvasio = c ++ tail; len = length c })
      ≡ record { recv = recv ++ c; recvasio = c ++ tail; len = length c }
appended recv c tail h = rw (lt→ltb 0 (length c) h, take-append c tail)

-- A first read brings the head of a message and a part of its body, and the second read fails:
-- what the first read brought is appended once more, and if that is enough for the length in the
-- head, `recvPack` gives a message that was never sent: the part, and behind it the head and the
-- part again.
recv_pack_stale :
    (msgno len : ℕ) (part recvasio : List ℕ) (events : List Read)
    → msgno < 2 ^ 32
    → len + 8 < 2 ^ 31
    → length part < len
    → len ≤ length part + 8 + length part
    → let chunk = frame_head msgno len ++ part in
      (r' : Reading) × (recv_pack [] recvasio (got chunk ∷ read_threw ∷ events)
        ≡ some (received msgno (take len (part ++ chunk)), r', events))
recv_pack_stale msgno len part recvasio events hn fits few enough =
    let chunk = frame_head msgno len ++ part in
    let long : length chunk ≡ 8 + length part = omega arith in
    let array : List ℕ = chunk ++ drop (length chunk) recvasio in
    let start : Reading = record { recv = []; recvasio = recvasio; len = 0 } in
    let once : Reading = record { recv = chunk; recvasio = array; len = length chunk } in
    let twice : Reading = record { recv = chunk ++ chunk; recvasio = array; len = length chunk } in
    let first : fill 8 0 start (got chunk ∷ read_threw ∷ events)
        ≡ some (once, read_threw ∷ events) =
      fill_reads 8 start chunk (read_threw ∷ events) (omega arith) (omega arith)
      ∙ ap (λ r. fill 8 0 r (read_threw ∷ events))
          (appended [] chunk (drop (length chunk) recvasio) (omega arith))
      ∙ fill_enough 8 0 once (read_threw ∷ events) (omega arith) in
    let second : fill (8 + len) 0 once (read_threw ∷ events) ≡ some (twice, events) =
      fill_threw (8 + len) once events (omega arith) (omega arith)
      ∙ ap (λ r. fill (8 + len) 0 r events)
          (appended chunk chunk (drop (length chunk) recvasio) (omega arith))
      ∙ fill_enough (8 + len) 0 twice events (omega (arith, length-append chunk chunk)) in
    (
      record twice { recv = drop (8 + len) twice.recv },
      recv_pack_head [] recvasio (record { len = len; msgno = msgno }) once
            (got chunk ∷ read_threw ∷ events) (read_threw ∷ events) first (omega arith)
            (unpack_head msgno len chunk hn (omega arith) refl)
          ∙ recv_body_found (record { len = len; msgno = msgno }) once twice (read_threw ∷ events)
              events (8 + len) (sym (frame_len_eq len fits)) second (omega arith)
              (omega (arith, length-append chunk chunk))
          ∙ ap
              (λ m. some (
                received msgno (drop 8 m),
                record twice { recv = drop (8 + len) twice.recv },
                events,
              ))
              (take-append_more len (frame_head msgno len) (part ++ chunk)),
    )
