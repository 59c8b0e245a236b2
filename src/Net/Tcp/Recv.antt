-- ===== src/Net/Tcp/Recv.antt =====
-- What `recvPack` makes of the reads of its socket.
use sm.Base.{
  same_prefix, ℕ, ◌+◌, ◌^◌, ◌≤◌, ◌<◌, ◌≡◌, refl, sym, ap, ◌∙◌, true, some, List, [], ◌∷◌, ◌++◌,
  append_assoc, map, arith, lt→ltb, le→ltb, le→leb, length, take, drop, length-append, take-append,
  take-append_drop, All, dec_le,
}
use sm.Utils.Packet.{to_u32}
use sm.Net.Frame.{StreamNetDealer, head_len, pack, unpack}
use sm.Net.Frame.RoundTrip.{frame_head, unpack-pack}
use sm.Net.Tcp.{
  Read, got, read_threw, Reading, read_some, append_read, fill, frame_len, received, recv_body,
  no_dealer, recv_pack,
}

abbrev pub joined : List (List ℕ) → List ℕ
joined [] = []
joined (c ∷ chunks) = c ++ joined chunks

pub frame_len_eq : (len : ℕ) → len + 8 < 2 ^ 31 → frame_len len ≡ head_len + len
unfolding frame_len
frame_len_eq len h = ground arith

pub fill_enough :
    (need i : ℕ) (r : Reading) (events : List Read)
    → need ≤ length r.recv
    → fill need i r events ≡ some (r, events)
unfolding fill
fill_enough need i r [] h = ground arith
fill_enough need i r (e ∷ events) h = ground arith

-- What a read of `c` leaves.
abbrev pub grown : Reading → List ℕ → Reading
grown r c = append_read (read_some (got c) r)

pub grown_recv : (r : Reading) (c : List ℕ) → 0 < length c → (grown r c).recv ≡ r.recv ++ c
grown_recv r c h =
    rw (lt→ltb 0 (length c) h) (ap (◌++◌ r.recv) (take-append c (drop (length c) r.recvasio)))

pub fill_reads :
    (need : ℕ) (r : Reading) (c : List ℕ) (events : List Read)
    → length r.recv < need
    → 0 < length c
    → fill need 0 r (got c ∷ events) ≡ fill need 0 (grown r c) events
unfolding fill
fill_reads need r c events h hc = rw (lt→ltb (length r.recv) need h, lt→ltb 0 (length c) hc, fill)

pub fill_threw :
    (need : ℕ) (r : Reading) (events : List Read)
    → length r.recv < need
    → 0 < r.len
    → fill need 0 r (read_threw ∷ events) ≡ fill need 0 (append_read r) events
unfolding fill
fill_threw need r events h hc = rw (lt→ltb (length r.recv) need h, lt→ltb 0 r.len hc, fill)

-- Non-empty reads that bring enough bytes are appended until there are enough.
fill-got :
    (need : ℕ) (r : Reading) (chunks : List (List ℕ))
    → All (λ c. 0 < length c) chunks
    → need ≤ length (r.recv ++ joined chunks)
    → (r' : Reading) × (rest : List (List ℕ)) × (fill need 0 r (map got chunks)
        ≡ some (r', map got rest))
      × (r'.recv ++ joined rest ≡ r.recv ++ joined chunks)
      × (need ≤ length r'.recv)
      × All (λ c. 0 < length c) rest
fill-got need r [] full h =
    let enough : need ≤ length r.recv = omega (arith, length-append r.recv [], h) in
    (r, [], fill_enough need 0 r [] enough, refl, enough, tt)
fill-got need r (c ∷ chunks) (hc, full) h = elim (dec_le need (length r.recv)) [
  | yes enough ↦
      (r, c ∷ chunks, fill_enough need 0 r (map got (c ∷ chunks)) enough, refl, enough, (hc, full))
  | no few ↦
      let same : (grown r c).recv ++ joined chunks ≡ r.recv ++ joined (c ∷ chunks) =
        rw (grown_recv r c hc) (append_assoc r.recv c (joined chunks)) in
      let (r', rest, e, kept, enough, full') = fill-got need (grown r c) chunks full (rw same h) in
      (
        r',
        rest,
        fill_reads need r c (map got chunks) (omega arith) hc ∙ e,
        kept ∙ same,
        enough,
        full',
      )
]

pub recv_body_found :
    (d : StreamNetDealer) (r r' : Reading) (events events' : List Read) (n : ℕ)
    → n ≡ frame_len d.len
    → fill n 0 r events ≡ some (r', events')
    → 8 ≤ n
    → n ≤ length r'.recv
    → recv_body d r events
      ≡ some
          (received d.msgno (drop 8 (take n r'.recv)), record r' { recv = drop n r'.recv }, events')
unfolding recv_body
recv_body_found d r r' events events' n en e short enough =
    rw (← en, e, ← en, le→leb n (length r'.recv) enough, le→ltb n 8 short, recv_body)

pub recv_pack_head :
    (recv recvasio : List ℕ) (d : StreamNetDealer) (r : Reading) (events events' : List Read)
    → fill 8 0 (record { recv = recv; recvasio = recvasio; len = 0 }) events ≡ some (r, events')
    → 8 ≤ length r.recv
    → unpack no_dealer r.recv ≡ (true, d)
    → recv_pack recv recvasio events ≡ recv_body d r events'
unfolding recv_pack
recv_pack_head recv recvasio d r events events' e enough u =
    rw (e, u, le→leb 8 (length r.recv) enough, recv_pack)

pub unpack_head :
    (msgno len : ℕ) (src : List ℕ)
    → msgno < 2 ^ 32
    → len < 2 ^ 32
    → take 8 src ≡ frame_head msgno len
    → unpack no_dealer src ≡ (true, record { len = len; msgno = msgno })
unfolding pack
unpack_head msgno len src hn hl e =
    let same : src ≡ frame_head msgno len ++ drop 8 src =
      sym (take-append_drop 8 src) ∙ ap (λ h. h ++ drop 8 src) e in
    let small : to_u32 len ≡ len = omega arith in
    ap (unpack no_dealer) same
    ∙ unpack-pack no_dealer no_dealer msgno len (drop 8 src) hn hl
    ∙ ap (λ n. (true, record { len = n; msgno = msgno })) small

-- With the head read, the rest of the frame.
recv_body-frame :
    (msgno : ℕ) (msg later : List ℕ) (r : Reading) (chunks : List (List ℕ))
    → length msg + 8 < 2 ^ 31
    → All (λ c. 0 < length c) chunks
    → r.recv ++ joined chunks ≡ (frame_head msgno (length msg) ++ msg) ++ later
    → (r' : Reading) × (rest : List (List ℕ)) × (recv_body
          (record { len = length msg; msgno = msgno })
          r
          (map got chunks)
        ≡ some (received msgno msg, r', map got rest))
      × (r'.recv ++ joined rest ≡ later)
      × All (λ c. 0 < length c) rest
recv_body-frame msgno msg later r chunks fits full e =
    let long : length (frame_head msgno (length msg) ++ msg) ≡ 8 + length msg = omega arith in
    let (r', rest, filled, kept, enough, full') =
      fill-got (8 + length msg) r chunks full
        (rw e (omega (arith, length-append (frame_head msgno (length msg) ++ msg) later))) in
    let (cut, left) =
      same_prefix (8 + length msg) r'.recv (joined rest) (frame_head msgno (length msg) ++ msg)
        later (kept ∙ e) long enough in
    (
      record r' { recv = drop (8 + length msg) r'.recv },
      rest,
      recv_body_found (record { len = length msg; msgno = msgno }) r r' (map got chunks)
            (map got rest) (8 + length msg) (sym (frame_len_eq (length msg) fits)) filled
            (omega arith) enough
          ∙ rw cut,
      left,
      full',
    )

-- However the bytes of a stream are cut into reads, `recvPack` gives the next message of the stream
-- with its number, whether its bytes were there already or come in reads, and leaves the bytes
-- behind the message for the next call. Every read brings some bytes; a message and its head are
-- shorter than 2 ^ 31.
pub recv_pack-frame :
    (msgno : ℕ) (msg later recv recvasio : List ℕ) (chunks : List (List ℕ))
    → msgno < 2 ^ 32
    → length msg + 8 < 2 ^ 31
    → All (λ c. 0 < length c) chunks
    → recv ++ joined chunks ≡ ((pack no_dealer msgno (length msg)).1 ++ msg) ++ later
    → (r' : Reading) × (rest : List (List ℕ)) × (recv_pack recv recvasio (map got chunks)
        ≡ some (received msgno msg, r', map got rest))
      × (r'.recv ++ joined rest ≡ later)
      × All (λ c. 0 < length c) rest
unfolding pack
recv_pack-frame msgno msg later recv recvasio chunks hn fits full e =
    let start : Reading = record { recv = recv; recvasio = recvasio; len = 0 } in
    let (r, rest, filled, kept, enough, full') =
      fill-got 8 start chunks full (rw e (omega arith)) in
    let (r', rest', done, left, full'') =
      recv_body-frame msgno msg later r rest fits full' (kept ∙ e) in
    (
      r',
      rest',
      recv_pack_head recv recvasio (record { len = length msg; msgno = msgno }) r (map got chunks)
            (map got rest) filled enough
            (unpack_head msgno (length msg) r.recv hn (omega arith)
              (same_prefix 8 r.recv (joined rest) (frame_head msgno (length msg)) (msg ++ later)
                (kept ∙ e) refl enough).0)
          ∙ done,
      left,
      full'',
    )
