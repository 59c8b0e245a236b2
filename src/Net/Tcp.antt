-- ===== src/Net/Tcp.antt =====
-- networkinterface/socket/TcpChannelImpl.cpp: platform messages over a TCP socket. The socket is the
-- list of what its reads and writes end in; a list that ends is a socket that is still waited for.
pub mod Recv
pub mod Send
pub mod Stale
use sm.Base.{
  ℕ, zero, suc, ◌+◌, ◌-◌, ◌*◌, ◌/◌, ◌%◌, ◌^◌, ◌≤◌, ◌<◌, ◌≡◌, refl, sym, ap, ap₂, ◌∙◌, fun_ext, ◌≢◌,
  ◌↔◌, ◌⊎◌, inl, inr, Bool, true, false, not, ◌&&◌, ◌||◌, Option, none, some, List, [], ◌∷◌, ◌++◌,
  append-nil, append_assoc, map, arith, ltb, leb, ◌==◌, if◌then◌else◌, ltb→lt, lt→ltb, le→ltb,
  ==→eq, ==_refl, tests, Bool-cases, Option-cases, length, take, drop, length-append, take-append,
  drop-append, drop-append_cons, take-append_at, drop-append_at, take-append_drop, take_of_length,
  drop_of_length, length-drop, length-take, take-append_le, drop-append_le, All, Bytes, dec_lt,
  dec_le, ℕ_discrete,
}
use sm.Net.Frame.{StreamNetDealer, head_len, pack, unpack}

-- `async_read_some`: bytes of at most the array's length, none at the least, or an exception.
pub data Read : Type 0 where
  got : List ℕ → Read
  read_threw : Read

-- `async_send`: how many of the given bytes were sent, or an exception.
pub data Write : Type 0 where
  sent : ℕ → Write
  write_threw : Write

abbrev pub retry_count : ℕ
retry_count = 2

-- `_bRecv`, the array `_recvasio`, and the local `len` of `recvPack`.
pub record Reading : Type 0 where
  pub recv : List ℕ
  pub recvasio : List ℕ
  pub len : ℕ

-- One read: an exception leaves `len` and the array as they were.
abbrev pub read_some : Read → Reading → Reading
read_some (got bytes) r = record r {
  recvasio = bytes ++ drop (length bytes) r.recvasio;
  len = length bytes;
}
read_some read_threw r = r

abbrev pub append_read : Reading → Reading
append_read r = if ltb 0 r.len then record r { recv = r.recv ++ take r.len r.recvasio } else r

-- `while (++tryIndex < tryCount && _bRecv->length() < need)`
unfoldable pub fill : ℕ → ℕ → Reading → List Read → Option (Reading × List Read)
fill need try_index r [] =
    if ltb (suc try_index) retry_count && ltb (length r.recv) need then none else some (r, [])
fill need try_index r (event ∷ events) =
    let r' = read_some event r in
    let rest = fill need (if ltb 0 r'.len then 0 else suc try_index) (append_read r') events in
    if ltb (suc try_index) retry_count && ltb (length r.recv) need
    then rest
    else some (r, event ∷ events)

-- `HeadLen() + Len()` in `int`, compared with a `size_t`.
unfoldable pub frame_len : ℕ → ℕ
frame_len len =
    let sum = (head_len + len) % 2 ^ 32 in if ltb sum (2 ^ 31) then sum else sum + (2 ^ 64 - 2 ^ 32)

-- What `recvPack` ends in; without a head, the number that it returns is indeterminate. A frame that is shorter than its head makes a string of negative length.
pub data Received : Type 0 where
  received : ℕ → List ℕ → Received
  no_message : Option ℕ → Received
  recv_threw : Received

-- The end of `recvPack`, from the second loop on, with a head that was read.
unfoldable pub recv_body :
    StreamNetDealer → Reading → List Read → Option (Received × Reading × List Read)
recv_body d r events = elim (fill (frame_len d.len) 0 r events) [
  | none ↦ none
  | some (r', events') ↦
      if leb (frame_len d.len) (length r'.recv)
      then (if ltb (frame_len d.len) head_len
          then some (recv_threw, record r' { recv = drop (frame_len d.len) r'.recv }, events')
          else some (
            received d.msgno (drop head_len (take (frame_len d.len) r'.recv)),
            record r' { recv = drop (frame_len d.len) r'.recv },
            events',
          ))
      else some (no_message (some d.msgno), r', events')
]

abbrev pub no_dealer : StreamNetDealer
no_dealer = record { len = 0; msgno = 0 }

-- `recvPack`
unfoldable pub recv_pack : List ℕ → List ℕ → List Read → Option (Received × Reading × List Read)
recv_pack recv recvasio events =
    elim (fill head_len 0 (record { recv = recv; recvasio = recvasio; len = 0 }) events) [
      | none ↦ none
      | some (r, events') ↦
          let (ok, d) = unpack no_dealer r.recv in
          if leb head_len (length r.recv) && ok
          then recv_body d r events'
          else some (no_message none, r, events')
    ]

-- What is on the wire, `hadsend`, and the local `len` of `sendPack`.
pub record Sending : Type 0 where
  pub wire : List ℕ
  pub hadsend : ℕ
  pub len : ℕ

-- One write of what is left of `src`.
abbrev pub write_some : List ℕ → Write → Sending → Sending
write_some src (sent n) s =
    let s' : Sending = record s { wire = s.wire ++ take n (drop s.hadsend src); len = n } in
    record s' { hadsend = s.hadsend + n }
write_some src write_threw s = record s { hadsend = s.hadsend + s.len }

-- `while (++tryIndex < tryCount && hadsend < src.length())`
unfoldable pub send_loop : List ℕ → ℕ → Sending → List Write → Option (Sending × List Write)
send_loop src try_index s [] =
    if ltb (suc try_index) retry_count && ltb s.hadsend (length src) then none else some (s, [])
send_loop src try_index s (event ∷ events) =
    let rest = send_loop src (suc try_index) (write_some src event s) events in
    if ltb (suc try_index) retry_count && ltb s.hadsend (length src)
    then rest
    else some (s, event ∷ events)

-- `sendPack`: whether it succeeded, and what it wrote.
unfoldable pub send_pack : List ℕ → ℕ → List Write → Option (Bool × List ℕ)
send_pack src msgno events =
    elim (send_loop (pack no_dealer msgno (length src)).1 0
      (record { wire = []; hadsend = 0; len = 0 }) events) [
        | none ↦ none
        | some (s, events') ↦
            if s.hadsend == head_len
            then elim (send_loop src 0 (record s { hadsend = 0 }) events') [
              | none ↦ none
              | some (s', events'') ↦ some (s'.hadsend == length src, s'.wire)
            ]
            else some (false, s.wire)
      ]
