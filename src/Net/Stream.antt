-- ===== src/Net/Stream.antt =====
-- networkinterface/socket/TcpStreamHandler.cpp: messages over a TCP socket behind their length, of
-- a length that both sides know, or of whatever a read brings.
pub mod Reassembly
pub mod Resets
use sm.Base.{
  ℕ, zero, suc, ◌+◌, ◌-◌, ◌*◌, ◌/◌, ◌%◌, ◌^◌, ◌≤◌, ◌<◌, ◌≡◌, refl, sym, ap, ap₂, ◌∙◌, fun_ext, ◌≢◌,
  ◌↔◌, ◌⊎◌, inl, inr, Bool, true, false, not, ◌&&◌, ◌||◌, Option, none, some, List, [], ◌∷◌, ◌++◌,
  append-nil, append_assoc, map, arith, ltb, leb, ◌==◌, if◌then◌else◌, ltb→lt, lt→ltb, le→ltb,
  ==→eq, ==_refl, tests, Bool-cases, Option-cases, length, take, drop, length-append, take-append,
  drop-append, drop-append_cons, take-append_at, drop-append_at, take-append_drop, take_of_length,
  drop_of_length, length-drop, length-take, take-append_le, drop-append_le, All, Bytes, dec_lt,
  dec_le, ℕ_discrete,
}
use sm.Utils.Endian.{packuint32, unpackuint32}
use sm.Utils.Packet.{to_u32}
use sm.Net.Tcp.{Read, got, read_threw, Write, sent, write_threw}

pub data NetHeadType : Type 0 where
  fix_pack_len_place_holder : NetHeadType
  no_place_holder_fix_len : NetHeadType
  no_place_holder_var_len : NetHeadType

-- `_recvbuf`, `_recvmsg` and `_curpacklen`. A read fills `_recvasio` anew.
pub record StreamHandler : Type 0 where
  pub recvbuf : List ℕ
  pub recvmsg : List ℕ
  pub curpacklen : ℕ

abbrev pub read_stream : Read → StreamHandler → StreamHandler
read_stream (got bytes) s = record s { recvbuf = s.recvbuf ++ bytes }
read_stream read_threw s = s

abbrev pub is_empty : List ℕ → Bool
is_empty [] = true
is_empty (x ∷ xs) = false

-- `_recvmsg.assign(...)` and `_recvbuf.erase(...)` of the first `n` bytes.
abbrev pub take_message : ℕ → StreamHandler → StreamHandler
take_message n s = record s { recvmsg = take n s.recvbuf; recvbuf = drop n s.recvbuf }

-- The length in front of a message, read where none is known yet.
unfoldable pub read_head : StreamHandler → StreamHandler
read_head s =
    if (s.curpacklen == 0) && not (is_empty s.recvbuf)
    then (let (ok, rest, n) = unpackuint32 s.recvbuf s.curpacklen in
        record { recvbuf = rest; recvmsg = []; curpacklen = n })
    else s

unfoldable pub split_known : StreamHandler → Bool × StreamHandler
split_known s =
    if ltb 0 s.curpacklen && leb s.curpacklen (length s.recvbuf)
    then (true, record (take_message s.curpacklen s) { curpacklen = 0 })
    else (false, s)

-- The `switch` of `recvPack`.
unfoldable pub split : NetHeadType → StreamHandler → Bool × StreamHandler
split fix_pack_len_place_holder s = split_known (read_head s)
split no_place_holder_fix_len s =
    if leb s.curpacklen (length s.recvbuf) then (true, take_message s.curpacklen s) else (false, s)
split no_place_holder_var_len s = (true, take_message (length s.recvbuf) s)

-- `while (!bsplit && tryindex++ < retrycount)`
unfoldable pub recv_loop :
    NetHeadType
    → ℕ
    → ℕ
    → Bool
    → StreamHandler
    → List Read
    → Option (Bool × StreamHandler × List Read)
recv_loop nethead retrycount tryindex bsplit s [] =
    if not bsplit && ltb tryindex retrycount then none else some (bsplit, s, [])
recv_loop nethead retrycount tryindex bsplit s (event ∷ events) =
    let s' = read_stream event s in
    let (bsplit', s'') = split nethead s' in
    let rest = recv_loop nethead retrycount (suc tryindex) bsplit' s'' events in
    if not bsplit && ltb tryindex retrycount
    then (if is_empty s'.recvbuf then some (bsplit, s', events) else rest)
    else some (bsplit, s, event ∷ events)

-- `recvPack`: the length that an earlier call read is forgotten first.
unfoldable pub recv_stream :
    NetHeadType → ℕ → StreamHandler → List Read → Option (Bool × StreamHandler × List Read)
recv_stream nethead retrycount s events =
    recv_loop nethead (if ltb 100 retrycount then 100 else retrycount) 0 false
      (record s { curpacklen = 0 }) events

-- `_packnethead`, and the bytes that `sendPack` then sends.
unfoldable pub packnethead : NetHeadType → ℕ → List ℕ
packnethead fix_pack_len_place_holder packlen = packuint32 [] packlen
packnethead no_place_holder_fix_len packlen = []
packnethead no_place_holder_var_len packlen = []

unfoldable pub send_buffer : NetHeadType → List ℕ → List ℕ
send_buffer nethead msg = packnethead nethead (to_u32 (length msg)) ++ msg

-- The loop of `sendPack`: it sends until nothing is left, or until a write throws.
unfoldable pub send_stream_loop : List ℕ → List ℕ → List Write → Option (List ℕ × List Write)
send_stream_loop [] wire events = some (wire, events)
send_stream_loop (b ∷ buf) wire [] = none
send_stream_loop (b ∷ buf) wire (write_threw ∷ events) = some (wire, events)
send_stream_loop (b ∷ buf) wire (sent n ∷ events) =
    send_stream_loop (drop n (b ∷ buf)) (wire ++ take n (b ∷ buf)) events

-- `sendPack`: what it returns, and what it wrote.
unfoldable pub send_stream : NetHeadType → List ℕ → List Write → Option (Bool × List ℕ)
send_stream nethead msg events = elim (send_stream_loop (send_buffer nethead msg) [] events) [
  | none ↦ none
  | some (wire, events') ↦ some (true, wire)
]
