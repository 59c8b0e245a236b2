-- ===== src/Net/Stream/Resets.antt =====
-- Where `recvPack` loses track of a message, and `sendPack` of a failure.
use sm.Base.{
  clash, lt→leb, le→leb, ℕ, ◌^◌, ◌≤◌, ◌<◌, ◌≡◌, refl, sym, ap, ◌∙◌, inl, inr, Bool, true, false,
  Option, none, some, List, [], ◌∷◌, ◌++◌, append_assoc, arith, lt→ltb, Option-cases, length, take,
  drop, length-append, take-append_drop,
}
use sm.Utils.Endian.{be32}
use sm.Utils.Endian.RoundTrip.{unpackuint32-be32}
use sm.Net.Tcp.{Read, got, Write, sent, write_threw}
use sm.Utils.Packet.{to_u32}
use sm.Net.Stream.{
  packnethead, NetHeadType, fix_pack_len_place_holder, no_place_holder_fix_len, StreamHandler,
  is_empty, read_head, split_known, split, recv_loop, recv_stream, send_buffer, send_stream_loop,
  send_stream,
}

abbrev pub new_handler : StreamHandler
new_handler = record { recvbuf = []; recvmsg = []; curpacklen = 0 }

is_empty_full : (xs : List ℕ) → 0 < length xs → is_empty xs ≡ false
is_empty_full [] h = absurd (omega arith)
is_empty_full (x ∷ xs) h = refl

tried :
    (nethead : NetHeadType) (ok : Bool) (s : StreamHandler) (events : List Read)
    → recv_loop nethead 1 1 ok s events ≡ some (ok, s, events)
unfolding recv_loop
tried nethead true s [] = refl
tried nethead false s [] = refl
tried nethead true s (e ∷ events) = refl
tried nethead false s (e ∷ events) = refl

-- One try on a read that brings some bytes.
one_try :
    (nethead : NetHeadType) (s s' : StreamHandler) (bytes : List ℕ) (events : List Read) (ok : Bool)
    → 0 < length (s.recvbuf ++ bytes)
    → split nethead (record s { recvbuf = s.recvbuf ++ bytes; curpacklen = 0 }) ≡ (ok, s')
    → recv_stream nethead 1 s (got bytes ∷ events) ≡ some (ok, s', events)
unfolding recv_stream recv_loop
one_try nethead s s' bytes events ok full e =
    rw (e, is_empty_full (s.recvbuf ++ bytes) full) (tried nethead ok s' events)

split_short :
    (n : ℕ) (part : List ℕ)
    → length part < n
    → split_known (record { recvbuf = part; recvmsg = []; curpacklen = n })
      ≡ (false, record { recvbuf = part; recvmsg = []; curpacklen = n })
unfolding split_known
split_short n part few = rw (lt→ltb 0 n (omega arith), lt→leb n (length part) few, split_known)

-- The head and a part of a message.
first_split :
    (n : ℕ) (part : List ℕ)
    → length part < n
    → n < 2 ^ 32
    → split fix_pack_len_place_holder (record new_handler { recvbuf = be32 n ++ part })
      ≡ (false, record { recvbuf = part; recvmsg = []; curpacklen = n })
unfolding split read_head
first_split n part few fits = rw (unpackuint32-be32 n 0 part fits) (split_short n part few)

-- `recvPack` that runs out of tries behind the head of a message answers no, and keeps the bytes of
-- the body that it has; the next call reads the rest of the body like the start of a new message.
-- And where both sides know the length of a message, that length is reset as well: whatever bytes a
-- read brings, the answer is yes and the message is empty.
recv_stream_forgets_length :
    (n : ℕ) (part more bytes : List ℕ) (s : StreamHandler) (events : List Read)
    → length part < n
    → n < 2 ^ 32
    → 0 < length bytes
    → let s' : StreamHandler = record { recvbuf = part; recvmsg = []; curpacklen = n } in
      (recv_stream fix_pack_len_place_holder 1 new_handler (got (be32 n ++ part) ∷ events)
        ≡ some (false, s', events))
      × (recv_stream fix_pack_len_place_holder 1 s' (got more ∷ events)
          ≡ recv_stream fix_pack_len_place_holder 1 new_handler (got (part ++ more) ∷ events))
      × (recv_stream no_place_holder_fix_len 1 s (got bytes ∷ events)
          ≡ some
              (true, record { recvbuf = s.recvbuf ++ bytes; recvmsg = []; curpacklen = 0 }, events))
unfolding recv_stream recv_loop split
recv_stream_forgets_length n part more bytes s events few fits full = (
  one_try fix_pack_len_place_holder new_handler
      (record { recvbuf = part; recvmsg = []; curpacklen = n }) (be32 n ++ part) events false
      (omega arith) (first_split n part few fits),
  refl,
  one_try no_place_holder_fix_len s
      (record { recvbuf = s.recvbuf ++ bytes; recvmsg = []; curpacklen = 0 }) bytes events true
      (omega (arith, length-append s.recvbuf bytes))
      (rw (le→leb 0 (length (s.recvbuf ++ bytes)) (omega arith))),
)

abbrev written : Option (List ℕ × List Write) → List ℕ
written none = []
written (some (wire, events)) = wire

-- What is written is the start of what is to be sent, and the rest of it is left.
wire_prefix :
    (buf wire : List ℕ) (events : List Write) (wire' : List ℕ) (events' : List Write)
    → send_stream_loop buf wire events ≡ some (wire', events')
    → (left : List ℕ) × (wire' ++ left ≡ wire ++ buf)
unfolding send_stream_loop
wire_prefix [] wire events wire' events' e = ([], ap (λ w. w ++ []) (sym (ap written e)))
wire_prefix (b ∷ buf) wire [] wire' events' e = absurd cc
wire_prefix (b ∷ buf) wire (write_threw ∷ events) wire' events' e =
    (b ∷ buf, ap (λ w. w ++ (b ∷ buf)) (sym (ap written e)))
wire_prefix (b ∷ buf) wire (sent n ∷ events) wire' events' e =
    let (left, kept) =
      wire_prefix (drop n (b ∷ buf)) (wire ++ take n (b ∷ buf)) events wire' events' e in
    (
      left,
      kept
          ∙ append_assoc wire (take n (b ∷ buf)) (drop n (b ∷ buf))
          ∙ ap (λ b. wire ++ b) (take-append_drop n (b ∷ buf)),
    )

abbrev flag : Option (Bool × List ℕ) → Bool
flag none = true
flag (some (ok, wire)) = ok

abbrev sent_wire : Option (Bool × List ℕ) → List ℕ
sent_wire none = []
sent_wire (some (ok, wire)) = wire

first_throws :
    (buf : List ℕ) (events : List Write)
    → 0 < length buf
    → send_stream_loop buf [] (write_threw ∷ events) ≡ some ([], events)
unfolding send_stream_loop
first_throws [] events h = absurd (omega arith)
first_throws (b ∷ buf) events h = refl

length-send_buffer :
    (nethead : NetHeadType) (msg : List ℕ) → length msg ≤ length (send_buffer nethead msg)
unfolding send_buffer
length-send_buffer nethead msg =
    omega (arith, length-append (packnethead nethead (to_u32 (length msg))) msg)

send_stream_done :
    (nethead : NetHeadType) (msg wire : List ℕ) (events : List Write) (ok : Bool)
    → send_stream nethead msg events ≡ some (ok, wire)
    → (events' : List Write) × (send_stream_loop (send_buffer nethead msg) [] events
        ≡ some (wire, events'))
      × (ok ≡ true)
unfolding send_stream
send_stream_done nethead msg wire events ok e =
    elim (Option-cases (send_stream_loop (send_buffer nethead msg) [] events)) [
      | inl h ↦ (clash (rw (h, send_stream) at e))
      | inr ((wire', events'), h) ↦
          (let e' : some (true, wire') ≡ some (ok, wire) = rw (h, send_stream) at e in
            (events', h ∙ ap (λ w. some (w, events')) (ap sent_wire e'), sym (ap flag e')))
    ]

-- `sendPack` of a stream handler answers yes whenever it ends, though it may have written only the
-- start of the message: nothing at all, where the first write throws.
send_stream_reports :
    (nethead : NetHeadType) (msg wire : List ℕ) (events : List Write) (ok : Bool)
    → send_stream nethead msg events ≡ some (ok, wire)
    → 0 < length msg
    → (ok ≡ true)
      × ((left : List ℕ) × (wire ++ left ≡ send_buffer nethead msg))
      × (send_stream nethead msg (write_threw ∷ events) ≡ some (true, []))
unfolding send_stream
send_stream_reports nethead msg wire events ok e full =
    let (events', done, yes_ok) = send_stream_done nethead msg wire events ok e in
    (
      yes_ok,
      wire_prefix (send_buffer nethead msg) [] events wire events' done,
      rw (
        first_throws (send_buffer nethead msg) events
            (omega (arith, length-send_buffer nethead msg)),
        send_stream,
      ),
    )
