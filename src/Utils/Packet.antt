-- ===== src/Utils/Packet.antt =====
-- Utils/Utils.h and Utils/Utils.cpp: `packmaincmd3` and `uppackmaincmd3`, the binary headers in
-- front of a message. The overloads are told apart by what the header holds: `seq` for sequence
-- number, main and assistant command and length, `ass` for assistant command and length, `len` for
-- the length alone; `view` marks those that read a `string_view`.
pub mod RoundTrip
pub mod Overloads
use sm.Base.{
  ℕ, ◌+◌, ◌%◌, ◌^◌, Bool, true, false, Option, none, some, List, [], ◌++◌, length, if◌then◌else◌,
}
use sm.Utils.Endian.{
  packuint16, packuint32, unpackuint16, unpackuint32, unpackuint16_view, unpackuint32_view,
}

-- The `static_cast`s to `uint16_t` and `uint32_t`.
abbrev pub to_u16 : ℕ → ℕ
to_u16 n = n % 2 ^ 16

abbrev pub to_u32 : ℕ → ℕ
to_u32 n = n % 2 ^ 32

unfoldable pub packmaincmd3_main : ℕ → ℕ → List ℕ → List ℕ → List ℕ
packmaincmd3_main mainc assc ret msg =
    packuint32 (packuint16 (packuint16 ret (to_u16 mainc)) (to_u16 assc)) (to_u32 (length msg))
    ++ msg

unfoldable pub packmaincmd3_seq : ℕ → ℕ → ℕ → List ℕ → List ℕ → List ℕ
packmaincmd3_seq seqnum mainc assc ret msg =
    packuint32
      (packuint16 (packuint16 (packuint32 ret (to_u32 seqnum)) (to_u16 mainc)) (to_u16 assc))
      (to_u32 (length msg))
    ++ msg

unfoldable pub packmaincmd3_ass : ℕ → List ℕ → List ℕ → List ℕ
packmaincmd3_ass assc ret msg =
    packuint32 (packuint16 ret (to_u16 assc)) (to_u32 (length msg)) ++ msg

unfoldable pub packmaincmd3_len : List ℕ → List ℕ → List ℕ
packmaincmd3_len ret msg = packuint32 ret (to_u32 (length msg)) ++ msg

-- The variables that an overload is given by reference, besides `src`.
pub record Outs : Type 0 where
  pub seqnum : ℕ
  pub mainc : ℕ
  pub assc : ℕ
  pub msglen : ℕ
  pub msg : List ℕ

-- A chain of reads with the early return after each: `none` where one fails, beside the bytes
-- that are left of `src` then.
abbrev pub Reader : Type 0 → Type 0
Reader A = List ℕ → Option A × List ℕ

abbrev pub got : Bool × List ℕ × ℕ → Option ℕ × List ℕ
got (ok, src, dst) = (if ok then some dst else none, src)

infixl 5 ◌>>=◌
abbrev pub ◌>>=◌ : {A B : Type 0} → Reader A → (A → Reader B) → Reader B
◌>>=◌ m f src = let (o, rest) = m src in elim o [ none ↦ (none, rest) | some a ↦ f a rest ]

abbrev pub pure : {A : Type 0} → A → Reader A
pure a src = (some a, src)

unfoldable pub read16 : Reader ℕ
unfolding unpackuint16
read16 src = got (unpackuint16 src 0)

unfoldable pub read32 : Reader ℕ
unfolding unpackuint32
read32 src = got (unpackuint32 src 0)

unfoldable pub view16 : Reader ℕ
unfolding unpackuint16_view
view16 src = got (unpackuint16_view src 0)

unfoldable pub view32 : Reader ℕ
unfolding unpackuint32_view
view32 src = got (unpackuint32_view src 0)

-- The reads of a header with sequence number, by either kind of read.
abbrev pub fields_seq : Reader ℕ → Reader ℕ → Reader (ℕ × ℕ × ℕ × ℕ)
fields_seq r16 r32 = do
  iseqnum ← r32
  imainc ← r16
  iassc ← r16
  imsglen ← r32
  pure (iseqnum, imainc, iassc, imsglen)

abbrev pub fields_ass : Reader ℕ → Reader ℕ → Reader (ℕ × ℕ)
fields_ass r16 r32 = do iassc ← r16; imsglen ← r32; pure (iassc, imsglen)

-- The assignments after the last read, with the bytes that are left appended to `msg`.
abbrev store_seq : Outs → Option (ℕ × ℕ × ℕ × ℕ) × List ℕ → Bool × Outs × List ℕ
store_seq io (none, src) = (false, io, src)
store_seq io (some (s, m, a, n), src) =
    (true, record { seqnum = s; mainc = m; assc = a; msglen = n; msg = io.msg ++ src }, src)

abbrev store_ass : Outs → Option (ℕ × ℕ) × List ℕ → Bool × Outs × List ℕ
store_ass io (none, src) = (false, io, src)
store_ass io (some (a, n), src) =
    (true, record io { assc = a; msglen = n; msg = io.msg ++ src }, src)

abbrev store_len : Outs → Option ℕ × List ℕ → Bool × Outs × List ℕ
store_len io (none, src) = (false, io, src)
store_len io (some n, src) = (true, record io { msglen = n; msg = io.msg ++ src }, src)

-- The overloads on `string& src` return the flag, the variables and what is left of `src`.
unfoldable pub uppackmaincmd3_seq : Outs → List ℕ → Bool × Outs × List ℕ
unfolding read16 read32
uppackmaincmd3_seq io src = store_seq io (fields_seq read16 read32 src)

unfoldable pub uppackmaincmd3_ass : Outs → List ℕ → Bool × Outs × List ℕ
unfolding read16 read32
uppackmaincmd3_ass io src = store_ass io (fields_ass read16 read32 src)

unfoldable pub uppackmaincmd3_len : Outs → List ℕ → Bool × Outs × List ℕ
unfolding read32
uppackmaincmd3_len io src = store_len io (read32 src)

-- Those on `string_view src` return the flag and the variables.
abbrev pub drop_src : Bool × Outs × List ℕ → Bool × Outs
drop_src (ok, io, src) = (ok, io)

unfoldable pub uppackmaincmd3_seq_view : Outs → List ℕ → Bool × Outs
unfolding view16 view32
uppackmaincmd3_seq_view io src = drop_src (store_seq io (fields_seq view16 view32 src))

-- This one reads the assistant command into the caller's variable, also when the length is missing,
-- and reads the length from the start of `src` again.
unfoldable pub uppackmaincmd3_ass_view : Outs → List ℕ → Bool × Outs
unfolding unpackuint16_view view32
uppackmaincmd3_ass_view io src =
    let (s2, t2, a) = unpackuint16_view src io.assc in
    let io' : Outs = record io { assc = a } in
    if s2 then drop_src (store_len io' (view32 src)) else (false, io')

unfoldable pub uppackmaincmd3_len_view : Outs → List ℕ → Bool × Outs
unfolding view32
uppackmaincmd3_len_view io src = drop_src (store_len io (view32 src))
