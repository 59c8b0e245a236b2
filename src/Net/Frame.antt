-- ===== src/Net/Frame.antt =====
-- networkinterface/StreamNetDealer.cpp: the eight bytes in front of a platform message on a stream,
-- its length and its number.
pub mod RoundTrip
use sm.Base.{
  ℕ, zero, suc, ◌+◌, ◌-◌, ◌*◌, ◌/◌, ◌%◌, ◌^◌, ◌≤◌, ◌<◌, ◌≡◌, refl, sym, ap, ap₂, ◌∙◌, fun_ext, ◌≢◌,
  ◌↔◌, ◌⊎◌, inl, inr, Bool, true, false, not, ◌&&◌, ◌||◌, Option, none, some, List, [], ◌∷◌, ◌++◌,
  append-nil, append_assoc, map, arith, ltb, leb, ◌==◌, if◌then◌else◌, ltb→lt, lt→ltb, le→ltb,
  ==→eq, ==_refl, tests, Bool-cases, Option-cases, length, take, drop, length-append, take-append,
  drop-append, drop-append_cons, take-append_at, drop-append_at, take-append_drop, take_of_length,
  drop_of_length, length-drop, length-take, take-append_le, drop-append_le, All, Bytes, dec_lt,
  dec_le, ℕ_discrete,
}
use sm.Utils.Endian.{be32, unpackuint32_view}
use sm.Utils.Packet.{to_u32}

-- `int _len` is kept as its bit pattern, a number below 2 ^ 32.
pub record StreamNetDealer : Type 0 where
  pub len : ℕ
  pub msgno : ℕ

abbrev pub head_len : ℕ
head_len = 8

-- The dealer, and the eight bytes that `dst` holds then.
unfoldable pub pack : StreamNetDealer → ℕ → ℕ → StreamNetDealer × List ℕ
pack d msgno len = (record { len = to_u32 len; msgno = msgno }, be32 (to_u32 len) ++ be32 msgno)

-- A length that was read stays also where the number is missing.
unfoldable pub unpack : StreamNetDealer → List ℕ → Bool × StreamNetDealer
unpack d src =
    let (ok, tail, len) = unpackuint32_view src 0 in
    let (ok', tail', msgno) = unpackuint32_view tail len in
    if ok
    then (if ok'
        then (true, record { len = len; msgno = msgno })
        else (false, record d { len = len }))
    else (false, d)
