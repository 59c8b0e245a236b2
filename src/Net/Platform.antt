-- ===== src/Net/Platform.antt =====
-- networkinterface/dealers/MainAssPlatPack.cpp and NoMainAssPlatPack.cpp: the platform head, main
-- and assistant command, or none; networkinterface/PackUnpackManager.cpp: one prototype for each
-- main command, cloned for each message.
pub mod RoundTrip
pub mod Manager
use sm.Base.{
  ℕ, zero, suc, ◌+◌, ◌-◌, ◌*◌, ◌/◌, ◌%◌, ◌^◌, ◌≤◌, ◌<◌, ◌≡◌, refl, sym, ap, ap₂, ◌∙◌, fun_ext, ◌≢◌,
  ◌↔◌, ◌⊎◌, inl, inr, Bool, true, false, not, ◌&&◌, ◌||◌, Option, none, some, List, [], ◌∷◌, ◌++◌,
  append-nil, append_assoc, map, arith, ltb, leb, ◌==◌, if◌then◌else◌, ltb→lt, lt→ltb, le→ltb,
  ==→eq, ==_refl, tests, Bool-cases, Option-cases, length, take, drop, length-append, take-append,
  drop-append, drop-append_cons, take-append_at, drop-append_at, take-append_drop, take_of_length,
  drop_of_length, length-drop, length-take, take-append_le, drop-append_le, All, Bytes, dec_lt,
  dec_le, ℕ_discrete,
}
use sm.Utils.Endian.{be32, unpackuint32_view}

-- The two classes that implement `PlatformPackInterface`.
pub data PlatformPack : Type 0 where
  main_ass : ℕ → ℕ → PlatformPack
  no_main_ass : ℕ → PlatformPack

unfoldable pub get_main : PlatformPack → ℕ
get_main (main_ass mainc ass) = mainc
get_main (no_main_ass mainc) = mainc

-- `NoMainAssPlatPack` has no `getAss` and no `setAss`, which fails: `none`.
unfoldable pub get_ass : PlatformPack → Option ℕ
get_ass (main_ass mainc ass) = some ass
get_ass (no_main_ass mainc) = none

unfoldable pub set_ass : PlatformPack → ℕ → Option PlatformPack
set_ass (main_ass mainc old) ass = some (main_ass mainc ass)
set_ass (no_main_ass mainc) ass = none

unfoldable pub len : PlatformPack → ℕ
len (main_ass mainc ass) = 8
len (no_main_ass mainc) = 0

-- `pack` into a span: the flag, and what the span holds then. A span of another size is refused.
unfoldable pub pack : PlatformPack → List ℕ → Bool × List ℕ
pack (main_ass mainc ass) dst =
    if length dst == 8 then (true, be32 mainc ++ be32 ass) else (false, dst)
pack (no_main_ass mainc) dst = (true, dst)

-- `unpack` of a view of the right size, in two reads whose flags shadow the result's.
unfoldable pub unpack : PlatformPack → List ℕ → Bool × PlatformPack
unpack (main_ass mainc ass) src =
    let (ok, tail, mainc') = unpackuint32_view src 0 in
    let (ok', rest, ass') = unpackuint32_view tail mainc' in
    if length src == 8 then (true, main_ass mainc' ass') else (false, main_ass mainc ass)
unpack (no_main_ass mainc) src = (true, no_main_ass mainc)

unfoldable pub clone : PlatformPack → PlatformPack
clone (main_ass mainc ass) = main_ass mainc ass
clone (no_main_ass mainc) = no_main_ass mainc
