-- ===== src/Utils/Heads.antt =====
-- Utils/Utils.cpp: the heads that travel as base64 text, `packcmdrep`, `packheads` and `packlen`,
-- and `parsecmd` and `parsesubcmd`, which read them; the classes `cmdhead` and `cmdsubhead` and the
-- enumeration `MainCmd` of inc/enums.h. The base64 library is a parameter.
pub mod RoundTrip
use sm.Base.{
  ℕ, zero, suc, ◌+◌, ◌-◌, ◌*◌, ◌/◌, ◌%◌, ◌^◌, ◌≤◌, ◌<◌, ◌≡◌, refl, sym, ap, ap₂, ◌∙◌, fun_ext, ◌≢◌,
  ◌↔◌, ◌⊎◌, inl, inr, Bool, true, false, not, ◌&&◌, ◌||◌, Option, none, some, List, [], ◌∷◌, ◌++◌,
  append-nil, append_assoc, map, arith, ltb, leb, ◌==◌, if◌then◌else◌, ltb→lt, lt→ltb, le→ltb,
  ==→eq, ==_refl, tests, Bool-cases, Option-cases, length, take, drop, length-append, take-append,
  drop-append, drop-append_cons, take-append_drop, take_of_length, drop_of_length, length-drop,
  length-take, take-append_le, drop-append_le, All, Bytes,
}
use sm.Utils.Endian.{be16, be32, value16, value32}
use sm.Utils.Packet.{to_u16, to_u32}
use sm.Utils.MainCmd

pub record CmdHead : Type 0 where
  pub mainc : ℕ
  pub assc : ℕ
  pub len : ℕ

pub record CmdSubHead : Type 0 where
  pub assc : ℕ
  pub len : ℕ

-- Their default member initialisers.
abbrev pub no_head : CmdHead
no_head = record { mainc = MainCmd.main_cmd_begin; assc = 0; len = 0 }

abbrev pub no_sub_head : CmdSubHead
no_sub_head = record { assc = 0; len = 0 }

-- `cppcodec::base64_rfc4648`: three bytes make four characters, padded at the end; what was
-- encoded is decoded. `decode` throws on a text that is not base64: `none`.
pub record Base64 : Type 0 where
  pub encode : List ℕ → List ℕ
  pub decode : List ℕ → Option (List ℕ)
  pub length-encode : (bs : List ℕ) → length (encode bs) ≡ (length bs + 2) / 3 * 4
  pub decode-encode : (bs : List ℕ) → Bytes bs → decode (encode bs) ≡ some bs

-- The bytes of a head, before they are encoded.
abbrev pub head_bytes : ℕ → ℕ → ℕ → List ℕ
head_bytes mainc assc len = be16 (to_u16 mainc) ++ (be16 (to_u16 assc) ++ be32 (to_u32 len))

-- A decoded head of the right size; any other leaves the default head.
abbrev pub cmd_of_bytes : List ℕ → CmdHead
cmd_of_bytes (a ∷ b ∷ c ∷ d ∷ e ∷ f ∷ g ∷ h ∷ []) = record {
  mainc = value16 a b;
  assc = value16 c d;
  len = value32 e f g h;
}
cmd_of_bytes _ = no_head

abbrev pub subcmd_of_bytes : List ℕ → CmdSubHead
subcmd_of_bytes (a ∷ b ∷ c ∷ d ∷ e ∷ f ∷ []) = record { assc = value16 a b; len = value32 c d e f }
subcmd_of_bytes _ = no_sub_head

module _ (base64 : Base64) where
  open base64 use {encode, decode}

  -- A `short` is given by its bit pattern.
  unfoldable pub packcmdrep : ℕ → ℕ → ℕ → List ℕ
  packcmdrep mainc assc len = encode (head_bytes mainc assc len)

  unfoldable pub packheads : ℕ → ℕ → List ℕ
  packheads mainc assc = encode (be16 (to_u16 mainc) ++ be16 (to_u16 assc))

  unfoldable pub packlen : ℕ → List ℕ
  packlen len = encode (be32 (to_u32 len))

  -- An exception of the decoder is caught, and the default head returned.
  unfoldable pub parsecmd : List ℕ → CmdHead
  parsecmd header = elim (decode header) [ some decodex ↦ cmd_of_bytes decodex | none ↦ no_head ]

  unfoldable pub parsesubcmd : List ℕ → CmdSubHead
  parsesubcmd header = elim (decode header) [
    | some decodex ↦ subcmd_of_bytes decodex
    | none ↦ no_sub_head
  ]
