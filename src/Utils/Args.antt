-- ===== src/Utils/Args.antt =====
-- inc/templatefuncs.h `packArgs` and `unpackArgs`, and Utils/Utils.cpp `packstring` and
-- `unpackstring`: the arguments of a call as JSON texts, each behind its length, or bare where
-- there is one argument. The JSON library is a parameter.
pub mod RoundTrip
pub mod Faults
use sm.Base.{
  ℕ, ◌+◌, ◌^◌, ◌%◌, ◌≡◌, Bool, true, false, not, ◌||◌, Option, none, some, List, [], ◌∷◌, ◌++◌,
  length, take, drop, ltb, if◌then◌else◌,
}
use sm.Utils.Endian.{packuint32, unpackuint32_view}
use sm.Utils.Packet.{to_u32}

unfoldable pub packstring : List ℕ → List ℕ
unfolding packuint32
packstring msg = packuint32 [] (to_u32 (length msg)) ++ msg

unfoldable pub unpackstring : List ℕ → List ℕ
unfolding unpackuint32_view
unpackstring msg =
    let (ok, tail, strlen) = unpackuint32_view msg 0 in
    if not ok || ltb (length msg) (strlen + 4) then [] else take strlen tail

-- `iguana::json`: texts of values, and parsing into a variable, which holds some value afterwards
-- also on failure. What was written of a value of a type is read back into a new variable of the type.
-- Nothing is said of other texts: the parser accepts the empty text for a record.
pub record Json : Type 1 where
  pub Ty : Type 0
  pub Value : Type 0
  pub HasType : Ty → Value → Type 0
  pub initial : Ty → Value
  pub to_json : Value → List ℕ
  pub from_json : Ty → Value → List ℕ → Bool × Value
  pub from_json-to_json :
      (t : Ty) (v : Value) → HasType t v → from_json t (initial t) (to_json v) ≡ (true, v)

module _ (json : Json) where
  open json use {Ty, Value, initial, to_json, from_json}

  -- `packArgs(ret, arg)` and `packArgs(ret, arg, args...)`
  unfoldable pub pack_args : List ℕ → Value → List Value → List ℕ
  pack_args [] arg [] = to_json arg
  pack_args (b ∷ ret) arg [] = (b ∷ ret) ++ packstring (to_json arg)
  pack_args ret arg (next ∷ args) = pack_args (ret ++ packstring (to_json arg)) next args

  -- The variables that `for_each` visits and its body assigns: the flag, the offset and the
  -- arguments.
  pub record Unpacking : Type 0 where
    pub flag : Bool
    pub offset : ℕ
    pub args : List Value

  -- The arguments before those that were visited.
  abbrev pub with_args : List Value → Option Unpacking → Option Unpacking
  with_args vs none = none
  with_args vs (some r) = some (record r { args = vs ++ r.args })

  -- The body returns nothing, so that `for_each` goes on after an argument that does not parse. Where
  -- the offset is behind the end of the message, the length that is left wraps around, and the view
  -- is not to be answered for: `none`.
  unfoldable pub unpack_each : List ℕ → List Ty → Bool → ℕ → Option Unpacking
  unpack_each msg [] flag offset = some (record { flag = flag; offset = offset; args = [] })
  unpack_each msg (t ∷ ts) flag offset =
      let strparam = unpackstring (drop offset msg) in
      let (bret, v) = from_json t (initial t) strparam in
      let rest =
        unpack_each msg ts bret (if bret then offset + (length strparam + 4) else offset) in
      if ltb (length msg) offset then none else with_args (v ∷ []) rest

  -- The flag and the arguments.
  abbrev pub flagged : Option Unpacking → Option (Bool × List Value)
  flagged none = none
  flagged (some r) = some (r.flag, r.args)

  -- One argument is the whole message.
  unfoldable pub unpack_args : List ℕ → List Ty → Option (Bool × List Value)
  unpack_args msg (t ∷ []) = let (bret, v) = from_json t (initial t) msg in some (bret, v ∷ [])
  unpack_args msg ts = flagged (unpack_each msg ts true 0)
