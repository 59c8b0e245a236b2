-- ===== src/Tests/Json.antt =====
-- JSON with the digits, the texts without quotes and a record without members as its values; the empty
-- text is accepted for a record.
use sm.Base.{
  ℕ, ◌+◌, ◌-◌, ◌<◌, ◌≡◌, refl, ap, ◌≢◌, Bool, true, false, ◌&&◌, Option, none, some, List, [], ◌∷◌,
  ◌++◌, arith, leb, ◌==◌, if◌then◌else◌, All,
}
use sm.Utils.Args.{Json}

pub data Ty : Type 0 where
  number : Ty
  text : Ty
  empty : Ty

pub data Value : Type 0 where
  num : ℕ → Value
  str : List ℕ → Value
  members : Value

abbrev HasType : Ty → Value → Type 0
HasType number (num n) = n < 10
HasType text (str s) = All (λ c. c ≢ b'"') s
HasType empty members = Unit
HasType t v = ⊥

abbrev to_json : Value → List ℕ
to_json (num n) = (n + 48) ∷ []
to_json (str s) = b'"' ∷ (s ++ (b'"' ∷ []))
to_json members = b'{' ∷ b'}' ∷ []

abbrev initial : Ty → Value
initial number = num 0
initial text = str []
initial empty = members

-- A text up to the quote that ends it.
abbrev to_quote : List ℕ → Option (List ℕ)
to_quote [] = none
to_quote (c ∷ []) = if c == b'"' then some [] else none
to_quote (c ∷ d ∷ cs) =
    let rest = to_quote (d ∷ cs) in
    if c == b'"' then none else elim rest [ none ↦ none | some s ↦ some (c ∷ s) ]

abbrev text_value : Value → Option (List ℕ) → Bool × Value
text_value old none = (false, old)
text_value old (some s) = (true, str s)

abbrev from_json : Ty → Value → List ℕ → Bool × Value
from_json number old (c ∷ []) = if leb 48 c && leb c 57 then (true, num (c - 48)) else (false, old)
from_json text old (c ∷ cs) = if c == b'"' then text_value old (to_quote cs) else (false, old)
from_json empty old cs = (true, members)
from_json t old cs = (false, old)

to_quote-append : (s : List ℕ) → All (λ c. c ≢ b'"') s → to_quote (s ++ (b'"' ∷ [])) ≡ some s
to_quote-append [] h = refl
to_quote-append (c ∷ []) (hc, h) = ground arith
to_quote-append (c ∷ d ∷ s) (hc, h) = ground (arith, to_quote-append (d ∷ s) h)

pub from_json-to_json :
    (t : Ty) (v : Value) → HasType t v → from_json t (initial t) (to_json v) ≡ (true, v)
from_json-to_json number (num n) h = ground arith
from_json-to_json number (str s) h = elim h [ ]
from_json-to_json number members h = elim h [ ]
from_json-to_json text (num n) h = elim h [ ]
from_json-to_json text (str s) h = ap (text_value (str [])) (to_quote-append s h)
from_json-to_json text members h = elim h [ ]
from_json-to_json empty (num n) h = elim h [ ]
from_json-to_json empty (str s) h = elim h [ ]
from_json-to_json empty members h = refl

abbrev pub json : Json
json = record {
  Ty = Ty;
  Value = Value;
  HasType = HasType;
  initial = initial;
  to_json = to_json;
  from_json = from_json;
  from_json-to_json = from_json-to_json;
}
