-- ===== src/Tests/Base64.antt =====
-- Base64 of RFC 4648, which the heads of messages are encoded with.
use sm.Base.{
  ℕ, ◌+◌, ◌-◌, ◌*◌, ◌/◌, ◌%◌, ◌<◌, ◌≡◌, refl, ap, ap₂, false, ◌&&◌, Option, none, some, List, [],
  ◌∷◌, arith, ltb, leb, ◌==◌, if◌then◌else◌, length, Bytes,
}
use sm.Utils.Heads.{Base64}

abbrev chr : ℕ → ℕ
chr d =
    if ltb d 26
    then d + 65
    else (if ltb d 52 then d + 71 else (if ltb d 62 then d - 4 else (if d == 62 then 43 else 47)))

abbrev val : ℕ → Option ℕ
val c =
    if leb 97 c && leb c 122
    then some (c - 71)
    else (if leb 65 c && leb c 90
        then some (c - 65)
        else (if leb 48 c && leb c 57
            then some (c + 4)
            else (if c == 43 then some 62 else (if c == 47 then some 63 else none))))

val-chr : (d : ℕ) → d < 64 → val (chr d) ≡ some d
val-chr d h = ground arith

chr_no_pad : (d : ℕ) → (chr d == 61) ≡ false
chr_no_pad d = ground arith

abbrev encode : List ℕ → List ℕ
encode [] = []
encode (a ∷ []) = chr (a / 4) ∷ chr (a % 4 * 16) ∷ 61 ∷ 61 ∷ []
encode (a ∷ b ∷ []) = chr (a / 4) ∷ chr (a % 4 * 16 + b / 16) ∷ chr (b % 16 * 4) ∷ 61 ∷ []
encode (a ∷ b ∷ c ∷ bs) =
    chr (a / 4) ∷ chr (a % 4 * 16 + b / 16) ∷ chr (b % 16 * 4 + c / 64) ∷ chr (c % 64) ∷ encode bs

-- The bytes of four digits, as many as there are digits less one.
abbrev group : Option ℕ → Option ℕ → Option ℕ → Option ℕ → Option (List ℕ) → Option (List ℕ)
group (some p) (some q) (some r) (some s) (some bs) =
    some ((p * 4 + q / 16) ∷ (q % 16 * 16 + r / 4) ∷ (r % 4 * 64 + s) ∷ bs)
group p q r s bs = none

abbrev group2 : Option ℕ → Option ℕ → Option ℕ → Option (List ℕ)
group2 (some p) (some q) (some r) = some ((p * 4 + q / 16) ∷ (q % 16 * 16 + r / 4) ∷ [])
group2 p q r = none

abbrev group1 : Option ℕ → Option ℕ → Option (List ℕ)
group1 (some p) (some q) = some ((p * 4 + q / 16) ∷ [])
group1 p q = none

abbrev decode : List ℕ → Option (List ℕ)
decode [] = some []
decode (w ∷ x ∷ y ∷ z ∷ cs) =
    let rest = decode cs in
    if y == 61
    then group1 (val w) (val x)
    else (if z == 61
        then group2 (val w) (val x) (val y)
        else group (val w) (val x) (val y) (val z) rest)
decode _ = none

pub length-encode : (bs : List ℕ) → length (encode bs) ≡ (length bs + 2) / 3 * 4
length-encode [] = refl
length-encode (a ∷ []) = refl
length-encode (a ∷ b ∷ []) = refl
length-encode (a ∷ b ∷ c ∷ bs) = omega (arith, length-encode bs)

bytes_of :
    {a b c a' b' c' : ℕ} (bs : List ℕ)
    → a ≡ a'
    → b ≡ b'
    → c ≡ c'
    → some (a ∷ b ∷ c ∷ bs) ≡ some (a' ∷ b' ∷ c' ∷ bs)
bytes_of bs p q r = rw (p, q, r)

pub decode-encode : (bs : List ℕ) → Bytes bs → decode (encode bs) ≡ some bs
decode-encode [] h = refl
decode-encode (a ∷ []) (ha, h) =
    rw (val-chr (a / 4) (omega arith), val-chr (a % 4 * 16) (omega arith))
      (ap (λ x. some (x ∷ [])) (omega arith))
decode-encode (a ∷ b ∷ []) (ha, (hb, h)) =
    rw
      (
        chr_no_pad (b % 16 * 4),
        val-chr (a / 4) (omega arith),
        val-chr (a % 4 * 16 + b / 16) (omega arith),
        val-chr (b % 16 * 4) (omega arith),
      )
      (ap₂ (λ x y. some (x ∷ y ∷ [])) (omega arith) (omega arith))
decode-encode (a ∷ b ∷ c ∷ bs) (ha, (hb, (hc, h))) =
    rw
      (
        chr_no_pad (b % 16 * 4 + c / 64),
        chr_no_pad (c % 64),
        val-chr (a / 4) (omega arith),
        val-chr (a % 4 * 16 + b / 16) (omega arith),
        val-chr (b % 16 * 4 + c / 64) (omega arith),
        val-chr (c % 64) (omega arith),
        decode-encode bs h,
      )
      (bytes_of bs (omega arith) (omega arith) (omega arith))

abbrev pub rfc4648 : Base64
rfc4648 = record {
  encode = encode;
  decode = decode;
  length-encode = length-encode;
  decode-encode = decode-encode;
}
