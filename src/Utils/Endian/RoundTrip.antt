-- ===== src/Utils/Endian/RoundTrip.antt =====
-- Reading a number back from the bytes that were written, and writing the number that was read.
use sm.Base.{
  ◌⊎◌, inl, inr, ℕ, ◌/◌, ◌%◌, ◌^◌, ◌<◌, ◌≡◌, refl, ap, true, false, List, [], ◌∷◌, ◌++◌, arith,
  length, Bytes,
}
use sm.Utils.Endian.{
  be16, be32, value16, value32, packuint32, unpackuint16, unpackuint32, unpackuint32_view,
}

pub value16-be16 : (v : ℕ) → v < 2 ^ 16 → value16 (v / 2 ^ 8 % 2 ^ 8) (v % 2 ^ 8) ≡ v
value16-be16 v h = omega arith

pub value32-be32 :
    (v : ℕ)
    → v < 2 ^ 32
    → value32 (v / 2 ^ 24 % 2 ^ 8) (v / 2 ^ 16 % 2 ^ 8) (v / 2 ^ 8 % 2 ^ 8) (v % 2 ^ 8) ≡ v
value32-be32 v h = omega arith

pub unpackuint16-be16 :
    (v old : ℕ) (rest : List ℕ) → v < 2 ^ 16 → unpackuint16 (be16 v ++ rest) old ≡ (true, rest, v)
unfolding unpackuint16
unpackuint16-be16 v old rest h = ap (λ n. (true, rest, n)) (value16-be16 v h)

pub unpackuint32-be32 :
    (v old : ℕ) (rest : List ℕ) → v < 2 ^ 32 → unpackuint32 (be32 v ++ rest) old ≡ (true, rest, v)
unfolding unpackuint32
unpackuint32-be32 v old rest h = ap (λ n. (true, rest, n)) (value32-be32 v h)

-- The two overloads agree on the flag and on the number; they agree on what is left too, except
-- that on failure the `string` keeps its bytes and the returned view is empty.
pub unpackuint32_view-eq :
    (src : List ℕ) (old : ℕ)
    → ((unpackuint32_view src old).0 ≡ (unpackuint32 src old).0)
      × ((unpackuint32_view src old).2 ≡ (unpackuint32 src old).2)
      × ((unpackuint32 src old).0 ≡ true → (unpackuint32_view src old).1 ≡ (unpackuint32 src old).1)
unfolding unpackuint32 unpackuint32_view
unpackuint32_view-eq [] old = (refl, refl, λ h. cc)
unpackuint32_view-eq (a ∷ []) old = (refl, refl, λ h. cc)
unpackuint32_view-eq (a ∷ b ∷ []) old = (refl, refl, λ h. cc)
unpackuint32_view-eq (a ∷ b ∷ c ∷ []) old = (refl, refl, λ h. cc)
unpackuint32_view-eq (a ∷ b ∷ c ∷ d ∷ rest) old = (refl, refl, λ h. refl)

pub be32-value32 :
    (a b c d : ℕ)
    → a < 256
    → b < 256
    → c < 256
    → d < 256
    → be32 (value32 a b c d) ≡ a ∷ b ∷ c ∷ d ∷ []
be32-value32 a b c d ha hb hc hd = ground arith

-- What `unpackuint32` does with `src`: it refuses fewer than four bytes, or splits off a number
-- whose bytes `packuint32` writes again.
abbrev pub Unpacks32 : List ℕ → ℕ → Type 0
Unpacks32 src old =
    ((length src < 4) × (unpackuint32 src old ≡ (false, src, old)))
    ⊎ ((n : ℕ) × (tail : List ℕ) × (n < 2 ^ 32)
        × (unpackuint32 src old ≡ (true, tail, n))
        × (packuint32 [] n ++ tail ≡ src))

unpackuint32-Unpacks32 : (src : List ℕ) (old : ℕ) → Bytes src → Unpacks32 src old
unfolding packuint32 unpackuint32
unpackuint32-Unpacks32 [] old h = inl (omega arith, refl)
unpackuint32-Unpacks32 (a ∷ []) old h = inl (omega arith, refl)
unpackuint32-Unpacks32 (a ∷ b ∷ []) old h = inl (omega arith, refl)
unpackuint32-Unpacks32 (a ∷ b ∷ c ∷ []) old h = inl (omega arith, refl)
unpackuint32-Unpacks32 (a ∷ b ∷ c ∷ d ∷ rest) old (ha, (hb, (hc, (hd, hs)))) = inr (
  value32 a b c d,
  rest,
  omega arith,
  refl,
  ap (λ bs. bs ++ rest) (be32-value32 a b c d ha hb hc hd),
)

-- A 32-bit number written in front of any bytes is read back, and the bytes behind it are left.
-- Conversely, of any byte string either fewer than four bytes are refused, and neither they nor
-- the variable change, or the four bytes read off are those that writing the number gives.
unpackuint32-packuint32 :
    (v old : ℕ) (rest src : List ℕ)
    → v < 2 ^ 32
    → Bytes src
    → (unpackuint32 (packuint32 [] v ++ rest) old ≡ (true, rest, v)) × Unpacks32 src old
unfolding packuint32
unpackuint32-packuint32 v old rest src h hs =
    (unpackuint32-be32 v old rest h, unpackuint32-Unpacks32 src old hs)
