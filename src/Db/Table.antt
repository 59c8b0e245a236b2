-- ===== src/Db/Table.antt =====
-- A table of the database, as database/CommonDBProcess.cpp uses it through sqlpp11: rows are selected
-- by a condition, inserted, and removed by a condition. No order of the rows is assumed.
use mathlib.Core.Path.{◌≡◌, refl}
use mathlib.Core.Bool.{Bool, true, false, not, ◌&&◌, ◌||◌}
use native.Mathlib.Omega.{arith}
use mathlib.Core.List.{List, [], ◌∷◌}

pub record Table {ℓ} (Row : Type ℓ) : Type (ℓ ⊔ 1) where
  pub State : Type 0
  pub select : State → (Row → Bool) → List Row
  pub insert : State → Row → State
  pub remove : State → (Row → Bool) → State

module _ {ℓ} {A : Type ℓ} where
  -- Whether a list has an element that passes a test.
  abbrev pub any : (A → Bool) → List A → Bool
  any p [] = false
  any p (x ∷ xs) = p x || any p xs

  pub any_same : (p q : A → Bool) (xs : List A) → ((x : A) → p x ≡ q x) → any p xs ≡ any q xs
  any_same p q [] h = refl
  any_same p q (x ∷ xs) h = rw (h x, any_same p q xs h)

  pub any_or : (p q : A → Bool) (xs : List A) → any (λ x. p x || q x) xs ≡ (any p xs || any q xs)
  any_or p q [] = refl
  any_or p q (x ∷ xs) = ground (arith, any_or p q xs)

-- What a table promises of every test of its rows.
pub record IsLawful {ℓ} {Row : Type ℓ} (T : Table Row) : Type ℓ where
  pub any-select :
      (s : T.State) (p q : Row → Bool)
      → any p (T.select s q) ≡ any (λ r. p r && q r) (T.select s (λ r. true))
  pub any-insert :
      (s : T.State) (p : Row → Bool) (row : Row)
      → any p (T.select (T.insert s row) (λ r. true)) ≡ (p row || any p (T.select s (λ r. true)))
  pub any-remove :
      (s : T.State) (p q : Row → Bool)
      → any p (T.select (T.remove s q) (λ r. true))
        ≡ any (λ r. p r && not (q r)) (T.select s (λ r. true))
