-- ===== src/Base/Map.antt =====
-- `std::map` as an association list: `find`, `insert` (which keeps a value that is there),
-- `m[k] = v` and `erase`, over keys with a decided equality.
use Prim.Native.Nat.{ℕ}
use mathlib.Core.Path.{◌≡◌, refl}
use mathlib.Core.Logic.{inl, inr, ◌↔◌}
use mathlib.Core.Bool.{Bool, true, false, ◌&&◌}
use mathlib.Core.Option.{Option, none, some}
use mathlib.Core.List.{List, [], ◌∷◌, ◌++◌}
use native.Mathlib.Omega.{arith}
use sm.Base.Tests.{Option-cases, ◌==◌ as nat_beq, if◌then◌else◌}

pub record Eq {ℓ} (A : Type ℓ) : Type ℓ where
  pub beq : A → A → Bool
  pub beq_iff : (a b : A) → (beq a b ≡ true) ↔ (a ≡ b)

pub nat_beq_iff : (a b : ℕ) → (nat_beq a b ≡ true) ↔ (a ≡ b)
nat_beq_iff a b = ground arith

instance abbrev pub nat_eq : Eq ℕ
nat_eq = record { beq = nat_beq; beq_iff = nat_beq_iff }

abbrev pub list_beq : List ℕ → List ℕ → Bool
list_beq [] [] = true
list_beq [] (b ∷ ys) = false
list_beq (a ∷ xs) [] = false
list_beq (a ∷ xs) (b ∷ ys) = nat_beq a b && list_beq xs ys

list_beq_sound : (a b : List ℕ) → list_beq a b ≡ true → a ≡ b
list_beq_sound [] [] h = refl
list_beq_sound [] (y ∷ b) h = cc
list_beq_sound (x ∷ a) [] h = cc
list_beq_sound (x ∷ a) (y ∷ b) h = ground (arith, list_beq_sound a b)

pub list_beq_refl : (a : List ℕ) → list_beq a a ≡ true
list_beq_refl [] = refl
list_beq_refl (x ∷ a) = ground (arith, list_beq_refl a)

pub list_beq_iff : (a b : List ℕ) → (list_beq a b ≡ true) ↔ (a ≡ b)
list_beq_iff a b = (list_beq_sound a b, λ e. rw e (list_beq_refl b))

-- Texts are byte strings.
instance abbrev pub bytes_eq : Eq (List ℕ)
bytes_eq = record { beq = list_beq; beq_iff = list_beq_iff }

pub beq_refl {ℓ} : {K : Type ℓ} ⦃e : Eq K⦄ (a : K) → e.beq a a ≡ true
beq_refl ⦃e⦄ a = (e.beq_iff a a).1 refl

-- The first of two options that holds a value.
abbrev pub or_else {ℓ} : {A : Type ℓ} → Option A → Option A → Option A
or_else none b = b
or_else (some a) b = some a

module _ {ℓ κ} {K : Type ℓ} {V : Type κ} ⦃e : Eq K⦄ where
  unfoldable pub find : K → List (K × V) → Option V
  find k [] = none
  find k ((j, v) ∷ m) = if e.beq j k then some v else find k m

  unfoldable pub contains : K → List (K × V) → Bool
  contains k m = elim (find k m) [ none ↦ false | some v ↦ true ]

  -- `m.insert({k, v})`
  unfoldable pub insert : K → V → List (K × V) → List (K × V)
  insert k v m = elim (find k m) [ none ↦ m ++ ((k, v) ∷ []) | some w ↦ m ]

  -- `m[k] = v`
  unfoldable pub assign : K → V → List (K × V) → List (K × V)
  assign k v [] = (k, v) ∷ []
  assign k v ((j, w) ∷ m) = if e.beq j k then (k, v) ∷ m else (j, w) ∷ assign k v m

  unfoldable pub erase : K → List (K × V) → List (K × V)
  erase k [] = []
  erase k ((j, w) ∷ m) = let rest = erase k m in if e.beq j k then rest else (j, w) ∷ rest

  pub find-append_single :
      (k j : K) (v : V) (m : List (K × V))
      → find k m ≡ none
      → find j (m ++ ((k, v) ∷ [])) ≡ (if e.beq k j then some v else find j m)
  unfolding find
  find-append_single k j v [] h = refl
  find-append_single k j v ((i, w) ∷ m) h =
      ground (arith, find-append_single k j v m, e.beq_iff i k, e.beq_iff i j, e.beq_iff k j)

  -- `find` after each of the three, as a condition on the keys.
  pub find-assign :
      (k j : K) (v : V) (m : List (K × V))
      → find j (assign k v m) ≡ (if e.beq k j then some v else find j m)
  unfolding find assign
  find-assign k j v [] = refl
  find-assign k j v ((i, w) ∷ m) =
      ground (arith, find-assign k j v m, e.beq_iff i k, e.beq_iff i j, e.beq_iff k j)

  pub find-erase :
      (k j : K) (m : List (K × V)) → find j (erase k m) ≡ (if e.beq k j then none else find j m)
  unfolding find erase
  find-erase k j [] = ground arith
  find-erase k j ((i, w) ∷ m) =
      ground (arith, find-erase k j m, e.beq_iff i k, e.beq_iff i j, e.beq_iff k j)

  pub find-insert_new :
      (k j : K) (v : V) (m : List (K × V))
      → find k m ≡ none
      → find j (insert k v m) ≡ (if e.beq k j then some v else find j m)
  unfolding insert
  find-insert_new k j v m h = rw (h, insert) (find-append_single k j v m h)

  pub insert_old : (k : K) (v w : V) (m : List (K × V)) → find k m ≡ some w → insert k v m ≡ m
  unfolding insert
  insert_old k v w m h = rw (h, insert)

  pub find-assign_self : (k : K) (v : V) (m : List (K × V)) → find k (assign k v m) ≡ some v
  find-assign_self k v m = rw (find-assign k k v m, beq_refl k)

  pub find-erase_self : (k : K) (m : List (K × V)) → find k (erase k m) ≡ none
  find-erase_self k m = rw (find-erase k k m, beq_refl k)

  pub contains_iff : (k : K) (m : List (K × V)) → (contains k m ≡ false) ↔ (find k m ≡ none)
  unfolding contains
  contains_iff k m = (λ h. ground arith, λ h. ground arith)

  -- `insert` adds a value only for a key that has none.
  pub find-insert :
      (k j : K) (v : V) (m : List (K × V))
      → find j (insert k v m) ≡ or_else (find j m) (if e.beq k j then some v else none)
  find-insert k j v m = elim (Option-cases (find k m)) [
    | inl h ↦ ground (arith, find-insert_new k j v m h, e.beq_iff k j, h)
    | inr (w, h) ↦ rw (insert_old k v w m h) (ground (arith, h, e.beq_iff k j))
  ]
