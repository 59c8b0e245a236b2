-- ===== src/Db/Pool.antt =====
-- database/DBManager.cpp: the connections to the database, kept in a queue of the moodycamel library
-- while nobody uses them. A connection is the number under which it was made.
pub mod Shared
use sm.Base.{
  ℕ, zero, suc, ◌+◌, ◌-◌, ◌*◌, ◌/◌, ◌%◌, ◌^◌, ◌≤◌, ◌<◌, ◌≡◌, refl, sym, ap, ap₂, ◌∙◌, fun_ext, ◌≢◌,
  ◌↔◌, ◌⊎◌, inl, inr, Bool, true, false, not, ◌&&◌, ◌||◌, Option, none, some, List, [], ◌∷◌, ◌++◌,
  append-nil, append_assoc, map, arith, ltb, leb, ◌==◌, if◌then◌else◌, ltb→lt, lt→ltb, le→ltb,
  ==→eq, ==_refl, tests, Bool-cases, Option-cases, length, take, drop, length-append, take-append,
  drop-append, drop-append_cons, take-append_at, drop-append_at, take-append_drop, take_of_length,
  drop_of_length, length-drop, length-take, take-append_le, drop-append_le, All, Bytes, dec_lt,
  dec_le, ℕ_discrete,
}
use mathlib.Core.List.{Perm}

-- The queue: `try_dequeue` may give any element, and may give none.
pub record Queue : Type 1 where
  pub State : Type 0
  pub enqueue : ℕ → State → State
  pub try_dequeue : State → Option (ℕ × State)

pub record IsLawful (Q : Queue) : Type 0 where
  pub items : Q.State → List ℕ
  pub items-enqueue : (c : ℕ) (q : Q.State) → Perm (items (Q.enqueue c q)) (c ∷ items q)
  pub items-try_dequeue :
      (c : ℕ) (q q' : Q.State) → Q.try_dequeue q ≡ some (c, q') → Perm (items q) (c ∷ items q')

-- `_conns`, and how many connections were made.
pub record DbManager (Q : Queue) : Type 0 where
  pub conns : Q.State
  pub made : ℕ

module _ (Q : Queue) where
  -- `_addConnect`: whether the database lets us connect. Where it does not, the result is null.
  unfoldable pub add_new : Bool → DbManager Q → Option ℕ × DbManager Q
  add_new connects m = if connects then (some m.made, record m { made = suc m.made }) else (none, m)

  unfoldable pub get_conn : Bool → DbManager Q → Option ℕ × DbManager Q
  get_conn connects m = elim (Q.try_dequeue m.conns) [
    | some (c, rest) ↦ (some c, record m { conns = rest })
    | none ↦ add_new connects m
  ]

  -- `addConnect`, which the destructor of `DBInst` calls.
  unfoldable pub add_connect : Option ℕ → DbManager Q → DbManager Q
  add_connect none m = m
  add_connect (some c) m = record m { conns = Q.enqueue c m.conns }
