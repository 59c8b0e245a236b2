-- ===== src/Db/Admins/Rows.antt =====
-- The tests that the queries make of a row, and when two of them are the same.
use sm.Base.{
  ℕ, ◌≡◌, refl, sym, ◌∙◌, inl, inr, Bool, true, false, not, ◌&&◌, ◌||◌, List, [], ◌∷◌, arith, ◌==◌,
  Bool-cases,
}
use sm.Base.Map.{list_beq, list_beq_iff}
use sm.Db.Table.{any}
use sm.Db.Admins.{AdminRow, SysAdminItem, of_user, is_admin}

abbrev pub item_beq : SysAdminItem → SysAdminItem → Bool
item_beq i j = list_beq i.name j.name && (i.role == j.role)

-- Whether an administrator is listed.
abbrev pub lists : SysAdminItem → List SysAdminItem → Bool
lists i items = any (item_beq i) items

-- Whether two requests are for the same user.
abbrev pub same_user : List ℕ → List ℕ → List ℕ → List ℕ → Bool
same_user user phone user' phone' = list_beq user user' && list_beq phone phone'

pub list_beq_sym : (a b : List ℕ) → list_beq a b ≡ list_beq b a
list_beq_sym [] [] = refl
list_beq_sym [] (y ∷ b) = refl
list_beq_sym (x ∷ a) [] = refl
list_beq_sym (x ∷ a) (y ∷ b) = ground (arith, list_beq_sym a b)

pub item_beq_sym : (i j : SysAdminItem) → item_beq i j ≡ item_beq j i
item_beq_sym i j = ground (arith, list_beq_sym i.name j.name)

pub item_beq-eq : (i j : SysAdminItem) → item_beq i j ≡ true → (i.name ≡ j.name) × (i.role ≡ j.role)
item_beq-eq i j h = ((list_beq_iff i.name j.name).0 (ground arith), ground arith)

pub turned :
    (i : SysAdminItem) (user phone : List ℕ) (row : AdminRow)
    → ((list_beq i.name row.admin && (i.role == row.role)) && of_user user phone row)
      ≡ is_admin user phone i row
turned i user phone row = ground (arith, list_beq_sym i.name row.admin)

pub or_comm : (a b : Bool) → (a || b) ≡ (b || a)
or_comm true true = refl
or_comm true false = refl
or_comm false true = refl
or_comm false false = refl

pub and_false : (a : Bool) → (a && false) ≡ false
and_false a = ground arith

pub and_true : (a : Bool) → (a && true) ≡ a
and_true a = ground arith

pub or_nothing : (a b : Bool) → a ≡ (a || (b && false))
or_nothing a b = ground arith

pub and_nothing : (a b : Bool) → a ≡ (a && not (b && false))
and_nothing a b = ground arith

pub or_joined : (x s e l : Bool) → ((x || (s && e)) || (s && l)) ≡ (x || (s && (e || l)))
or_joined x s e l = ground arith

pub and_joined :
    (x s e l : Bool) → ((x && not (s && e)) && not (s && l)) ≡ (x && not (s && (e || l)))
and_joined x s e l = ground arith

pub neither : (b : Bool) → ((b && not b) || false) ≡ false
neither true = refl
neither false = refl

pub nobody :
    (p q : AdminRow → Bool)
    → ((row : AdminRow) → p row ≡ q row)
    → (rows : List AdminRow) → any (λ row. p row && not (q row)) rows ≡ false
nobody p q h [] = refl
nobody p q h (row ∷ rows) = rw (h row, nobody p q h rows) (neither (q row))

-- The row that is inserted passes the test of another request exactly if both say the same.
pub row_passes :
    (user phone user' phone' : List ℕ) (i j : SysAdminItem)
    → is_admin user' phone' j (record { user = user; phone = phone; admin = i.name; role = i.role })
      ≡ (same_user user phone user' phone' && item_beq i j)
row_passes user phone user' phone' i j = refl

pub same_test :
    (user phone user' phone' : List ℕ) (i j : SysAdminItem) (row : AdminRow)
    → (same_user user phone user' phone' && item_beq i j) ≡ true
    → is_admin user' phone' j row ≡ is_admin user phone i row
same_test user phone user' phone' i j row h =
    let eu = (list_beq_iff user user').0 (ground arith) in
    let ep = (list_beq_iff phone phone').0 (ground arith) in
    let (en, er) = item_beq-eq i j (ground arith) in rw (eu, ep, en, er) refl

pub both_tests :
    (user phone user' phone' : List ℕ) (i j : SysAdminItem) (row : AdminRow)
    → is_admin user' phone' j row ≡ true
    → is_admin user phone i row ≡ true
    → (same_user user phone user' phone' && item_beq i j) ≡ true
both_tests user phone user' phone' i j row h k =
    let eu = (list_beq_iff row.user user).0 (ground arith) in
    let eu' = (list_beq_iff row.user user').0 (ground arith) in
    let ep = (list_beq_iff row.phone phone).0 (ground arith) in
    let ep' = (list_beq_iff row.phone phone').0 (ground arith) in
    let en = (list_beq_iff row.admin i.name).0 (ground arith) in
    let en' = (list_beq_iff row.admin j.name).0 (ground arith) in
    let u = (list_beq_iff user user').1 (sym eu ∙ eu') in
    let p = (list_beq_iff phone phone').1 (sym ep ∙ ep') in
    let n = (list_beq_iff i.name j.name).1 (sym en ∙ en') in rw (u, p, n) (ground arith)

pub untouched :
    (user phone user' phone' : List ℕ) (i j : SysAdminItem) (row : AdminRow)
    → (same_user user phone user' phone' && item_beq i j) ≡ false
    → (is_admin user' phone' j row && not (is_admin user phone i row)) ≡ is_admin user' phone' j row
untouched user phone user' phone' i j row t = elim (Bool-cases (is_admin user' phone' j row)) [
  | inl h ↦ elim (Bool-cases (is_admin user phone i row)) [
    | inl k ↦ let m = both_tests user phone user' phone' i j row h k in absurd cc
    | inr k ↦ rw (h, k) refl
  ]
  | inr h ↦ rw h refl
]
