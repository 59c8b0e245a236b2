-- ===== src/Tests/Tables.antt =====
-- A table as a list, the administrators and the registration over it.
use sm.Base.{◌≡◌, refl, Bool, true, false, not, ◌&&◌, ◌||◌, List, [], ◌∷◌, arith, if◌then◌else◌}
use sm.Base.Map.{list_beq}
use sm.Db.Table.{Table, IsLawful, any}
use sm.Db.Users.{UserRow, ok, slogin}
use sm.Db.Regist.{regist_name_repeat, sregist}
use sm.Db.Regist.Login.{sregist-slogin}
use sm.Db.Admins.{AdminRow, SysAdminItem, sadd_sys_admin, sget_sys_admin, sdel_sys_admin}
use sm.Db.Admins.Rows.{lists, same_user}
use sm.Db.Admins.Sets.{sys_admins_set}

module _ {Row : Type 0} where
  abbrev keep : (Row → Bool) → List Row → List Row
  keep q [] = []
  keep q (r ∷ rows) = let rest = keep q rows in if q r then r ∷ rest else rest

  any-keep :
      (p q : Row → Bool) (rows : List Row)
      → any p (keep q rows) ≡ any (λ r. p r && q r) (keep (λ r. true) rows)
  any-keep p q [] = refl
  any-keep p q (r ∷ rows) = ground (arith, any-keep p q rows)

  any-keep-not :
      (p q : Row → Bool) (rows : List Row)
      → any p (keep (λ r. true) (keep (λ r. not (q r)) rows))
        ≡ any (λ r. p r && not (q r)) (keep (λ r. true) rows)
  any-keep-not p q [] = refl
  any-keep-not p q (r ∷ rows) = ground (arith, any-keep-not p q rows)

  abbrev list_table : Table Row
  list_table = record {
    State = List Row;
    select = λ rows q. keep q rows;
    insert = λ rows row. row ∷ rows;
    remove = λ rows q. keep (λ r. not (q r)) rows;
  }

  list_table-IsLawful : IsLawful list_table
  list_table-IsLawful = record {
    any-select = λ rows p q. any-keep p q rows;
    any-insert = λ rows p row. refl;
    any-remove = λ rows p q. any-keep-not p q rows;
  }

abbrev table : List AdminRow
table = record { user = 1 ∷ []; phone = 2 ∷ []; admin = 3 ∷ []; role = 0 } ∷ []

abbrev new_admin : SysAdminItem
new_admin = record { name = 4 ∷ []; role = 1 }

sys_admins_set_example :
    let admins = new_admin ∷ [] in
    let same = same_user (1 ∷ []) (2 ∷ []) (1 ∷ []) (2 ∷ []) in
    let before = lists new_admin (sget_sys_admin list_table (1 ∷ []) (2 ∷ []) table) in
    (lists new_admin (
        sget_sys_admin list_table
          (1 ∷ [])
          (2 ∷ [])
          (sadd_sys_admin list_table (1 ∷ []) (2 ∷ []) admins table))
      ≡ (before || (same && lists new_admin admins)))
    × (lists new_admin (
          sget_sys_admin list_table
            (1 ∷ [])
            (2 ∷ [])
            (sdel_sys_admin list_table (1 ∷ []) (2 ∷ []) admins table))
        ≡ (before && not (same && lists new_admin admins)))
sys_admins_set_example =
    sys_admins_set list_table list_table-IsLawful (1 ∷ []) (2 ∷ []) (1 ∷ []) (2 ∷ [])
      (new_admin ∷ []) new_admin table

sregist-slogin_example :
    let have = list_table.select [] (λ (row : UserRow). list_beq row.name (7 ∷ [])) in
    let (rep, db') = sregist list_table 0 (7 ∷ []) (8 ∷ []) [] [] in
    (have ≡ []
      → (rep ≡ record { code = ok; user = 7 ∷ []; has_token = true })
        × ((slogin (list_table.select db') (7 ∷ []) [] (8 ∷ [])).has_token
            ≡ list_beq (8 ∷ []) (8 ∷ [])))
    × ((old : UserRow) (rest : List UserRow)
        → have ≡ old ∷ rest
        → (rep ≡ record { code = regist_name_repeat; user = 7 ∷ []; has_token = false })
          × (db' ≡ []))
sregist-slogin_example =
    sregist-slogin list_table list_table-IsLawful 0 (7 ∷ []) (8 ∷ []) [] (8 ∷ []) [] (omega arith)
