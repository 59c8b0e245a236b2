-- ===== src/Db/Admins.antt =====
-- database/CommonDBProcess.cpp `saddSysAdmin`, `sgetSysAdmin` and `sdelSysAdmin`: the administrators
-- of a user, in a table of the database.
pub mod Rows
pub mod Sets
use sm.Base.{
  ℕ, zero, suc, ◌+◌, ◌-◌, ◌*◌, ◌/◌, ◌%◌, ◌^◌, ◌≤◌, ◌<◌, ◌≡◌, refl, sym, ap, ap₂, ◌∙◌, fun_ext, ◌≢◌,
  ◌↔◌, ◌⊎◌, inl, inr, Bool, true, false, not, ◌&&◌, ◌||◌, Option, none, some, List, [], ◌∷◌, ◌++◌,
  append-nil, append_assoc, map, arith, ltb, leb, ◌==◌, if◌then◌else◌, ltb→lt, lt→ltb, le→ltb,
  ==→eq, ==_refl, tests, Bool-cases, Option-cases, length, take, drop, length-append, take-append,
  drop-append, drop-append_cons, take-append_at, drop-append_at, take-append_drop, take_of_length,
  drop_of_length, length-drop, length-take, take-append_le, drop-append_le, All, Bytes, dec_lt,
  dec_le, ℕ_discrete,
}
use sm.Base.Map.{list_beq}
use sm.Db.Table.{Table}

-- A row of `sysadmin`; a role is its number.
pub record AdminRow : Type 0 where
  pub user : List ℕ
  pub phone : List ℕ
  pub admin : List ℕ
  pub role : ℕ

pub record SysAdminItem : Type 0 where
  pub name : List ℕ
  pub role : ℕ

-- The conditions of the queries.
abbrev pub of_user : List ℕ → List ℕ → AdminRow → Bool
of_user user phone row = list_beq row.user user && list_beq row.phone phone

abbrev pub is_admin : List ℕ → List ℕ → SysAdminItem → AdminRow → Bool
is_admin user phone i row =
    of_user user phone row && (list_beq row.admin i.name && (row.role == i.role))

module _ (T : Table AdminRow) where
  -- `have == 0`
  abbrev pub have_none : List AdminRow → Bool
  have_none [] = true
  have_none (row ∷ rows) = false

  unfoldable pub sadd_sys_admin : List ℕ → List ℕ → List SysAdminItem → T.State → T.State
  sadd_sys_admin user phone [] db = db
  sadd_sys_admin user phone (i ∷ admins) db =
      let row : AdminRow = record { user = user; phone = phone; admin = i.name; role = i.role } in
      sadd_sys_admin user phone admins
        (if have_none (T.select db (is_admin user phone i)) then T.insert db row else db)

  unfoldable pub sget_sys_admin : List ℕ → List ℕ → T.State → List SysAdminItem
  sget_sys_admin user phone db =
      map (λ (row : AdminRow). record { name = row.admin; role = row.role })
        (T.select db (of_user user phone))

  unfoldable pub sdel_sys_admin : List ℕ → List ℕ → List SysAdminItem → T.State → T.State
  sdel_sys_admin user phone [] db = db
  sdel_sys_admin user phone (i ∷ admins) db =
      sdel_sys_admin user phone admins (T.remove db (is_admin user phone i))
