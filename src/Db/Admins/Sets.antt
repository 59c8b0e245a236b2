-- ===== src/Db/Admins/Sets.antt =====
-- The administrators of a user as a set.
use sm.Base.{
  ℕ, ◌≡◌, refl, sym, ap, ◌∙◌, inl, inr, Bool, true, false, not, ◌&&◌, ◌||◌, List, [], ◌∷◌, map,
  ◌==◌, if◌then◌else◌, Bool-cases,
}
use sm.Base.Map.{list_beq}
use sm.Db.Table.{Table, IsLawful, any, any_same}
use sm.Db.Admins.{
  AdminRow, SysAdminItem, of_user, is_admin, have_none, sadd_sys_admin, sget_sys_admin,
  sdel_sys_admin,
}
use sm.Db.Admins.Rows.{
  item_beq, lists, same_user, item_beq_sym, turned, or_comm, and_false, and_true, or_nothing,
  and_nothing, or_joined, and_joined, nobody, same_test, untouched,
}

module _ (T : Table AdminRow) (lawful : IsLawful T) where
  everything : T.State → List AdminRow
  everything db = T.select db (λ r. true)

  -- The rows that say that a user has an administrator.
  has_admin : List ℕ → List ℕ → SysAdminItem → T.State → Bool
  has_admin user phone i db = any (is_admin user phone i) (everything db)

  any-map :
      (i : SysAdminItem) (rows : List AdminRow)
      → lists i (map (λ (row : AdminRow). record { name = row.admin; role = row.role }) rows)
        ≡ any (λ row. list_beq i.name row.admin && (i.role == row.role)) rows
  any-map i [] = refl
  any-map i (row ∷ rows) =
      ap (λ b. (list_beq i.name row.admin && (i.role == row.role)) || b) (any-map i rows)

  listed :
      (user phone : List ℕ) (i : SysAdminItem) (db : T.State)
      → lists i (sget_sys_admin T user phone db) ≡ has_admin user phone i db
  unfolding sget_sys_admin has_admin everything
  listed user phone i db =
      any-map i (T.select db (of_user user phone))
      ∙ lawful.any-select db (λ row. list_beq i.name row.admin && (i.role == row.role))
          (of_user user phone)
      ∙ any_same _ _ (T.select db (λ r. true)) (λ row. turned i user phone row)

  have_none-any : (rows : List AdminRow) → have_none T rows ≡ not (any (λ r. true) rows)
  have_none-any [] = refl
  have_none-any (row ∷ rows) = refl

  is_held :
      (user phone : List ℕ) (i : SysAdminItem) (db : T.State)
      → have_none T (T.select db (is_admin user phone i)) ≡ not (has_admin user phone i db)
  unfolding has_admin everything
  is_held user phone i db =
      have_none-any (T.select db (is_admin user phone i))
      ∙ ap not (lawful.any-select db (λ r. true) (is_admin user phone i))

  already :
      (user phone user' phone' : List ℕ) (i j : SysAdminItem) (db : T.State)
      → has_admin user phone i db ≡ true
      → has_admin user' phone' j db
        ≡ (has_admin user' phone' j db || (same_user user phone user' phone' && item_beq i j))
  unfolding has_admin
  already user phone user' phone' i j db h =
      elim (Bool-cases (same_user user phone user' phone' && item_beq i j)) [
        | inl t ↦
            rw
              (
                t,
                any_same (is_admin user' phone' j) (is_admin user phone i) (everything db)
                    (λ row. same_test user phone user' phone' i j row t),
                h,
              )
              refl
        | inr t ↦ rw t (or_comm false (has_admin user' phone' j db))
      ]

  -- One administrator more.
  added_one :
      (user phone user' phone' : List ℕ) (i j : SysAdminItem) (db : T.State)
      → let row : AdminRow = record { user = user; phone = phone; admin = i.name; role = i.role } in
        has_admin user' phone' j
          (if have_none T (T.select db (is_admin user phone i)) then T.insert db row else db)
        ≡ (has_admin user' phone' j db || (same_user user phone user' phone' && item_beq i j))
  unfolding has_admin everything
  added_one user phone user' phone' i j db = elim (Bool-cases (has_admin user phone i db)) [
    | inl h ↦ rw (is_held user phone i db, h) (already user phone user' phone' i j db h)
    | inr h ↦
        rw (is_held user phone i db, h)
          (lawful.any-insert db (is_admin user' phone' j)
              (record { user = user; phone = phone; admin = i.name; role = i.role })
            ∙ or_comm (same_user user phone user' phone' && item_beq i j)
                (has_admin user' phone' j db))
  ]

  removed_one :
      (user phone user' phone' : List ℕ) (i j : SysAdminItem) (db : T.State)
      → has_admin user' phone' j (T.remove db (is_admin user phone i))
        ≡ (has_admin user' phone' j db && not (same_user user phone user' phone' && item_beq i j))
  unfolding has_admin everything
  removed_one user phone user' phone' i j db =
      lawful.any-remove db (is_admin user' phone' j) (is_admin user phone i)
      ∙ elim (Bool-cases (same_user user phone user' phone' && item_beq i j)) [
        | inl t ↦ rw t (
            nobody (is_admin user' phone' j) (is_admin user phone i)
              (λ row. same_test user phone user' phone' i j row t) (T.select db (λ r. true))
            ∙ sym (and_false (has_admin user' phone' j db)))
        | inr t ↦ rw t (
            any_same _ _ (T.select db (λ r. true))
              (λ row. untouched user phone user' phone' i j row t)
            ∙ sym (and_true (has_admin user' phone' j db)))
      ]

  has-added :
      (user phone user' phone' : List ℕ) (items : List SysAdminItem) (j : SysAdminItem)
      (db : T.State)
      → has_admin user' phone' j (sadd_sys_admin T user phone items db)
        ≡ (has_admin user' phone' j db || (same_user user phone user' phone' && lists j items))
  unfolding sadd_sys_admin
  has-added user phone user' phone' [] j db =
      or_nothing (has_admin user' phone' j db) (same_user user phone user' phone')
  has-added user phone user' phone' (i ∷ items) j db =
      has-added user phone user' phone' items j (
        if have_none T (T.select db (is_admin user phone i))
        then T.insert db (record { user = user; phone = phone; admin = i.name; role = i.role })
        else db)
      ∙ ap (λ b. b || (same_user user phone user' phone' && lists j items))
          (added_one user phone user' phone' i j db)
      ∙ rw (item_beq_sym i j) (
          or_joined (has_admin user' phone' j db) (same_user user phone user' phone') (item_beq j i)
            (lists j items))

  has-removed :
      (user phone user' phone' : List ℕ) (items : List SysAdminItem) (j : SysAdminItem)
      (db : T.State)
      → has_admin user' phone' j (sdel_sys_admin T user phone items db)
        ≡ (has_admin user' phone' j db && not (same_user user phone user' phone' && lists j items))
  unfolding sdel_sys_admin
  has-removed user phone user' phone' [] j db =
      and_nothing (has_admin user' phone' j db) (same_user user phone user' phone')
  has-removed user phone user' phone' (i ∷ items) j db =
      has-removed user phone user' phone' items j (T.remove db (is_admin user phone i))
      ∙ ap (λ b. b && not (same_user user phone user' phone' && lists j items))
          (removed_one user phone user' phone' i j db)
      ∙ rw (item_beq_sym i j) (
          and_joined (has_admin user' phone' j db) (same_user user phone user' phone')
            (item_beq j i) (lists j items))

  -- The administrators that are listed for a user are a set to which `saddSysAdmin` adds those that it is
  -- given, and from which `sdelSysAdmin` takes them, for that user and no other, whatever was there
  -- and however often one is given. The table keeps what a table of the database promises.
  pub sys_admins_set :
      (user phone user' phone' : List ℕ) (admins : List SysAdminItem) (j : SysAdminItem)
      (db : T.State)
      → let same = same_user user phone user' phone' in
        let before = lists j (sget_sys_admin T user' phone' db) in
        (lists j (sget_sys_admin T user' phone' (sadd_sys_admin T user phone admins db))
          ≡ (before || (same && lists j admins)))
        × (lists j (sget_sys_admin T user' phone' (sdel_sys_admin T user phone admins db))
            ≡ (before && not (same && lists j admins)))
  sys_admins_set user phone user' phone' admins j db = rw (listed user' phone' j db) (
    listed user' phone' j (sadd_sys_admin T user phone admins db)
        ∙ has-added user phone user' phone' admins j db,
    listed user' phone' j (sdel_sys_admin T user phone admins db)
        ∙ has-removed user phone user' phone' admins j db,
  )
