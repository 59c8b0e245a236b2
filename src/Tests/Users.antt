-- ===== src/Tests/Users.antt =====
-- Users.
use sm.Base.{
  ℕ, ◌<◌, ◌≡◌, refl, ◌≢◌, ◌↔◌, true, false, List, [], ◌∷◌, ◌++◌, arith, if◌then◌else◌, length,
}
use sm.Base.Map.{list_beq}
use sm.Db.Users.{UserRow, Query, ok, item, slogin, sget_user_gen_info}
use sm.Db.Users.Login.{by_name, by_phone, slogin_decides}
use sm.Db.Users.Cache.{sget_user_gen_info_keeps_last}

abbrev ann : List ℕ
ann = b'a' ∷ b'n' ∷ []

abbrev bob : List ℕ
bob = b'b' ∷ b'o' ∷ []

abbrev number : List ℕ
number = b'1' ∷ []

-- Two users of one phone.
abbrev ann_row : UserRow
ann_row = record { name = ann; passwd = b'x' ∷ []; phone = number; expiredate = 0 }

abbrev bob_row : UserRow
bob_row = record { name = bob; passwd = b'y' ∷ []; phone = number; expiredate = 0 }

abbrev where_rows : Query
where_rows condition =
    (if condition ann_row then ann_row ∷ [] else [])
    ++ (if condition bob_row then bob_row ∷ [] else [])

slogin_decides_example :
    (0 < length ann
      → ((slogin where_rows ann [] (b'x' ∷ [])).has_token ≡ true)
        ↔ (by_name where_rows ann (b'x' ∷ []) ≢ []))
    × (0 < length number
        → ((slogin where_rows [] number (b'x' ∷ [])).has_token ≡ true)
          ↔ (by_phone where_rows number (b'x' ∷ []) ≢ []))
    × (0 < length ann
        → 0 < length number
        → slogin where_rows ann number (b'x' ∷ [])
          ≡ record { code = 30004; username = ann; has_token = false })
    × ((slogin where_rows [] [] (b'x' ∷ [])).code ≡ 30000)
slogin_decides_example = slogin_decides where_rows ann number (b'x' ∷ [])

sget_user_gen_info_keeps_last_example :
    let (rep, cache') = sget_user_gen_info where_rows 1 [] [] [] in
    (rep.users ≡ [])
    × ((sget_user_gen_info where_rows 0 bob number cache').0
        ≡ record { code = ok; users = item bob_row ∷ item bob_row ∷ [] })
    × ((other : List ℕ)
        → 0 < length other
        → list_beq bob other ≡ false
        → (sget_user_gen_info where_rows 0 other number cache').0.code ≡ 20001)
sget_user_gen_info_keeps_last_example =
    sget_user_gen_info_keeps_last where_rows 0 [] [] number bob_row [] refl (omega arith)
