-- ===== src/Db/Users/Cache.antt =====
-- What the cache of users holds and gives.
use sm.Base.{
  ℕ, suc, ◌<◌, ◌≡◌, refl, ap, ◌∙◌, Bool, true, false, Option, none, some, List, [], ◌∷◌, arith,
  if◌then◌else◌, length,
}
use sm.Base.Map.{find, assign, bytes_eq, beq_refl, find-assign, list_beq, or_else}
use sm.Db.Users.{
  UserRow, Query, UserGenInfoItem, GenUsers, ok, item, wanted, load, cached, is_empty,
  sget_user_gen_info,
}

is_empty_full : (xs : List ℕ) → 0 < length xs → is_empty xs ≡ false
is_empty_full [] h = absurd (omega arith)
is_empty_full (x ∷ xs) h = refl

-- The last row of a phone.
abbrev pub last_of : List ℕ → List UserRow → Option UserRow
last_of phone [] = none
last_of phone (row ∷ rows) =
    let later = last_of phone rows in
    or_else later (if list_beq row.phone phone then some row else none)

abbrev pub only : Option UserRow → Option (List (List ℕ × UserGenInfoItem))
only none = none
only (some row) = some ((row.name, item row) ∷ [])

-- Of the rows that are loaded the cache keeps the last of each phone: the users of the same phone
-- that came before it are gone, those of phones without a row stay.
pub find-load :
    (phone : List ℕ) (rows : List UserRow) (cache : GenUsers)
    → find phone (load rows cache) ≡ or_else (only (last_of phone rows)) (find phone cache)
unfolding load
find-load phone [] cache = refl
find-load phone (row ∷ rows) cache =
    find-load phone rows (assign row.phone ((row.name, item row) ∷ []) cache)
    ∙ rw (find-assign row.phone phone ((row.name, item row) ∷ []) cache)
        (later (last_of phone rows) (list_beq row.phone phone))
  where
    later :
        (o : Option UserRow) (b : Bool)
        → or_else (only o) (if b then some ((row.name, item row) ∷ []) else find phone cache)
          ≡ or_else (only (or_else o (if b then some row else none))) (find phone cache)
    later (some row') b = refl
    later none true = refl
    later none false = refl

asked_twice :
    (row : UserRow)
    → 0 < length row.name
    → cached row.name (some ((row.name, item row) ∷ []))
      ≡ record { code = ok; users = item row ∷ item row ∷ [] }
unfolding cached find
asked_twice row h = rw (is_empty_full row.name h, beq_refl row.name)

asked_other :
    (row : UserRow) (user : List ℕ)
    → 0 < length user
    → list_beq row.name user ≡ false
    → cached user (some ((row.name, item row) ∷ []))
      ≡ record { code = 20001; users = item row ∷ [] }
unfolding cached find
asked_other row user h other = rw (is_empty_full user h, other)

-- A request from the database answers with no user, and fills the cache; a request from the cache
-- for a phone then knows only the user of the last row of the phone, whom it gives twice when asked
-- for by name. For any other name, also that of another row of the phone, it gives the code 20001.
pub sget_user_gen_info_keeps_last :
    (query : Query) (fromdb : ℕ) (user phone phone' : List ℕ) (row : UserRow) (cache : GenUsers)
    → last_of phone' (query (wanted user phone)) ≡ some row
    → 0 < length row.name
    → let (rep, cache') = sget_user_gen_info query (suc fromdb) user phone cache in
      (rep.users ≡ [])
      × ((sget_user_gen_info query 0 row.name phone' cache').0
          ≡ record { code = ok; users = item row ∷ item row ∷ [] })
      × ((other : List ℕ)
          → 0 < length other
          → list_beq row.name other ≡ false
          → (sget_user_gen_info query 0 other phone' cache').0.code ≡ 20001)
unfolding sget_user_gen_info
sget_user_gen_info_keeps_last query fromdb user phone phone' row cache last named =
    let kept : find phone' (load (query (wanted user phone)) cache)
        ≡ some ((row.name, item row) ∷ []) =
      find-load phone' (query (wanted user phone)) cache
      ∙ ap (λ o. or_else (only o) (find phone' cache)) last in
    (
      refl,
      ap (cached row.name) kept ∙ asked_twice row named,
      λ other full differs.
          ap (λ o. (cached other o).code) kept
          ∙ ap (λ r. r.code) (asked_other row other full differs),
    )
