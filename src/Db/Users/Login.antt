-- ===== src/Db/Users/Login.antt =====
-- Who is let in.
use sm.Base.{ℕ, ◌<◌, ◌≡◌, refl, ◌≢◌, ◌↔◌, true, false, ◌&&◌, List, [], ◌∷◌, arith, length}
use sm.Base.Map.{list_beq}
use sm.Db.Users.{
  UserRow, Query, invalid_user_or_phone, wrong_user_or_phone_or_pass, checked, slogin,
}

-- The rows that a log-in by name, or by phone, asks for.
abbrev pub by_name : Query → List ℕ → List ℕ → List UserRow
by_name query username password =
    query (λ row. list_beq row.name username && list_beq row.passwd password)

abbrev pub by_phone : Query → List ℕ → List ℕ → List UserRow
by_phone query phone password =
    query (λ row. list_beq row.phone phone && list_beq row.passwd password)

-- There is a token exactly if there is a row.
token_ok :
    (rows : List UserRow) (username : List ℕ)
    → ((checked rows username).has_token ≡ true) ↔ (rows ≢ [])
unfolding checked
token_ok [] username = ((λ e. absurd cc), (λ h. absurd (h refl)))
token_ok (row ∷ rows) username = ((λ _ e. absurd cc), (λ _. refl))

pub slogin-by_name :
    (query : Query) (username password : List ℕ)
    → 0 < length username
    → slogin query username [] password ≡ checked (by_name query username password) username
unfolding slogin
slogin-by_name query [] password h = absurd (omega arith)
slogin-by_name query (c ∷ username) password h = refl

slogin-by_phone :
    (query : Query) (phone password : List ℕ)
    → 0 < length phone
    → slogin query [] phone password ≡ checked (by_phone query phone password) []
unfolding slogin
slogin-by_phone query [] password h = absurd (omega arith)
slogin-by_phone query (c ∷ phone) password h = refl

slogin_by_both :
    (query : Query) (username phone password : List ℕ)
    → 0 < length username
    → 0 < length phone
    → slogin query username phone password
      ≡ record { code = wrong_user_or_phone_or_pass; username = username; has_token = false }
unfolding slogin checked
slogin_by_both query [] phone password h k = absurd (omega arith)
slogin_by_both query (c ∷ username) [] password h k = absurd (omega arith)
slogin_by_both query (c ∷ username) (d ∷ phone) password h k = refl

-- A log-in by name alone, or by phone alone, gives a token exactly if the database has a row with
-- that name or phone and the password. With both given it gives none, whatever the database
-- holds: the row that was counted is not looked at. With neither the request is refused as invalid.
pub slogin_decides :
    (query : Query) (username phone password : List ℕ)
    → (0 < length username
        → ((slogin query username [] password).has_token ≡ true)
          ↔ (by_name query username password ≢ []))
      × (0 < length phone
          → ((slogin query [] phone password).has_token ≡ true)
            ↔ (by_phone query phone password ≢ []))
      × (0 < length username
          → 0 < length phone
          → slogin query username phone password
            ≡ record { code = wrong_user_or_phone_or_pass; username = username; has_token = false })
      × ((slogin query [] [] password).code ≡ invalid_user_or_phone)
unfolding slogin
slogin_decides query username phone password = (
  (λ h.
      rw (slogin-by_name query username password h)
        (token_ok (by_name query username password) username)),
  (λ h. rw (slogin-by_phone query phone password h) (token_ok (by_phone query phone password) [])),
  slogin_by_both query username phone password,
  refl,
)
