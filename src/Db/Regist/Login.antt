-- ===== src/Db/Regist/Login.antt =====
-- A user who registers, and then logs in.
use sm.Base.{
  ℕ, ◌<◌, ◌≡◌, refl, sym, ap, ◌∙◌, ◌↔◌, Bool, true, false, ◌&&◌, ◌||◌, List, [], ◌∷◌, arith, length,
}
use sm.Base.Map.{list_beq, list_beq_refl}
use sm.Db.Table.{Table, IsLawful, any}
use sm.Db.Users.{UserRow, ok, checked, slogin}
use sm.Db.Users.Login.{slogin-by_name}
use sm.Db.Regist.{regist_name_repeat, sregist}

has_token-any :
    (rows : List UserRow) (username : List ℕ)
    → (checked rows username).has_token ≡ any (λ r. true) rows
unfolding checked
has_token-any [] username = refl
has_token-any (row ∷ rows) username = refl

-- The rows with a name and a password are among those with the name.
any_narrower :
    (p q : UserRow → Bool) (rows : List UserRow)
    → any p rows ≡ false
    → any (λ r. p r && q r) rows ≡ false
any_narrower p q [] h = refl
any_narrower p q (row ∷ rows) h = ground (arith, any_narrower p q rows)

or_false : (b : Bool) → (b || false) ≡ b
or_false true = refl
or_false false = refl

empty_any : (rows : List UserRow) → (rows ≡ []) ↔ (any (λ r. true) rows ≡ false)
empty_any [] = (λ h. refl, λ h. refl)
empty_any (row ∷ rows) = (λ h. absurd cc, λ h. absurd cc)

module _ (T : Table UserRow) (lawful : IsLawful T) where
  new_name :
      (username : List ℕ) (db : T.State)
      → T.select db (λ row. list_beq row.name username) ≡ []
      → any (λ row. list_beq row.name username) (T.select db (λ r. true)) ≡ false
  new_name username db e =
      sym (lawful.any-select db (λ r. true) (λ row. list_beq row.name username))
      ∙ (empty_any (T.select db (λ row. list_beq row.name username))).0 e

  login_after :
      (unset : ℕ) (username password phone password' : List ℕ) (db : T.State)
      → 0 < length username
      → T.select db (λ row. list_beq row.name username) ≡ []
      → let row : UserRow = record {
        name = username;
        passwd = password;
        phone = phone;
        expiredate = unset;
      } in
        (slogin (T.select (T.insert db row)) username [] password').has_token
        ≡ list_beq password password'
  login_after unset username password phone password' db h e =
      let row : UserRow = record {
        name = username;
        passwd = password;
        phone = phone;
        expiredate = unset;
      } in
      let q : UserRow → Bool = λ row. list_beq row.name username && list_beq row.passwd password' in
      rw (slogin-by_name (T.select (T.insert db row)) username password' h) (
        has_token-any (T.select (T.insert db row) q) username
        ∙ lawful.any-select (T.insert db row) (λ r. true) q
        ∙ lawful.any-insert db q row
        ∙ ap (λ b. (list_beq username username && list_beq password password') || b)
            (any_narrower (λ row. list_beq row.name username) (λ row. list_beq row.passwd password')
              (T.select db (λ r. true)) (new_name username db e))
        ∙ rw (list_beq_refl username) (or_false (list_beq password password')))

  -- A name that no row has is registered: the answer is good and has a token, and from then on a log-in
  -- by that name alone gives a token exactly with the password that was registered. A name that a row
  -- has is refused, and nothing is changed. The table keeps what a table of the database promises.
  pub sregist-slogin :
      (unset : ℕ) (username password phone password' : List ℕ) (db : T.State)
      → 0 < length username
      → let have = T.select db (λ row. list_beq row.name username) in
        let (rep, db') = sregist T unset username password phone db in
        (have ≡ []
          → (rep ≡ record { code = ok; user = username; has_token = true })
            × ((slogin (T.select db') username [] password').has_token
                ≡ list_beq password password'))
        × ((old : UserRow) (rest : List UserRow)
            → have ≡ old ∷ rest
            → (rep ≡ record { code = regist_name_repeat; user = username; has_token = false })
              × (db' ≡ db))
  unfolding sregist
  sregist-slogin unset username password phone password' db h = (
    λ e. rw e (refl, login_after unset username password phone password' db h e),
    λ old rest e. rw e (refl, refl),
  )
