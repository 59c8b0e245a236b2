-- ===== src/Db/Regist.antt =====
-- database/CommonDBProcess.cpp `sregist` and `sgetAllUsers`, over the table of users. Tokens are left
-- out, but for whether one is made.
pub mod Login
use sm.Base.{
  ℕ, zero, suc, ◌+◌, ◌-◌, ◌*◌, ◌/◌, ◌%◌, ◌^◌, ◌≤◌, ◌<◌, ◌≡◌, refl, sym, ap, ap₂, ◌∙◌, fun_ext, ◌≢◌,
  ◌↔◌, ◌⊎◌, inl, inr, Bool, true, false, not, ◌&&◌, ◌||◌, Option, none, some, List, [], ◌∷◌, ◌++◌,
  append-nil, append_assoc, map, arith, ltb, leb, ◌==◌, if◌then◌else◌, ltb→lt, lt→ltb, le→ltb,
  ==→eq, ==_refl, tests, Bool-cases, Option-cases, length, take, drop, length-append, take-append,
  drop-append, drop-append_cons, take-append_at, drop-append_at, take-append_drop, take_of_length,
  drop_of_length, length-drop, length-take, take-append_le, drop-append_le, All, Bytes, dec_lt,
  dec_le, ℕ_discrete,
}
use sm.Base.Map.{list_beq}
use sm.Db.Table.{Table}
use sm.Db.Users.{UserRow, ok}

-- `statusCode::registNameRepeat`
abbrev pub regist_name_repeat : ℕ
regist_name_repeat = 30003

pub record RegistRep : Type 0 where
  pub code : ℕ
  pub user : List ℕ
  pub has_token : Bool

abbrev pub registered : List UserRow → List ℕ → RegistRep
registered [] username = record { code = ok; user = username; has_token = true }
registered (row ∷ rows) username = record {
  code = regist_name_repeat;
  user = username;
  has_token = false;
}

-- The column of the date is not set; `unset` is what the database holds then.
unfoldable pub sregist :
    (T : Table UserRow) → ℕ → List ℕ → List ℕ → List ℕ → T.State → RegistRep × T.State
sregist T unset username password phone db =
    let have = T.select db (λ row. list_beq row.name username) in
    let row : UserRow = record {
      name = username;
      passwd = password;
      phone = phone;
      expiredate = unset;
    } in
    (registered have username, elim have [ [] ↦ T.insert db row | (old ∷ rest) ↦ db ])

-- `sgetAllUsers`: name and phone of every row.
unfoldable pub sget_all_users : (T : Table UserRow) → T.State → List (List ℕ × List ℕ)
sget_all_users T db = map (λ (row : UserRow). (row.name, row.phone)) (T.select db (λ row. true))
