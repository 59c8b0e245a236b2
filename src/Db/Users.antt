-- ===== src/Db/Users.antt =====
-- database/CommonDBProcess.cpp: `slogin` and `sgetUserGenInfo`; database/UserManager.cpp. A query is
-- a parameter that gives the rows for a condition. Tokens are left out, but for whether one is made.
pub mod Login
pub mod Cache
use sm.Base.{
  ℕ, zero, suc, ◌+◌, ◌-◌, ◌*◌, ◌/◌, ◌%◌, ◌^◌, ◌≤◌, ◌<◌, ◌≡◌, refl, sym, ap, ap₂, ◌∙◌, fun_ext, ◌≢◌,
  ◌↔◌, ◌⊎◌, inl, inr, Bool, true, false, not, ◌&&◌, ◌||◌, Option, none, some, List, [], ◌∷◌, ◌++◌,
  append-nil, append_assoc, map, arith, ltb, leb, ◌==◌, if◌then◌else◌, ltb→lt, lt→ltb, le→ltb,
  ==→eq, ==_refl, tests, Bool-cases, Option-cases, length, take, drop, length-append, take-append,
  drop-append, drop-append_cons, take-append_at, drop-append_at, take-append_drop, take_of_length,
  drop_of_length, length-drop, length-take, take-append_le, drop-append_le, All, Bytes, dec_lt,
  dec_le, ℕ_discrete,
}
use sm.Base.Map.{find, assign, bytes_eq, list_beq}

-- A row of the table of users.
pub record UserRow : Type 0 where
  pub name : List ℕ
  pub passwd : List ℕ
  pub phone : List ℕ
  pub expiredate : ℕ

abbrev pub Query : Type 0
Query = (UserRow → Bool) → List UserRow

-- `statusCode` of inc/enums.h.
abbrev pub ok : ℕ
ok = 20000

abbrev pub invalid_user_or_phone : ℕ
invalid_user_or_phone = 30000

abbrev pub wrong_user_or_phone_or_pass : ℕ
wrong_user_or_phone_or_pass = 30004

pub record LoginRep : Type 0 where
  pub code : ℕ
  pub username : List ℕ
  pub has_token : Bool

abbrev pub is_empty : List ℕ → Bool
is_empty [] = true
is_empty (x ∷ xs) = false

-- The row loop of `slogin` takes the first row, `bchecked` and the rest of the function follow.
unfoldable pub checked : List UserRow → List ℕ → LoginRep
checked [] username = record {
  code = wrong_user_or_phone_or_pass;
  username = username;
  has_token = false;
}
checked (row ∷ rows) username = record { code = ok; username = row.name; has_token = true }

unfoldable pub slogin : Query → List ℕ → List ℕ → List ℕ → LoginRep
slogin query username phone password =
    if not (is_empty username) && not (is_empty phone)
    then checked [] username
    else (if not (is_empty username)
        then checked (query (λ row. list_beq row.name username && list_beq row.passwd password))
            username
        else (if not (is_empty phone)
            then checked (query (λ row. list_beq row.phone phone && list_beq row.passwd password))
                username
            else record { code = invalid_user_or_phone; username = username; has_token = false }))

-- `UserGenInfoItem`; `logincount` is not set here.
pub record UserGenInfoItem : Type 0 where
  pub user : List ℕ
  pub phone : List ℕ
  pub expire : ℕ

-- `_genUsers`: by phone, then by user, each listed in the order of its keys.
abbrev pub GenUsers : Type 0
GenUsers = List (List ℕ × List (List ℕ × UserGenInfoItem))

pub record GetUserGenInfoRep : Type 0 where
  pub code : ℕ
  pub users : List UserGenInfoItem

-- The count of seconds is narrowed to an `int`, whose bits are kept here.
abbrev pub item : UserRow → UserGenInfoItem
item row = record { user = row.name; phone = row.phone; expire = row.expiredate % 2 ^ 32 }

-- The loop over the rows clears the users of a phone before it adds one.
unfoldable pub load : List UserRow → GenUsers → GenUsers
load [] cache = cache
load (row ∷ rows) cache = load rows (assign row.phone ((row.name, item row) ∷ []) cache)

-- Conditions are added for what the request has.
abbrev pub wanted : List ℕ → List ℕ → UserRow → Bool
wanted user phone row =
    (is_empty user || list_beq row.name user) && (is_empty phone || list_beq row.phone phone)

abbrev pub items : List (List ℕ × UserGenInfoItem) → List UserGenInfoItem
items [] = []
items ((k, v) ∷ m) = v ∷ items m

-- The user that was asked for, and then all users of the phone.
unfoldable pub cached : List ℕ → Option (List (List ℕ × UserGenInfoItem)) → GetUserGenInfoRep
cached user none = record { code = 20002; users = [] }
cached user (some of_phone) =
    if is_empty user
    then record { code = ok; users = items of_phone }
    else elim (find user of_phone) [
      | some found ↦ record { code = ok; users = found ∷ items of_phone }
      | none ↦ record { code = 20001; users = items of_phone }
    ]

unfoldable pub sget_user_gen_info :
    Query → ℕ → List ℕ → List ℕ → GenUsers → GetUserGenInfoRep × GenUsers
sget_user_gen_info query zero user phone cache = (cached user (find phone cache), cache)
sget_user_gen_info query (suc fromdb) user phone cache =
    (record { code = ok; users = [] }, load (query (wanted user phone)) cache)

-- UserManager.cpp: `addUserInfo` replaces what is there, and answers no then.
unfoldable pub add_user_info :
    List ℕ
    → UserGenInfoItem
    → List (List ℕ × UserGenInfoItem)
    → Bool × List (List ℕ × UserGenInfoItem)
add_user_info phone info m = elim (find phone m) [
  | some old ↦ (false, assign phone info m)
  | none ↦ (true, assign phone info m)
]

unfoldable pub get_user_info : List ℕ → List (List ℕ × UserGenInfoItem) → Option UserGenInfoItem
get_user_info phone m = find phone m
