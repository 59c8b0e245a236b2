-- ===== src/Utils/MainCmd.antt =====
-- inc/enums.h `enum class MainCmd`, by its numbers: a head that is read may hold any other.
use sm.Base.{ℕ}

abbrev pub main_cmd_begin : ℕ
main_cmd_begin = 1

abbrev pub no_main_ass : ℕ
no_main_ass = 2

abbrev pub default_main : ℕ
default_main = 3

abbrev pub echo : ℕ
echo = 4

abbrev pub user : ℕ
user = 5

abbrev pub db_query : ℕ
db_query = 6

abbrev pub rdb_query : ℕ
rdb_query = 7
