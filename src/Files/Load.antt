-- ===== src/Files/Load.antt =====
-- hotupdate/FileOp.cpp, _fileOpASync.cpp and _fileOpSync.cpp: a file that is read when it is first
-- asked for. What the system says of the file is a parameter.
pub mod Zeros
use sm.Base.{
  ℕ, zero, suc, ◌+◌, ◌-◌, ◌*◌, ◌/◌, ◌%◌, ◌^◌, ◌≤◌, ◌<◌, ◌≡◌, refl, sym, ap, ap₂, ◌∙◌, fun_ext, ◌≢◌,
  ◌↔◌, ◌⊎◌, inl, inr, Bool, true, false, not, ◌&&◌, ◌||◌, Option, none, some, List, [], ◌∷◌, ◌++◌,
  append-nil, append_assoc, map, arith, ltb, leb, ◌==◌, if◌then◌else◌, ltb→lt, lt→ltb, le→ltb,
  ==→eq, ==_refl, tests, Bool-cases, Option-cases, length, take, drop, length-append, take-append,
  drop-append, drop-append_cons, take-append_at, drop-append_at, take-append_drop, take_of_length,
  drop_of_length, length-drop, length-take, take-append_le, drop-append_le, All, Bytes, dec_lt,
  dec_le, ℕ_discrete,
}

-- `_datalen` and `_datas`.
pub record FileOp : Type 0 where
  pub datalen : ℕ
  pub datas : List ℕ

unfoldable pub new_file : FileOp
new_file = record { datalen = 0; datas = [] }

-- `dst.resize(len)` of an empty text.
abbrev pub zeros : ℕ → List ℕ
zeros zero = []
zeros (suc n) = 0 ∷ zeros n

-- `getFileSize`: what the system says, zero where there is no file, is kept.
unfoldable pub get_file_size : ℕ → FileOp → ℕ × FileOp
get_file_size size f =
    if f.datalen == 0 then (size, record f { datalen = size }) else (f.datalen, f)

-- `asyncGetData` up to its first wait: it returns, starts to read, or waits for who reads. Where the
-- system has no asynchronous files the bytes are read to behind an empty text.
pub data Get : Type 0 where
  returns : List ℕ → Get
  loads : Get
  waits : Get
  overruns : Get

unfoldable pub load : Bool → ℕ × FileOp → Get × FileOp
load async_files (zero, f) = (returns [], f)
load async_files (suc n, f) =
    if async_files then (loads, record f { datas = zeros (suc n) }) else (overruns, f)

unfoldable pub async_get_data : Bool → ℕ → FileOp → Get × FileOp
async_get_data async_files size f = elim f.datas [
  | b ∷ bs ↦ (returns f.datas, f)
  | [] ↦ if f.datalen == 0 then load async_files (get_file_size size f) else (waits, f)
]

-- The end of the reading: `async_read_some_at` brought some bytes, or it threw, which is caught; the
-- result is `_datas` in both cases.
unfoldable pub finish_load : Option (List ℕ) → FileOp → List ℕ × FileOp
finish_load none f = (f.datas, f)
finish_load (some bytes) f =
    let datas = bytes ++ drop (length bytes) f.datas in (datas, record f { datas = datas })

-- Where the file does not open, it is read synchronously, into the text that has its size by then: some
-- bytes, or none where it does not open either.
unfoldable pub finish_load_sync : Option (List ℕ) → FileOp → List ℕ × FileOp
finish_load_sync none f = (f.datas, f)
finish_load_sync (some bytes) f =
    let datas = bytes ++ drop (length bytes) f.datas in (datas, record f { datas = datas })
