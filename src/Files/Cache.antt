-- ===== src/Files/Cache.antt =====
-- hotupdate/FilePathMonitor.cpp: the files by path, and their renewal when they change. The map is a
-- trie of a library, the paths are joined by the standard library, and the queue of the changed paths
-- gives a list. The objects of the files stand in a store with the count of their shared pointers:
-- the map has one, and each coroutine that has not come to its end.
pub mod Counts
pub mod Renewal
use sm.Base.{
  ℕ, zero, suc, ◌+◌, ◌-◌, ◌*◌, ◌/◌, ◌%◌, ◌^◌, ◌≤◌, ◌<◌, ◌≡◌, refl, sym, ap, ap₂, ◌∙◌, fun_ext, ◌≢◌,
  ◌↔◌, ◌⊎◌, inl, inr, Bool, true, false, not, ◌&&◌, ◌||◌, Option, none, some, List, [], ◌∷◌, ◌++◌,
  append-nil, append_assoc, map, arith, ltb, leb, ◌==◌, if◌then◌else◌, ltb→lt, lt→ltb, le→ltb,
  ==→eq, ==_refl, tests, Bool-cases, Option-cases, length, take, drop, length-append, take-append,
  drop-append, drop-append_cons, take-append_at, drop-append_at, take-append_drop, take_of_length,
  drop_of_length, length-drop, length-take, take-append_le, drop-append_le, All, Bytes, dec_lt,
  dec_le, ℕ_discrete,
}
use sm.Base.Map.{find, assign, erase, nat_eq}
use sm.Files.Load.{FileOp, new_file, Get, returns, loads, waits, overruns, async_get_data}

-- A map from paths to objects, given by their numbers.
pub record FileMap : Type 1 where
  pub State : Type 0
  pub nothing : State
  pub lookup : List ℕ → State → Option ℕ
  pub insert : List ℕ → ℕ → State → State
  pub erase : List ℕ → State → State

-- An object, and how many shared pointers it has.
pub record Shared : Type 0 where
  pub refs : ℕ
  pub file : FileOp

-- `_files`, the objects that are not destroyed, and the number of the next one.
pub record Monitor (M : FileMap) : Type 0 where
  pub files : M.State
  pub objects : List (ℕ × Shared)
  pub next : ℕ

unfoldable pub retain : ℕ → List (ℕ × Shared) → List (ℕ × Shared)
retain id objects = elim (find id objects) [
  | none ↦ objects
  | some o ↦ assign id (record o { refs = suc o.refs }) objects
]

-- The end of a shared pointer; the last one destroys the object.
unfoldable pub release_one : ℕ → Option Shared → List (ℕ × Shared) → List (ℕ × Shared)
release_one id none objects = objects
release_one id (some o) objects =
    if leb o.refs 1 then erase id objects else assign id (record o { refs = o.refs - 1 }) objects

unfoldable pub release : ℕ → List (ℕ × Shared) → List (ℕ × Shared)
release id objects = release_one id (find id objects) objects

-- `p.append(&path[1])`, of a URL that begins with a slash.
unfoldable pub abs_path : (List ℕ → List ℕ → List ℕ) → List ℕ → List ℕ → Option (List ℕ)
abs_path join root [] = none
abs_path join root (c ∷ rest) = if c == 47 then some (join root rest) else none

-- Whether a coroutine that uses an object goes on to use it.
unfoldable pub kept_by : Get → ℕ → List (ℕ × Shared) → List (ℕ × Shared)
kept_by (returns bytes) id objects = objects
kept_by loads id objects = retain id objects
kept_by waits id objects = retain id objects
kept_by overruns id objects = retain id objects

module _ (M : FileMap) where
  unfoldable pub new_monitor : Monitor M
  new_monitor = record { files = M.nothing; objects = []; next = 0 }

  -- The object of a path, made where there is none.
  unfoldable pub file_of : List ℕ → Monitor M → ℕ × Monitor M
  file_of path m = elim (M.lookup path m.files) [
    | some id ↦ (id, m)
    | none ↦ (
      m.next,
      record {
        files = M.insert path m.next m.files;
        objects = assign m.next (record { refs = 1; file = new_file }) m.objects;
        next = suc m.next;
      },
    )
  ]

  -- The use of an object, up to the first wait.
  unfoldable pub ask : Bool → ℕ → ℕ × Monitor M → Get × ℕ × Monitor M
  ask async_files size (id, m) = elim (find id m.objects) [
    | none ↦ (returns [], id, m)
    | some o ↦
        let (get, f') = async_get_data async_files size o.file in
        (
          get,
          id,
          record m { objects = kept_by get id (assign id (record o { file = f' }) m.objects) },
        )
  ]

  -- `asyncGetResource`; a URL without a slash in front gets nothing, and no object.
  unfoldable pub async_get_resource :
      Bool
      → (List ℕ → List ℕ → List ℕ)
      → List ℕ
      → ℕ
      → List ℕ
      → Monitor M
      → Option (Get × ℕ × Monitor M)
  async_get_resource async_files join root size url m = elim (abs_path join root url) [
    | none ↦ none
    | some path ↦ some (ask async_files size (file_of path m))
  ]

  -- The end of a coroutine that waited: by `finish_load` where it read the file, and with what the
  -- file holds where it waited for another one that did. Its result is a view into the object.
  unfoldable pub end_resource :
      (FileOp → List ℕ × FileOp) → ℕ → Monitor M → Option (List ℕ) × Monitor M
  end_resource finish id m = elim (find id m.objects) [
    | none ↦ (none, m)
    | some o ↦
        let (rep, f') = finish o.file in
        (some rep, record m { objects = release id (assign id (record o { file = f' }) m.objects) })
  ]

  -- `_files.erase(path)`
  unfoldable pub erase_path : List ℕ → Monitor M → Monitor M
  erase_path path m = elim (M.lookup path m.files) [
    | none ↦ m
    | some id ↦ record m { files = M.erase path m.files; objects = release id m.objects }
  ]

  -- A round of `waitHotUpdate`, for the paths that the queue gives.
  unfoldable pub hot_update : List (List ℕ) → Monitor M → Monitor M
  hot_update [] m = m
  hot_update (path ∷ paths) m = hot_update paths (erase_path path m)
