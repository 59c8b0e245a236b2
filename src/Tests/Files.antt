-- ===== src/Tests/Files.antt =====
-- The files of the HTTP server, over a map that is a list.
use sm.Base.{ℕ, ◌<◌, ◌≡◌, refl, true, false, some, List, [], ◌∷◌, ◌++◌, arith, length}
use sm.Base.Map.{find, assign, erase, nat_eq, bytes_eq, find-assign, find-erase}
use sm.Files.Load.{new_file, Get, returns, loads, async_get_data, finish_load}
use sm.Files.Load.Zeros.{served_while_read}
use sm.Files.Cache.{FileMap, Shared, Monitor, new_monitor, abs_path, async_get_resource, hot_update}
use sm.Files.Cache.Counts.{IsLawful, Use, asks, finishes, use_all}
use sm.Files.Cache.Renewal.{has_path, left_of, hot_update_reloads}

served_while_read_example :
    let (first, f) = async_get_data true 3 new_file in
    let (result, f') = finish_load (some (7 ∷ 8 ∷ [])) f in
    (first ≡ loads)
    × (async_get_data true 9 f ≡ (returns (0 ∷ 0 ∷ 0 ∷ []), f))
    × (result ≡ 7 ∷ 8 ∷ 0 ∷ [])
    × (async_get_data true 9 f' ≡ (returns (7 ∷ 8 ∷ 0 ∷ []), f'))
served_while_read_example = served_while_read 3 9 (7 ∷ 8 ∷ []) 1 refl (omega arith)

abbrev list_map : FileMap
list_map = record {
  State = List (List ℕ × ℕ);
  nothing = [];
  lookup = λ path m. find path m;
  insert = λ path id m. assign path id m;
  erase = λ path m. erase path m;
}

list_map-IsLawful : IsLawful list_map
unfolding find
list_map-IsLawful = record {
  lookup-nothing = λ path. refl;
  lookup-insert = λ path other id m e. find-assign path other id m;
  lookup-erase = λ path other m. find-erase path other m;
}

-- The root, a slash, and the rest of the URL.
abbrev join : List ℕ → List ℕ → List ℕ
join root rest = root ++ (47 ∷ rest)

-- A resource is read, and another one is being read.
abbrev uses : List Use
uses =
    asks true 2 (47 ∷ 2 ∷ [])
    ∷ finishes (finish_load (some (7 ∷ 8 ∷ []))) 0
    ∷ asks true 1 (47 ∷ 3 ∷ [])
    ∷ []

abbrev monitor : Monitor list_map
monitor = use_all list_map join (1 ∷ []) uses (new_monitor list_map)

hot_update_reloads_example :
    let path : List ℕ = 1 ∷ 47 ∷ 2 ∷ [] in
    let m' = hot_update list_map (path ∷ []) monitor in
    (get : Get) × (id : ℕ) × (m'' : Monitor list_map) × (async_get_resource list_map true join
        (1 ∷ [])
        3
        (47 ∷ 2 ∷ [])
        m'
      ≡ some (get, id, m''))
    × (has_path path (path ∷ []) ≡ true
        → (get ≡ loads)
          × (id ≡ monitor.next)
          × ((old : ℕ) (o : Shared)
              → list_map.lookup path monitor.files ≡ some old
              → find old monitor.objects ≡ some o
              → find old m''.objects ≡ left_of o))
    × ((old refs datalen : ℕ) (datas : List ℕ)
        → has_path path (path ∷ []) ≡ false
        → list_map.lookup path monitor.files ≡ some old
        → find old monitor.objects
          ≡ some (record { refs = refs; file = record { datalen = datalen; datas = datas } })
        → 0 < length datas
        → (get ≡ returns datas) × (find old m'.objects ≡ find old monitor.objects))
unfolding abs_path
hot_update_reloads_example =
    hot_update_reloads list_map list_map-IsLawful join (1 ∷ []) (47 ∷ 2 ∷ []) (1 ∷ 47 ∷ 2 ∷ [])
      ((1 ∷ 47 ∷ 2 ∷ []) ∷ []) 2 uses refl
