-- ===== src/Files/Cache/Renewal.antt =====
-- A file that changed is read anew, and the others are not.
use sm.Base.{
  ℕ, suc, ◌-◌, ◌<◌, ◌≡◌, refl, ap, ◌∙◌, ◌≢◌, inl, inr, Bool, true, false, ◌||◌, Option, none, some,
  List, [], ◌∷◌, arith, leb, ◌==◌, if◌then◌else◌, ==→eq, Bool-cases, Option-cases, length,
}
use sm.Base.Map.{
  find, assign, nat_eq, list_beq, list_beq_iff, find-assign, find-assign_self, find-erase,
  find-erase_self,
}
use sm.Files.Load.{new_file, Get, returns, loads, load, get_file_size, async_get_data}
use sm.Files.Load.Zeros.{filled_returns}
use sm.Files.Cache.{
  FileMap, Shared, Monitor, retain, release, release_one, kept_by, new_monitor, abs_path, file_of,
  ask, async_get_resource, erase_path, hot_update,
}
use sm.Files.Cache.Counts.{
  IsLawful, IsOwned, Use, use_all, lookup-erase_path, kept_path, next-erase_path,
  erase_path-IsOwned, use_all-IsOwned,
}

-- Whether a path is among some.
abbrev pub has_path : List ℕ → List (List ℕ) → Bool
has_path path [] = false
has_path path (p ∷ paths) = list_beq p path || has_path path paths

-- What is left of an object when the map's pointer ends.
abbrev pub left_of : Shared → Option Shared
left_of o = if leb o.refs 1 then none else some (record o { refs = o.refs - 1 })

find-release :
    (id k : ℕ) (objects : List (ℕ × Shared))
    → (id == k) ≡ false
    → find k (release id objects) ≡ find k objects
unfolding release release_one
find-release id k objects h = elim (Option-cases (find id objects)) [
  | inl e ↦ rw (e, release) refl
  | inr (o, e) ↦
      rw (e, release)
        (elim (Bool-cases (leb o.refs 1)) [
          | inl b ↦ rw b (find-erase id k objects ∙ rw h refl)
          | inr b ↦ rw b (find-assign id k _ objects ∙ rw h refl)
        ])
]

find-release_self :
    (id : ℕ) (o : Shared) (objects : List (ℕ × Shared))
    → find id objects ≡ some o
    → find id (release id objects) ≡ left_of o
unfolding release release_one
find-release_self id o objects e =
    rw (e, release)
      (elim (Bool-cases (leb o.refs 1)) [
        | inl b ↦ rw b (find-erase_self id objects)
        | inr b ↦ rw b (find-assign_self id _ objects)
      ])

find-retain :
    (id k : ℕ) (objects : List (ℕ × Shared))
    → (id == k) ≡ false
    → find k (retain id objects) ≡ find k objects
unfolding retain
find-retain id k objects h = elim (Option-cases (find id objects)) [
  | inl e ↦ rw (e, retain) refl
  | inr (o, e) ↦ rw (e, retain) (find-assign id k _ objects ∙ rw h refl)
]

newer : (n k : ℕ) → k < n → (n == k) ≡ false
newer n k h = ground arith

module _ (M : FileMap) (lawful : IsLawful M) where
  lookup-hot_update :
      (path : List ℕ) (paths : List (List ℕ)) (m : Monitor M)
      → M.lookup path (hot_update M paths m).files
        ≡ (if has_path path paths then none else M.lookup path m.files)
  unfolding hot_update
  lookup-hot_update path [] m = refl
  lookup-hot_update path (p ∷ paths) m =
      lookup-hot_update path paths (erase_path M p m)
      ∙ rw (lookup-erase_path M lawful p path m) (merged (list_beq p path) (has_path path paths))
    where
      merged :
          (b c : Bool)
          → (if c then none else (if b then none else M.lookup path m.files))
            ≡ (if b || c then none else M.lookup path m.files)
      merged true true = refl
      merged true false = refl
      merged false true = refl
      merged false false = refl

  next-hot_update : (paths : List (List ℕ)) (m : Monitor M) → (hot_update M paths m).next ≡ m.next
  unfolding hot_update
  next-hot_update [] m = refl
  next-hot_update (p ∷ paths) m =
      next-hot_update paths (erase_path M p m) ∙ next-erase_path M lawful p m

  -- The erasure of a path touches no object but its own.
  erased_spares :
      (p : List ℕ) (k : ℕ) (m : Monitor M)
      → M.lookup p m.files ≢ some k
      → find k (erase_path M p m).objects ≡ find k m.objects
  unfolding erase_path
  erased_spares p k m h = elim (Option-cases (M.lookup p m.files)) [
    | inl e ↦ rw (e, erase_path) refl
    | inr (id, e) ↦
        rw (e, erase_path)
          (elim (Bool-cases (id == k)) [
            | inl b ↦ absurd (h (e ∙ ap some (==→eq id k b)))
            | inr b ↦ find-release id k m.objects b
          ])
  ]

  erased_releases :
      (path : List ℕ) (old : ℕ) (o : Shared) (m : Monitor M)
      → M.lookup path m.files ≡ some old
      → find old m.objects ≡ some o
      → find old (erase_path M path m).objects ≡ left_of o
  unfolding erase_path
  erased_releases path old o m e h = rw (e, erase_path) (find-release_self old o m.objects h)

  -- An object that no path has is not touched by a renewal.
  unowned_stays :
      (old : ℕ) (paths : List (List ℕ)) (m : Monitor M)
      → ((q : List ℕ) → M.lookup q m.files ≢ some old)
      → find old (hot_update M paths m).objects ≡ find old m.objects
  unfolding hot_update
  unowned_stays old [] m h = refl
  unowned_stays old (p ∷ paths) m h =
      unowned_stays old paths (erase_path M p m) (λ q k. h q (kept_path M lawful p q old m k))
      ∙ erased_spares p old m (h p)

  -- After its path is erased, no path has the object.
  erased_unowned :
      (path : List ℕ) (old : ℕ) (m : Monitor M)
      → IsOwned m
      → M.lookup path m.files ≡ some old
      → (q : List ℕ) → M.lookup q (erase_path M path m).files ≢ some old
  erased_unowned path old m v e q h =
      let same = v.own path q old e (kept_path M lawful path q old m h) in
      let gone = lookup-erase_path M lawful path q m in
      cc (h, rw ((list_beq_iff path q).1 same) at gone)

  -- A path that is not erased keeps its object.
  other_differs :
      (p path : List ℕ) (old : ℕ) (m : Monitor M)
      → IsOwned m
      → M.lookup path m.files ≡ some old
      → list_beq p path ≡ false
      → M.lookup p m.files ≢ some old
  other_differs p path old m v e h k = cc (h, (list_beq_iff p path).1 (v.own p path old k e))

  untold_stays :
      (path : List ℕ) (old : ℕ) (paths : List (List ℕ)) (m : Monitor M)
      → IsOwned m
      → M.lookup path m.files ≡ some old
      → has_path path paths ≡ false
      → find old (hot_update M paths m).objects ≡ find old m.objects
  unfolding hot_update
  untold_stays path old [] m v e h = refl
  untold_stays path old (p ∷ paths) m v e h = elim (Bool-cases (list_beq p path)) [
    | inl b ↦ cc (rw b at h)
    | inr b ↦
        untold_stays path old paths (erase_path M p m) (erase_path-IsOwned M lawful p m v)
          (lookup-erase_path M lawful p path m ∙ rw b e) (rw b at h)
        ∙ erased_spares p old m (other_differs p path old m v e b)
  ]

  told_releases :
      (path : List ℕ) (old : ℕ) (o : Shared) (paths : List (List ℕ)) (m : Monitor M)
      → IsOwned m
      → M.lookup path m.files ≡ some old
      → find old m.objects ≡ some o
      → has_path path paths ≡ true
      → find old (hot_update M paths m).objects ≡ left_of o
  unfolding hot_update
  told_releases path old o [] m v e k h = cc h
  told_releases path old o (p ∷ paths) m v e k h = elim (Bool-cases (list_beq p path)) [
    | inl b ↦
        let owned = ap (λ q. M.lookup q m.files) ((list_beq_iff p path).0 b) ∙ e in
        unowned_stays old paths (erase_path M p m) (erased_unowned p old m v owned)
        ∙ erased_releases p old o m owned k
    | inr b ↦
        told_releases path old o paths (erase_path M p m) (erase_path-IsOwned M lawful p m v)
          (lookup-erase_path M lawful p path m ∙ rw b e)
          (erased_spares p old m (other_differs p path old m v e b) ∙ k) (rw b at h)
  ]

  -- A path without an object is read from the disc, into the next object.
  asked_new :
      (size : ℕ) (path : List ℕ) (m : Monitor M)
      → M.lookup path m.files ≡ none
      → let (get, id, m') = ask M true (suc size) (file_of M path m) in
        (get ≡ loads)
        × (id ≡ m.next)
        × ((k : ℕ) → (m.next == k) ≡ false → find k m'.objects ≡ find k m.objects)
  unfolding ask file_of async_get_data load get_file_size new_file kept_by
  asked_new size path m e =
      rw (e, file_of)
        (rw (find-assign_self m.next (record { refs = 1; file = new_file }) m.objects, ask)
          (
            refl,
            refl,
            λ k h.
                find-retain m.next k _ h
                ∙ find-assign m.next k _ (assign m.next _ m.objects)
                ∙ rw h (find-assign m.next k _ m.objects ∙ rw h refl),
          ))

  asked_old :
      (size id refs datalen : ℕ) (datas path : List ℕ) (m : Monitor M)
      → M.lookup path m.files ≡ some id
      → find id m.objects
        ≡ some (record { refs = refs; file = record { datalen = datalen; datas = datas } })
      → 0 < length datas
      → (ask M true size (file_of M path m)).0 ≡ returns datas
  unfolding ask file_of
  asked_old size id refs datalen datas path m e k h =
      rw (e, file_of) (rw (k, ask) (ap (λ p. p.0) (filled_returns true size datalen datas h)))

  -- A round of renewal after any uses of a new monitor, and then a request of a resource whose file
  -- has some bytes. Where the path of the resource was told as changed, the file is read from the disc
  -- into an object of its own, and the old object loses the map's pointer: it is destroyed where that
  -- was its last one, and else stays as it was with one pointer less. Where the path was not told
  -- and its object was read before, the resource is served from that object, which the renewal left as
  -- it was. The map keeps what it promises.
  pub hot_update_reloads :
      (join : List ℕ → List ℕ → List ℕ) (root url path : List ℕ) (paths : List (List ℕ)) (size : ℕ)
      (us : List Use)
      → abs_path join root url ≡ some path
      → let m = use_all M join root us (new_monitor M) in
        let m' = hot_update M paths m in
        (get : Get) × (id : ℕ) × (m'' : Monitor M) × (async_get_resource M true join root
            (suc size)
            url
            m'
          ≡ some (get, id, m''))
        × (has_path path paths ≡ true
            → (get ≡ loads)
              × (id ≡ m.next)
              × ((old : ℕ) (o : Shared)
                  → M.lookup path m.files ≡ some old
                  → find old m.objects ≡ some o
                  → find old m''.objects ≡ left_of o))
        × ((old refs datalen : ℕ) (datas : List ℕ)
            → has_path path paths ≡ false
            → M.lookup path m.files ≡ some old
            → find old m.objects
              ≡ some (record { refs = refs; file = record { datalen = datalen; datas = datas } })
            → 0 < length datas
            → (get ≡ returns datas) × (find old m'.objects ≡ find old m.objects))
  unfolding async_get_resource
  hot_update_reloads join root url path paths size us e =
      let m = use_all M join root us (new_monitor M) in
      let v = use_all-IsOwned M lawful join root us in
      let m' = hot_update M paths m in
      let (get, id, m'') = ask M true (suc size) (file_of M path m') in
      (
        get,
        id,
        m'',
        rw (e, async_get_resource) refl,
        λ told.
            let (reads, fresh, others) =
              asked_new size path m' (lookup-hot_update path paths m ∙ rw told refl) in
            (
              reads,
              fresh ∙ next-hot_update paths m,
              λ old o known object.
                  others old (
                    ap (λ n. n == old) (next-hot_update paths m)
                    ∙ newer m.next old (v.fresh path old known))
                  ∙ told_releases path old o paths m v known object told,
            ),
        λ old refs datalen datas untold known object h.
            let stays = untold_stays path old paths m v known untold in
            (
              asked_old (suc size) old refs datalen datas path m'
                  (lookup-hot_update path paths m ∙ rw untold known) (stays ∙ object) h,
              stays,
            ),
      )
