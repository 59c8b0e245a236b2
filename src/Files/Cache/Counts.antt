-- ===== src/Files/Cache/Counts.antt =====
-- The paths of the map have objects of their own, whatever was asked for and renewed.
use mathlib.Core.Path.{subst}
use sm.Base.{
  ℕ, suc, ◌<◌, ◌≡◌, refl, sym, ap, ◌∙◌, ◌⊎◌, inl, inr, Bool, Option, none, some, List, [], ◌∷◌,
  arith, if◌then◌else◌, Bool-cases, Option-cases,
}
use sm.Base.Map.{find, nat_eq, list_beq, list_beq_iff}
use sm.Files.Load.{FileOp, Get}
use sm.Files.Cache.{
  FileMap, Shared, Monitor, abs_path, new_monitor, file_of, ask, async_get_resource, end_resource,
  erase_path, hot_update,
}

-- What the map promises; `insert` is called only for a path that has no object.
pub record IsLawful (M : FileMap) : Type 0 where
  pub lookup-nothing : (path : List ℕ) → M.lookup path M.nothing ≡ none
  pub lookup-insert :
      (path other : List ℕ) (id : ℕ) (s : M.State)
      → M.lookup path s ≡ none
      → M.lookup other (M.insert path id s)
        ≡ (if list_beq path other then some id else M.lookup other s)
  pub lookup-erase :
      (path other : List ℕ) (s : M.State)
      → M.lookup other (M.erase path s) ≡ (if list_beq path other then none else M.lookup other s)

-- The uses of the monitor by its coroutines, in any order; an end is also taken where no coroutine
-- uses the object, which is more than the code does.
pub data Use : Type 0 where
  asks : Bool → ℕ → List ℕ → Use
  finishes : (FileOp → List ℕ × FileOp) → ℕ → Use
  renews : List (List ℕ) → Use

module _ (M : FileMap) (join : List ℕ → List ℕ → List ℕ) (root : List ℕ) where
  abbrev pub after_ask : Monitor M → Option (Get × ℕ × Monitor M) → Monitor M
  after_ask m none = m
  after_ask m (some (get, id, m')) = m'

  unfoldable pub use_one : Use → Monitor M → Monitor M
  use_one (asks async_files size url) m =
      after_ask m (async_get_resource M async_files join root size url m)
  use_one (finishes finish id) m = (end_resource M finish id m).1
  use_one (renews paths) m = hot_update M paths m

  unfoldable pub use_all : List Use → Monitor M → Monitor M
  use_all [] m = m
  use_all (u ∷ us) m = use_all us (use_one u m)

-- The objects of the map are below the next number, and no two paths have the same one.
pub record IsOwned {M : FileMap} (m : Monitor M) : Type 0 where
  pub fresh : (path : List ℕ) (id : ℕ) → M.lookup path m.files ≡ some id → id < m.next
  pub own :
      (path other : List ℕ) (id : ℕ)
      → M.lookup path m.files ≡ some id
      → M.lookup other m.files ≡ some id
      → path ≡ other

module _ (M : FileMap) (lawful : IsLawful M) where
  pub lookup-erase_path :
      (path other : List ℕ) (m : Monitor M)
      → M.lookup other (erase_path M path m).files
        ≡ (if list_beq path other then none else M.lookup other m.files)
  unfolding erase_path
  lookup-erase_path path other m = elim (Option-cases (M.lookup path m.files)) [
    | inl e ↦
        rw (e, erase_path)
          (elim (Bool-cases (list_beq path other)) [
            | inl h ↦ rw h (ap (λ p. M.lookup p m.files) (sym ((list_beq_iff path other).0 h)) ∙ e)
            | inr h ↦ rw h refl
          ])
    | inr (id, e) ↦ rw (e, erase_path) (lawful.lookup-erase path other m.files)
  ]

  -- What is looked up behind an erasure was there before.
  pub kept_path :
      (path other : List ℕ) (id : ℕ) (m : Monitor M)
      → M.lookup other (erase_path M path m).files ≡ some id
      → M.lookup other m.files ≡ some id
  kept_path path other id m h =
      let e = lookup-erase_path path other m in
      elim (Bool-cases (list_beq path other)) [
        | inl k ↦ absurd (cc (h, rw k at e))
        | inr k ↦ sym (e ∙ rw k refl) ∙ h
      ]

  pub next-erase_path : (path : List ℕ) (m : Monitor M) → (erase_path M path m).next ≡ m.next
  unfolding erase_path
  next-erase_path path m = elim (Option-cases (M.lookup path m.files)) [
    | inl e ↦ rw (e, erase_path) refl
    | inr (id, e) ↦ rw (e, erase_path) refl
  ]

  pub erase_path-IsOwned :
      (path : List ℕ) (m : Monitor M) → IsOwned m → IsOwned (erase_path M path m)
  erase_path-IsOwned path m v = record {
    fresh = λ p id h.
        subst (λ n. id < n) (sym (next-erase_path path m)) (v.fresh p id (kept_path path p id m h));
    own = λ p q id h k. v.own p q id (kept_path path p id m h) (kept_path path q id m k);
  }

  pub hot_update-IsOwned :
      (paths : List (List ℕ)) (m : Monitor M) → IsOwned m → IsOwned (hot_update M paths m)
  unfolding hot_update
  hot_update-IsOwned [] m v = v
  hot_update-IsOwned (path ∷ paths) m v =
      hot_update-IsOwned paths (erase_path M path m) (erase_path-IsOwned path m v)

  -- What is looked up behind an insertion is the new object, or was there before.
  new_path :
      (path other : List ℕ) (id : ℕ) (m : Monitor M)
      → M.lookup path m.files ≡ none
      → M.lookup other (M.insert path m.next m.files) ≡ some id
      → ((path ≡ other) × (m.next ≡ id)) ⊎ (M.lookup other m.files ≡ some id)
  new_path path other id m e h =
      let i = lawful.lookup-insert path other m.next m.files e in
      elim (Bool-cases (list_beq path other)) [
        | inl k ↦ inl ((list_beq_iff path other).0 k, cc (h, rw k at i))
        | inr k ↦ inr (sym (i ∙ rw k refl) ∙ h)
      ]

  inserted :
      (path : List ℕ) (m : Monitor M) (objects : List (ℕ × Shared))
      → M.lookup path m.files ≡ none
      → IsOwned m
      → IsOwned {M = M}
          (record { files = M.insert path m.next m.files; objects = objects; next = suc m.next })
  inserted path m objects e v = record {
    fresh = λ p id h. elim (new_path path p id m e h) [
      | inl (a, n) ↦ omega (arith, n)
      | inr l ↦ omega (arith, v.fresh p id l)
    ];
    own = λ p q id h k. elim (new_path path p id m e h) [
      | inl (a, n) ↦ elim (new_path path q id m e k) [
        | inl (b, o) ↦ sym a ∙ b
        | inr l ↦ absurd (omega (arith, n, v.fresh q id l))
      ]
      | inr l ↦ elim (new_path path q id m e k) [
        | inl (b, n) ↦ absurd (omega (arith, n, v.fresh p id l))
        | inr l' ↦ v.own p q id l l'
      ]
    ];
  }

  file_of-IsOwned : (path : List ℕ) (m : Monitor M) → IsOwned m → IsOwned (file_of M path m).1
  unfolding file_of
  file_of-IsOwned path m v = elim (Option-cases (M.lookup path m.files)) [
    | inl e ↦ rw (e, file_of) (inserted path m _ e v)
    | inr (id, e) ↦ rw (e, file_of) v
  ]

  ask-IsOwned :
      (async_files : Bool) (size id : ℕ) (m : Monitor M)
      → IsOwned m
      → IsOwned (ask M async_files size (id, m)).2
  unfolding ask
  ask-IsOwned async_files size id m v = elim (Option-cases (find id m.objects)) [
    | inl e ↦ rw (e, ask) v
    | inr (o, e) ↦ rw (e, ask) (record { fresh = v.fresh; own = v.own })
  ]

  end_resource-IsOwned :
      (finish : FileOp → List ℕ × FileOp) (id : ℕ) (m : Monitor M)
      → IsOwned m
      → IsOwned (end_resource M finish id m).1
  unfolding end_resource
  end_resource-IsOwned finish id m v = elim (Option-cases (find id m.objects)) [
    | inl e ↦ rw (e, end_resource) v
    | inr (o, e) ↦ rw (e, end_resource) (record { fresh = v.fresh; own = v.own })
  ]

  module _ (join : List ℕ → List ℕ → List ℕ) (root : List ℕ) where
    use_one-IsOwned : (u : Use) (m : Monitor M) → IsOwned m → IsOwned (use_one M join root u m)
    unfolding use_one async_get_resource
    use_one-IsOwned (asks async_files size url) m v = elim (Option-cases (abs_path join root url)) [
      | inl e ↦ rw (e, async_get_resource) v
      | inr (path, e) ↦
          rw (e, async_get_resource)
            (ask-IsOwned async_files size (file_of M path m).0 (file_of M path m).1
              (file_of-IsOwned path m v))
    ]
    use_one-IsOwned (finishes finish id) m v = end_resource-IsOwned finish id m v
    use_one-IsOwned (renews paths) m v = hot_update-IsOwned paths m v

    use_all-IsOwned_from :
        (us : List Use) (m : Monitor M) → IsOwned m → IsOwned (use_all M join root us m)
    unfolding use_all
    use_all-IsOwned_from [] m v = v
    use_all-IsOwned_from (u ∷ us) m v =
        use_all-IsOwned_from us (use_one M join root u m) (use_one-IsOwned u m v)

    pub use_all-IsOwned : (us : List Use) → IsOwned (use_all M join root us (new_monitor M))
    unfolding new_monitor
    use_all-IsOwned us = use_all-IsOwned_from us (new_monitor M) (record {
      fresh = λ path id h. absurd (cc (h, lawful.lookup-nothing path));
      own = λ path other id h k. absurd (cc (h, lawful.lookup-nothing path));
    })
