-- ===== src/Conf/Routes/Add.antt =====
-- What `addRouterTrans` changes and reports.
use sm.Base.{
  clash, ℕ, ◌≡◌, refl, sym, ap, ◌∙◌, ◌↔◌, ◌⊎◌, inl, inr, true, false, ◌&&◌, Option, none, some,
  List, [], ◌∷◌, ◌==◌, if◌then◌else◌, ==→eq, Bool-cases, Option-cases,
}
use sm.Base.Map.{find, insert, assign, nat_eq, find-insert_new, find-assign}
use sm.Conf.Routes.{
  RoutersTrans, made, add_router_trans, get_router_trans, get_router_trans_by_main_c,
}

false_true {ℓ} : {B : Type ℓ} → false ≡ true → B
false_true e = absurd cc

-- Through any of the maps: the route for two commands.
module _ {F : Type 0} where
  route_of : ℕ → Option (List (ℕ × F)) → Option F
  route_of assc none = none
  route_of assc (some element) = find assc element

  get_made :
      (mainc assc : ℕ) (st : RoutersTrans F)
      → get_router_trans mainc assc st ≡ route_of assc (find mainc (made st))
  unfolding get_router_trans route_of find
  get_made mainc assc none = refl
  get_made mainc assc (some m) = elim (Option-cases (find mainc m)) [
    | inl h ↦ rw (h, get_router_trans)
    | inr (element, h) ↦ rw (h, get_router_trans)
  ]

  main_made :
      (mainc : ℕ) (st : RoutersTrans F) → get_router_trans_by_main_c mainc st ≡ find mainc (made st)
  unfolding get_router_trans_by_main_c find
  main_made mainc none = refl
  main_made mainc (some m) = refl

  -- A map whose element of one main command has one handler more.
  routed :
      (mainc assc mainc' assc' : ℕ) (f : F) (m m' : List (ℕ × List (ℕ × F))) (e : List (ℕ × F))
      → find mainc' m' ≡ (if mainc == mainc' then some e else find mainc' m)
      → find assc' e ≡ (if assc == assc' then some f else route_of assc' (find mainc m))
      → route_of assc' (find mainc' m')
        ≡ (if (mainc == mainc') && (assc == assc') then some f else route_of assc' (find mainc' m))
  unfolding route_of
  routed mainc assc mainc' assc' f m m' e hm he = elim (Bool-cases (mainc == mainc')) [
    | inl h ↦ rw (hm, h, ← ==→eq mainc mainc' h) he
    | inr h ↦ rw (hm, h)
  ]

  added_main :
      (mainc assc : ℕ) (f : F) (st : RoutersTrans F)
      → find mainc (made st) ≡ none
      → add_router_trans mainc assc f st ≡ (true, some (insert mainc ((assc, f) ∷ []) (made st)))
  unfolding add_router_trans insert find
  added_main mainc assc f st h = rw (h, add_router_trans)

  added_assc :
      (mainc assc : ℕ) (f : F) (st : RoutersTrans F) (element : List (ℕ × F))
      → find mainc (made st) ≡ some element
      → find assc element ≡ none
      → add_router_trans mainc assc f st
        ≡ (false, some (assign mainc (insert assc f element) (made st)))
  unfolding add_router_trans
  added_assc mainc assc f st element h e = rw (h, e, add_router_trans)

  added_none :
      (mainc assc : ℕ) (f old : F) (st : RoutersTrans F) (element : List (ℕ × F))
      → find mainc (made st) ≡ some element
      → find assc element ≡ some old
      → add_router_trans mainc assc f st ≡ (false, some (made st))
  unfolding add_router_trans
  added_none mainc assc f old st element h e = rw (h, e, add_router_trans)

  -- Whatever commands are looked up, after an addition.
  abbrev Routed : ℕ → ℕ → F → RoutersTrans F → Type 0
  Routed mainc assc f st =
      (mainc' assc' : ℕ)
      → get_router_trans mainc' assc' (add_router_trans mainc assc f st).1 ≡ (
          if (mainc == mainc') && (assc == assc') then some f else get_router_trans mainc' assc' st)

  found_after_main :
      (mainc assc : ℕ) (f : F) (st : RoutersTrans F)
      → find mainc (made st) ≡ none
      → Routed mainc assc f st
  unfolding route_of find
  found_after_main mainc assc f st h mainc' assc' =
      rw
        (
          added_main mainc assc f st h,
          get_made mainc' assc' st,
          get_made mainc' assc' (some (insert mainc ((assc, f) ∷ []) (made st))),
        )
        (routed mainc assc mainc' assc' f (made st) (insert mainc ((assc, f) ∷ []) (made st))
          ((assc, f) ∷ []) (find-insert_new mainc mainc' ((assc, f) ∷ []) (made st) h) (rw h refl))

  found_after_assc :
      (mainc assc : ℕ) (f : F) (st : RoutersTrans F) (element : List (ℕ × F))
      → find mainc (made st) ≡ some element
      → find assc element ≡ none
      → Routed mainc assc f st
  unfolding route_of find
  found_after_assc mainc assc f st element h e mainc' assc' =
      let element' = insert assc f element in
      rw
        (
          added_assc mainc assc f st element h e,
          get_made mainc' assc' st,
          get_made mainc' assc' (some (assign mainc element' (made st))),
        )
        (routed mainc assc mainc' assc' f (made st) (assign mainc element' (made st)) element'
          (find-assign mainc mainc' element' (made st))
          (rw h (find-insert_new assc assc' f element e)))

  -- The three cases of the state that an addition meets.
  cases :
      (mainc assc : ℕ) (st : RoutersTrans F)
      → (find mainc (made st) ≡ none)
        ⊎ ((element : List (ℕ × F)) × (find mainc (made st) ≡ some element)
            × ((find assc element ≡ none) ⊎ ((old : F) × (find assc element ≡ some old))))
  cases mainc assc st = elim (Option-cases (find mainc (made st))) [
    | inl h ↦ inl h
    | inr (element, h) ↦ inr (element, h, Option-cases (find assc element))
  ]

  -- `addRouterTrans` registers a handler exactly if the two commands have none: then the handler is
  -- found from then on, and all other commands keep theirs; if they have one, all commands keep
  -- theirs. What it returns tells something else: it is true exactly if the main command had no
  -- handler at all, so that a second assistant command of a main command is registered and
  -- reported as a failure.
  add_router_trans_reports :
      (mainc assc : ℕ) (f : F) (st : RoutersTrans F) (mainc' assc' : ℕ)
      → let (ok, st') = add_router_trans mainc assc f st in
        (get_router_trans mainc assc st ≡ none
          → get_router_trans mainc' assc' st' ≡ (
              if (mainc == mainc') && (assc == assc')
              then some f
              else get_router_trans mainc' assc' st))
        × ((old : F)
            → get_router_trans mainc assc st ≡ some old
            → get_router_trans mainc' assc' st' ≡ get_router_trans mainc' assc' st)
        × ((ok ≡ true) ↔ (get_router_trans_by_main_c mainc st ≡ none))
  unfolding route_of
  add_router_trans_reports mainc assc f st mainc' assc' =
      rw (get_made mainc assc st, main_made mainc st)
        (elim (cases mainc assc st) [
          | inl h ↦ (
            (λ _. found_after_main mainc assc f st h mainc' assc'),
            (λ old o. clash (sym (ap (route_of assc) h) ∙ o)),
            ((λ _. h), (λ _. ap (λ p. p.0) (added_main mainc assc f st h))),
          )
          | inr (element, h, inl e) ↦ (
            (λ _. found_after_assc mainc assc f st element h e mainc' assc'),
            (λ old o. clash (sym e ∙ sym (ap (route_of assc) h) ∙ o)),
            (
              (λ ok.
                  false_true (sym (ap (λ p. p.0) (added_assc mainc assc f st element h e)) ∙ ok)),
              (λ o. clash (sym o ∙ h)),
            ),
          )
          | inr (element, h, inr (old, e)) ↦ (
            (λ o. clash (sym o ∙ ap (route_of assc) h ∙ e)),
            (λ _ _.
                ap (λ p. get_router_trans mainc' assc' p.1)
                  (added_none mainc assc f old st element h e)
                ∙ get_made mainc' assc' (some (made st))
                ∙ sym (get_made mainc' assc' st)),
            (
              (λ ok.
                  false_true
                    (sym (ap (λ p. p.0) (added_none mainc assc f old st element h e)) ∙ ok)),
              (λ o. clash (sym o ∙ h)),
            ),
          )
        ])
