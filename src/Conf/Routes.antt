-- ===== src/Conf/Routes.antt =====
-- configs/Routers.cpp: the handlers of the transport by main and assistant command. `_routersTrans`
-- is null until the first one is added.
pub mod Add
use sm.Base.{
  ℕ, zero, suc, ◌+◌, ◌-◌, ◌*◌, ◌/◌, ◌%◌, ◌^◌, ◌≤◌, ◌<◌, ◌≡◌, refl, sym, ap, ap₂, ◌∙◌, fun_ext, ◌≢◌,
  ◌↔◌, ◌⊎◌, inl, inr, Bool, true, false, not, ◌&&◌, ◌||◌, Option, none, some, List, [], ◌∷◌, ◌++◌,
  append-nil, append_assoc, map, arith, ltb, leb, ◌==◌, if◌then◌else◌, ltb→lt, lt→ltb, le→ltb,
  ==→eq, ==_refl, tests, Bool-cases, Option-cases, length, take, drop, length-append, take-append,
  drop-append, drop-append_cons, take-append_at, drop-append_at, take-append_drop, take_of_length,
  drop_of_length, length-drop, length-take, take-append_le, drop-append_le, All, Bytes, dec_lt,
  dec_le, ℕ_discrete,
}
use sm.Base.Map.{find, insert, assign, nat_eq}

-- `TransRouterElement` by main command.
abbrev pub RoutersTrans : Type 0 → Type 0
RoutersTrans F = Option (List (ℕ × List (ℕ × F)))

module _ {F : Type 0} where
  -- The map, made where there is none.
  abbrev pub made : RoutersTrans F → List (ℕ × List (ℕ × F))
  made none = []
  made (some m) = m

  -- `it->second.insert({ assc, func })` is a change inside the map.
  unfoldable pub add_router_trans : ℕ → ℕ → F → RoutersTrans F → Bool × RoutersTrans F
  add_router_trans mainc assc func routers = elim (find mainc (made routers)) [
    | none ↦ (true, some (insert mainc (insert assc func []) (made routers)))
    | some element ↦ elim (find assc element) [
      | some old ↦ (false, some (made routers))
      | none ↦ (false, some (assign mainc (insert assc func element) (made routers)))
    ]
  ]

  unfoldable pub get_router_trans_by_main_c : ℕ → RoutersTrans F → Option (List (ℕ × F))
  get_router_trans_by_main_c mainc none = none
  get_router_trans_by_main_c mainc (some m) = find mainc m

  unfoldable pub get_router_trans : ℕ → ℕ → RoutersTrans F → Option F
  get_router_trans mainc assc none = none
  get_router_trans mainc assc (some m) = elim (find mainc m) [
    | none ↦ none
    | some element ↦ find assc element
  ]
