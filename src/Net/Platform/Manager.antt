-- ===== src/Net/Platform/Manager.antt =====
-- networkinterface/PackUnpackManager.cpp, and the functions of networkinterface.cpp that call it.
use sm.Base.{
  ℕ, ◌≡◌, refl, ◌≢◌, Bool, true, false, Option, none, some, List, arith, ◌==◌, if◌then◌else◌,
}
use sm.Base.Map.{find, contains, assign, nat_eq, find-assign}
use sm.Net.Platform.{PlatformPack, get_main, clone}

abbrev pub PackUnpackManager : Type 0
PackUnpackManager = List (ℕ × PlatformPack)

unfoldable pub add_platform_pack : PackUnpackManager → ℕ → PlatformPack → Bool × PackUnpackManager
add_platform_pack m mainc pack =
    if contains mainc m then (false, m) else (true, assign mainc pack m)

-- `none` is the null pointer.
unfoldable pub clone_pack : PackUnpackManager → ℕ → Option PlatformPack
clone_pack m mainc = elim (find mainc m) [ some p ↦ some (clone p) | none ↦ none ]

-- `addPlatformDealer`
unfoldable pub add_platform_dealer : PackUnpackManager → PlatformPack → Bool × PackUnpackManager
add_platform_dealer m pack = add_platform_pack m (get_main pack) pack

clone-id : (p : PlatformPack) → clone p ≡ p
unfolding clone
clone-id (PlatformPack.main_ass m a) = refl
clone-id (PlatformPack.no_main_ass m) = refl

-- Registering a prototype under a main command that has none makes every later clone for that
-- command a copy of it and changes no other; under one that has a prototype it answers no and
-- changes nothing.
clone_pack-add_platform_dealer :
    (m : PackUnpackManager) (p : PlatformPack) (mainc : ℕ)
    → let (ok, m') = add_platform_dealer m p in
      (clone_pack m (get_main p) ≡ none
        → (ok ≡ true)
          × (clone_pack m' mainc ≡ (if get_main p == mainc then some p else clone_pack m mainc)))
      × (clone_pack m (get_main p) ≢ none → (ok ≡ false) × (m' ≡ m))
unfolding add_platform_dealer add_platform_pack clone_pack contains
clone_pack-add_platform_dealer m p mainc =
    ground (arith, clone-id p, find-assign (get_main p) mainc p m)
