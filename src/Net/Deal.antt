-- ===== src/Net/Deal.antt =====
-- networkinterface/MessageRouter.cpp `start`, the second coroutine: a message from the network is
-- unpacked, handled, packed, and given to whoever waits for the response. `unpack` and
-- `notifyRecvAppRep` are called inside assertions, so that `debug` tells whether they are called.
pub mod Ends
pub mod Reply
use sm.Base.{
  ℕ, zero, suc, ◌+◌, ◌-◌, ◌*◌, ◌/◌, ◌%◌, ◌^◌, ◌≤◌, ◌<◌, ◌≡◌, refl, sym, ap, ap₂, ◌∙◌, fun_ext, ◌≢◌,
  ◌↔◌, ◌⊎◌, inl, inr, Bool, true, false, not, ◌&&◌, ◌||◌, Option, none, some, List, [], ◌∷◌, ◌++◌,
  append-nil, append_assoc, map, arith, ltb, leb, ◌==◌, if◌then◌else◌, ltb→lt, lt→ltb, le→ltb,
  ==→eq, ==_refl, tests, Bool-cases, Option-cases, length, take, drop, length-append, take-append,
  drop-append, drop-append_cons, take-append_at, drop-append_at, take-append_drop, take_of_length,
  drop_of_length, length-drop, length-take, take-append_le, drop-append_le, All, Bytes, dec_lt,
  dec_le, ℕ_discrete,
}
use sm.Base.Map.{find, nat_eq}
use sm.Net.Dealer.{Handler}
use sm.Net.Platform.{PlatformPack, get_main, get_ass, len, pack, unpack}
use sm.Net.Platform.Manager.{PackUnpackManager, clone_pack}
use sm.Net.Router.{Router, NMessage, notify_recv_app_rep}
use sm.Conf.Routes.{RoutersTrans, get_router_trans_by_main_c}

-- How a round of the coroutine ends: the next one begins, the coroutine returns, a null pointer is
-- used, or an assertion fails.
pub data Round : Type 0 where
  continues : Router → Round
  returns : Round
  undefined_behaviour : Round
  aborts : Round

-- `assert(notifyRecvAppRep(...))`
unfoldable pub answer : Bool → ℕ → NMessage → Router → Round
answer false sock msg r = continues r
answer true sock msg r =
    let (ok, r') = notify_recv_app_rep sock msg r in if ok then continues r' else aborts

-- `strrep->resize(n)` of an empty text.
abbrev pub zeros : ℕ → List ℕ
zeros zero = []
zeros (suc n) = 0 ∷ zeros n

-- The handler's text behind the packed head. A handler that throws ends the round.
unfoldable pub handle : Bool → PlatformPack → Handler → ℕ → ℕ → List ℕ → Router → Round
handle debug plat handler sock msgno strreq r = elim (handler strreq) [
  | none ↦ continues r
  | some ret ↦ answer debug sock (msgno, (pack plat (zeros (len plat))).1 ++ ret) r
]

-- The look-ups of the handler, first by main, then by assistant command.
unfoldable pub route : Bool → RoutersTrans Handler → PlatformPack → ℕ → ℕ → List ℕ → Router → Round
route debug routers plat sock msgno strreq r =
    elim (get_router_trans_by_main_c (get_main plat) routers) [
      | none ↦ undefined_behaviour
      | some funcs ↦ elim (get_ass plat) [
        | none ↦ undefined_behaviour
        | some ass ↦ elim (find ass funcs) [
          | none ↦ if debug then aborts else returns
          | some handler ↦ handle debug plat handler sock msgno strreq r
        ]
      ]
    ]

-- A message with a platform head. Iterators behind the end of a shorter message are used.
unfoldable pub deal_platform :
    Bool → RoutersTrans Handler → PlatformPack → ℕ → NMessage → Router → Round
deal_platform debug routers plat sock msg r =
    let (ok, unpacked) = unpack plat (take (len plat) msg.1) in
    let strreq = drop (len plat) msg.1 in
    if ltb (length msg.1) (len plat)
    then undefined_behaviour
    else (if debug
        then (if ok then route debug routers unpacked sock msg.0 strreq r else aborts)
        else route debug routers plat sock msg.0 strreq r)

-- One round: a platform without a head answers with the message itself.
unfoldable pub deal_round :
    Bool → PackUnpackManager → RoutersTrans Handler → ℕ → ℕ → NMessage → Router → Round
deal_round debug platforms routers sock mainc msg r = elim (clone_pack platforms mainc) [
  | none ↦ undefined_behaviour
  | some plat ↦
      if ltb 0 (len plat)
      then deal_platform debug routers plat sock msg r
      else answer debug sock msg r
]
