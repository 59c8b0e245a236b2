-- ===== src/Net/Deal/Ends.antt =====
-- The ways in which a round of the router's coroutine ends.
use sm.Base.{
  ℕ, inl, inr, Bool, true, false, List, ◌++◌, ltb, if◌then◌else◌, Bool-cases, Option-cases, length,
  take, drop,
}
use sm.Base.Map.{find, nat_eq}
use sm.Net.Dealer.{Handler}
use sm.Net.Platform.{PlatformPack, get_main, get_ass, len, pack, unpack}
use sm.Net.Platform.Manager.{PackUnpackManager, clone_pack}
use sm.Net.Router.{NMessage, Router}
use sm.Net.Deal.{
  Round, continues, returns, undefined_behaviour, aborts, answer, handle, route, deal_platform,
  deal_round, zeros,
}
use sm.Conf.Routes.{RoutersTrans, get_router_trans_by_main_c}

-- What holds of a round that stops, of one that answers nobody, and of every answer, holds of all.
module _ (debug : Bool) (sock : ℕ) (r : Router) (P : Round → Type 0)
    (stopped : P returns × P undefined_behaviour × P aborts) (unanswered : P (continues r))
    (answered : (msg : NMessage) → P (answer debug sock msg r)) where
  handle_ends :
      (plat : PlatformPack) (handler : Handler) (msgno : ℕ) (strreq : List ℕ)
      → P (handle debug plat handler sock msgno strreq r)
  unfolding handle
  handle_ends plat handler msgno strreq = elim (Option-cases (handler strreq)) [
    | inl h ↦ rw (h, handle) unanswered
    | inr (ret, h) ↦ rw (h, handle) (answered (msgno, (pack plat (zeros (len plat))).1 ++ ret))
  ]

  missing_ends : (b : Bool) → P (if b then aborts else returns)
  missing_ends true = stopped.2
  missing_ends false = stopped.0

  route_ends :
      (routers : RoutersTrans Handler) (plat : PlatformPack) (msgno : ℕ) (strreq : List ℕ)
      → P (route debug routers plat sock msgno strreq r)
  unfolding route
  route_ends routers plat msgno strreq =
      elim (Option-cases (get_router_trans_by_main_c (get_main plat) routers)) [
        | inl h ↦ rw (h, route) stopped.1
        | inr (funcs, h) ↦ elim (Option-cases (get_ass plat)) [
          | inl k ↦ rw (h, k, route) stopped.1
          | inr (ass, k) ↦ elim (Option-cases (find ass funcs)) [
            | inl l ↦ rw (h, k, l, route) (missing_ends debug)
            | inr (handler, l) ↦ rw (h, k, l, route) (handle_ends plat handler msgno strreq)
          ]
        ]
      ]

  platform_ends :
      (routers : RoutersTrans Handler) (plat : PlatformPack) (msg : NMessage)
      → P (deal_platform debug routers plat sock msg r)
  unfolding deal_platform
  platform_ends routers plat msg = elim (Bool-cases (ltb (length msg.1) (len plat))) [
    | inl h ↦ rw (h, deal_platform) stopped.1
    | inr h ↦ rw (h, deal_platform) (checked debug (unpack plat (take (len plat) msg.1)).0)
  ]
    where
      checked :
          (b ok : Bool)
          → P (
              if b
              then (if ok
                  then route debug routers
                      (unpack plat (take (len plat) msg.1)).1
                      sock
                      msg.0
                      (drop (len plat) msg.1)
                      r
                  else aborts)
              else route debug routers plat sock msg.0 (drop (len plat) msg.1) r)
      checked true true =
          route_ends routers (unpack plat (take (len plat) msg.1)).1 msg.0 (drop (len plat) msg.1)
      checked true false = stopped.2
      checked false ok = route_ends routers plat msg.0 (drop (len plat) msg.1)

  pub round_ends :
      (platforms : PackUnpackManager) (routers : RoutersTrans Handler) (mainc : ℕ) (msg : NMessage)
      → P (deal_round debug platforms routers sock mainc msg r)
  unfolding deal_round
  round_ends platforms routers mainc msg = elim (Option-cases (clone_pack platforms mainc)) [
    | inl h ↦ rw (h, deal_round) stopped.1
    | inr (plat, h) ↦ elim (Bool-cases (ltb 0 (len plat))) [
      | inl k ↦ rw (h, k, deal_round) (platform_ends routers plat msg)
      | inr k ↦ rw (h, k, deal_round) (answered msg)
    ]
  ]
