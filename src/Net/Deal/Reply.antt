-- ===== src/Net/Deal/Reply.antt =====
-- What a round of the router's coroutine does for whoever waits for a response.
use mathlib.Core.Path.{subst}
use sm.Base.{ℕ, ◌^◌, ◌<◌, ◌≡◌, refl, ap, ◌∙◌, true, false, some, List, ◌++◌, arith, le→ltb, length}
use sm.Base.Map.{find, nat_eq}
use sm.Utils.Endian.{be32}
use sm.Net.Dealer.{Handler}
use sm.Net.Platform.{main_ass, get_main, get_ass, len}
use sm.Net.Platform.Manager.{PackUnpackManager, clone_pack}
use sm.Net.Router.{pending, fired, Router, NMessage, lookup, place, notify_recv_app_rep}
use sm.Net.Router.Life.{send_pending, lookup-place_self}
use sm.Net.Platform.RoundTrip.{pack_fits, unpack-be32}
use sm.Net.Deal.{
  zeros, Round, continues, returns, undefined_behaviour, aborts, answer, handle, route,
  deal_platform, deal_round,
}
use sm.Net.Deal.Ends.{round_ends}
use sm.Conf.Routes.{RoutersTrans, get_router_trans_by_main_c}

-- A round that does not touch the router, if it goes on.
abbrev pub Silent : Router → Round → Type 0
Silent r (continues r') = r' ≡ r
Silent r returns = Unit
Silent r undefined_behaviour = Unit
Silent r aborts = Unit

answer-Silent : (sock : ℕ) (msg : NMessage) (r : Router) → Silent r (answer false sock msg r)
unfolding answer
answer-Silent sock msg r = refl

round-Silent :
    (platforms : PackUnpackManager) (routers : RoutersTrans Handler) (sock mainc : ℕ)
    (msg : NMessage) (r : Router)
    → Silent r (deal_round false platforms routers sock mainc msg r)
round-Silent platforms routers sock mainc msg r =
    round_ends false sock r (Silent r) (tt, tt, tt) refl (λ m. answer-Silent sock m r) platforms
      routers mainc msg

-- A build without assertions gives no response to anybody: whatever the message, its platform and
-- its handler, a round that goes on leaves the router as it was.
release_never_replies :
    (platforms : PackUnpackManager) (routers : RoutersTrans Handler) (sock mainc : ℕ)
    (msg : NMessage) (r r' : Router)
    → deal_round false platforms routers sock mainc msg r ≡ continues r'
    → r' ≡ r
release_never_replies platforms routers sock mainc msg r r' e =
    subst (Silent r) e (round-Silent platforms routers sock mainc msg r)

answered :
    (sock msgno : ℕ) (rep : List ℕ) (r : Router)
    → lookup sock msgno r.app_rep ≡ some pending
    → answer true sock (msgno, rep) r
      ≡ continues (record r { app_rep = place sock msgno (fired (msgno, rep)) r.app_rep })
unfolding answer notify_recv_app_rep
answered sock msgno rep r h = rw (send_pending sock msgno (msgno, rep) r.app_rep h)

handled :
    (mainc ass : ℕ) (handler : Handler) (sock msgno : ℕ) (req rep : List ℕ) (r : Router)
    → handler req ≡ some rep
    → handle true (main_ass mainc ass) handler sock msgno req r
      ≡ answer true sock (msgno, (be32 mainc ++ be32 ass) ++ rep) r
unfolding handle len
handled mainc ass handler sock msgno req rep r h =
    rw (h, handle)
      (ap (λ head. answer true sock (msgno, head.1 ++ rep) r) (pack_fits mainc ass (zeros 8) refl))

routed_to :
    (routers : RoutersTrans Handler) (funcs : List (ℕ × Handler)) (handler : Handler)
    (mainc ass sock msgno : ℕ) (req : List ℕ) (r : Router)
    → get_router_trans_by_main_c mainc routers ≡ some funcs
    → find ass funcs ≡ some handler
    → route true routers (main_ass mainc ass) sock msgno req r
      ≡ handle true (main_ass mainc ass) handler sock msgno req r
unfolding route get_main get_ass
routed_to routers funcs handler mainc ass sock msgno req r h k = rw (h, k, route)

unpacked :
    (platforms : PackUnpackManager) (routers : RoutersTrans Handler)
    (sock prototype prototype_ass mainc ass msgno : ℕ) (req : List ℕ) (r : Router)
    → mainc < 2 ^ 32
    → ass < 2 ^ 32
    → clone_pack platforms prototype ≡ some (main_ass prototype prototype_ass)
    → deal_round true platforms routers sock prototype (msgno, (be32 mainc ++ be32 ass) ++ req) r
      ≡ route true routers (main_ass mainc ass) sock msgno req r
unfolding deal_round deal_platform len
unpacked platforms routers sock prototype prototype_ass mainc ass msgno req r hm ha known = rw (
  known,
  deal_round,
  le→ltb (length ((be32 mainc ++ be32 ass) ++ req)) 8 (omega arith),
  unpack-be32 mainc ass (prototype, prototype_ass) hm ha,
)

-- With assertions, a message whose platform head names a main and an assistant command that have
-- a handler is answered: whoever waits for the response gets the handler's text behind the same
-- head. The message's platform has such heads, and the handler does not throw.
pub deal_round_replies :
    (platforms : PackUnpackManager) (routers : RoutersTrans Handler) (funcs : List (ℕ × Handler))
    (handler : Handler) (sock prototype prototype_ass mainc ass msgno : ℕ) (req rep : List ℕ)
    (r : Router)
    → mainc < 2 ^ 32
    → ass < 2 ^ 32
    → clone_pack platforms prototype ≡ some (main_ass prototype prototype_ass)
    → get_router_trans_by_main_c mainc routers ≡ some funcs
    → find ass funcs ≡ some handler
    → handler req ≡ some rep
    → lookup sock msgno r.app_rep ≡ some pending
    → let msg : NMessage = (msgno, (be32 mainc ++ be32 ass) ++ req) in
      let reply : NMessage = (msgno, (be32 mainc ++ be32 ass) ++ rep) in
      (r' : Router) × (deal_round true platforms routers sock prototype msg r ≡ continues r')
      × (lookup sock msgno r'.app_rep ≡ some (fired reply))
deal_round_replies platforms routers funcs handler sock prototype prototype_ass mainc ass msgno req
      rep r hm ha known routed there done waits =
    let reply : NMessage = (msgno, (be32 mainc ++ be32 ass) ++ rep) in
    (
      record r { app_rep = place sock msgno (fired reply) r.app_rep },
      unpacked platforms routers sock prototype prototype_ass mainc ass msgno req r hm ha known
          ∙ routed_to routers funcs handler mainc ass sock msgno req r routed there
          ∙ handled mainc ass handler sock msgno req rep r done
          ∙ answered sock msgno ((be32 mainc ++ be32 ass) ++ rep) r waits,
      lookup-place_self sock msgno (fired reply) r.app_rep,
    )
