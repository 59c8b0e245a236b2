-- ===== src/Tests/Deal.antt =====
-- Sending through the manager, and rounds of the router's coroutine.
use sm.Base.{◌≡◌, refl, true, false, none, some, [], ◌∷◌, ◌++◌, arith, ltb, length}
use sm.Base.Map.{find, nat_eq}
use sm.Utils.Endian.{be32}
use sm.Net.Dealer.{Handler}
use sm.Net.Platform.{main_ass, clone}
use sm.Net.Platform.Manager.{PackUnpackManager, clone_pack}
use sm.Net.Router.{Router, NMessage, pending, fired, lookup}
use sm.Net.Manager.{Channel, LocalNetManager, send_pack}
use sm.Net.Manager.Notice.{channel_of, send_pack_notifies}
use sm.Net.Deal.{continues, deal_round}
use sm.Net.Deal.Reply.{deal_round_replies}
use sm.Conf.Routes.{RoutersTrans, get_router_trans_by_main_c}

-- A channel that sends messages of one byte and more.
abbrev sends : Channel
sends msg = ltb 0 (length msg.1)

abbrev manager : LocalNetManager
manager = record { channels_tcp = []; channels_rep = (3, sends) ∷ []; channels_req = [] }

abbrev message : NMessage
message = (5, 1 ∷ 2 ∷ [])

abbrev waiting : Router
waiting = record {
  send_complete = (3, (5, pending) ∷ []) ∷ [];
  net_rep = [];
  app_rep = (3, (5, pending) ∷ []) ∷ [];
}

send_pack_notifies_example :
    ((channel : Channel)
      → channel_of manager 3 ≡ some channel
      → ((send_pack manager 3 message waiting).0 ≡ true)
        × (lookup 3 5 (send_pack manager 3 message waiting).1.send_complete
            ≡ some (fired (channel message))))
    × (channel_of manager 3 ≡ none → send_pack manager 3 message waiting ≡ (false, waiting))
unfolding lookup find
send_pack_notifies_example = send_pack_notifies manager 3 message waiting refl

abbrev platforms : PackUnpackManager
platforms = (4, main_ass 4 0) ∷ []

-- A handler that answers with its request.
abbrev echoes : Handler
echoes req = some req

abbrev routers : RoutersTrans Handler
routers = some ((4, (6, echoes) ∷ []) ∷ [])

deal_round_replies_example :
    let msg : NMessage = (5, (be32 4 ++ be32 6) ++ (1 ∷ [])) in
    (r' : Router) × (deal_round true platforms routers 3 4 msg waiting ≡ continues r')
    × (lookup 3 5 r'.app_rep ≡ some (fired msg))
unfolding lookup find clone_pack clone get_router_trans_by_main_c
deal_round_replies_example =
    deal_round_replies platforms routers ((6, echoes) ∷ []) echoes 3 4 0 4 6 5 (1 ∷ []) (1 ∷ [])
      waiting (omega arith) (omega arith) refl refl refl refl refl
