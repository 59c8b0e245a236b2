-- ===== src/Net/Manager.antt =====
-- networkinterface/LocalNetManager.cpp: which channel sends a message, and the notice of the sending
-- that the router gets. The channels are parameters.
pub mod Notice
use sm.Base.{
  ℕ, zero, suc, ◌+◌, ◌-◌, ◌*◌, ◌/◌, ◌%◌, ◌^◌, ◌≤◌, ◌<◌, ◌≡◌, refl, sym, ap, ap₂, ◌∙◌, fun_ext, ◌≢◌,
  ◌↔◌, ◌⊎◌, inl, inr, Bool, true, false, not, ◌&&◌, ◌||◌, Option, none, some, List, [], ◌∷◌, ◌++◌,
  append-nil, append_assoc, map, arith, ltb, leb, ◌==◌, if◌then◌else◌, ltb→lt, lt→ltb, le→ltb,
  ==→eq, ==_refl, tests, Bool-cases, Option-cases, length, take, drop, length-append, take-append,
  drop-append, drop-append_cons, take-append_at, drop-append_at, take-append_drop, take_of_length,
  drop_of_length, length-drop, length-take, take-append_le, drop-append_le, All, Bytes, dec_lt,
  dec_le, ℕ_discrete,
}
use sm.Base.Map.{find, nat_eq}
use sm.Net.Router.{Router, NMessage, notify_send_net_complete}

-- `sendMessage` of a channel: whether the message was sent.
abbrev pub Channel : Type 0
Channel = NMessage → Bool

pub record LocalNetManager : Type 0 where
  pub channels_tcp : List (ℕ × Channel)
  pub channels_rep : List (ℕ × Channel)
  pub channels_req : List (ℕ × Channel)

-- `_sendTcp`, `_sendRep` and `_sendReq`, each on its own map.
unfoldable pub send_on : List (ℕ × Channel) → ℕ → NMessage → Router → Bool × Router
send_on channels sock msg r = elim (find sock channels) [
  | none ↦ (false, r)
  | some channel ↦ (true, (notify_send_net_complete sock msg.0 (channel msg) r).1)
]

-- `sendPack(int sock, shared_ptr<NMessage> msg)`
unfoldable pub send_pack : LocalNetManager → ℕ → NMessage → Router → Bool × Router
send_pack m sock msg r =
    let (tcp, r') = send_on m.channels_tcp sock msg r in
    let (rep, r'') = send_on m.channels_rep sock msg r' in
    let req = send_on m.channels_req sock msg r'' in
    if tcp then (true, r') else (if rep then (true, r'') else req)
