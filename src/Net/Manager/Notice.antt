-- ===== src/Net/Manager/Notice.antt =====
-- When the sender of a request hears of its sending.
use sm.Base.{ℕ, ◌≡◌, refl, ap, ◌∙◌, Bool, true, false, Option, none, some, List}
use sm.Base.Map.{or_else, find, nat_eq}
use sm.Net.Router.{pending, fired, Router, NMessage, lookup, notify_send_net_complete}
use sm.Net.Router.Life.{send_pending, lookup-place_self}
use sm.Net.Manager.{Channel, LocalNetManager, send_on, send_pack}

send_on_found :
    (channels : List (ℕ × Channel)) (sock : ℕ) (msg : NMessage) (r : Router) (channel : Channel)
    → find sock channels ≡ some channel
    → send_on channels sock msg r ≡ (true, (notify_send_net_complete sock msg.0 (channel msg) r).1)
unfolding send_on
send_on_found channels sock msg r channel h = rw (h, send_on)

send_on_missing :
    (channels : List (ℕ × Channel)) (sock : ℕ) (msg : NMessage) (r : Router)
    → find sock channels ≡ none
    → send_on channels sock msg r ≡ (false, r)
unfolding send_on
send_on_missing channels sock msg r h = rw (h, send_on)

-- The channel of a socket: the maps are searched in this order.
abbrev pub channel_of : LocalNetManager → ℕ → Option Channel
channel_of m sock =
    or_else (find sock m.channels_tcp)
      (or_else (find sock m.channels_rep) (find sock m.channels_req))

-- What `sendPack` comes to.
abbrev pub outcome : Option Channel → ℕ → NMessage → Router → Bool × Router
outcome none sock msg r = (false, r)
outcome (some channel) sock msg r = (true, (notify_send_net_complete sock msg.0 (channel msg) r).1)

picks :
    (m : LocalNetManager) (sock : ℕ) (msg : NMessage) (r : Router) (tcp rep req : Option Channel)
    → find sock m.channels_tcp ≡ tcp
    → find sock m.channels_rep ≡ rep
    → find sock m.channels_req ≡ req
    → send_pack m sock msg r ≡ outcome (or_else tcp (or_else rep req)) sock msg r
unfolding send_pack
picks m sock msg r (some tcp) rep req h k l =
    rw (send_on_found m.channels_tcp sock msg r tcp h, send_pack)
picks m sock msg r none (some rep) req h k l = rw (
  send_on_missing m.channels_tcp sock msg r h,
  send_on_found m.channels_rep sock msg r rep k,
  send_pack,
)
picks m sock msg r none none (some req) h k l = rw (
  send_on_missing m.channels_tcp sock msg r h,
  send_on_missing m.channels_rep sock msg r k,
  send_on_found m.channels_req sock msg r req l,
  send_pack,
)
picks m sock msg r none none none h k l = rw (
  send_on_missing m.channels_tcp sock msg r h,
  send_on_missing m.channels_rep sock msg r k,
  send_on_missing m.channels_req sock msg r l,
  send_pack,
)

pub send_pack-channel_of :
    (m : LocalNetManager) (sock : ℕ) (msg : NMessage) (r : Router)
    → send_pack m sock msg r ≡ outcome (channel_of m sock) sock msg r
send_pack-channel_of m sock msg r =
    picks m sock msg r (find sock m.channels_tcp) (find sock m.channels_rep)
      (find sock m.channels_req) refl refl refl

notified :
    (sock : ℕ) (msg : NMessage) (flag : Bool) (r : Router)
    → lookup sock msg.0 r.send_complete ≡ some pending
    → lookup sock msg.0 (notify_send_net_complete sock msg.0 flag r).1.send_complete
      ≡ some (fired flag)
unfolding notify_send_net_complete
notified sock msg flag r h =
    rw (send_pending sock msg.0 flag r.send_complete h)
      (lookup-place_self sock msg.0 (fired flag) r.send_complete)

-- A message that is to be sent on a socket of the manager's goes to the socket's channel, those of
-- TCP first and those of requests last, and whoever waits for its sending is told what the channel
-- answered; `sendPack` answers yes, also where the channel did not. On any other socket the answer
-- is no, and whoever waits is told nothing and waits on.
pub send_pack_notifies :
    (m : LocalNetManager) (sock : ℕ) (msg : NMessage) (r : Router)
    → lookup sock msg.0 r.send_complete ≡ some pending
    → ((channel : Channel)
        → channel_of m sock ≡ some channel
        → ((send_pack m sock msg r).0 ≡ true)
          × (lookup sock msg.0 (send_pack m sock msg r).1.send_complete
              ≡ some (fired (channel msg))))
      × (channel_of m sock ≡ none → send_pack m sock msg r ≡ (false, r))
send_pack_notifies m sock msg r waits = rw (send_pack-channel_of m sock msg r) (
  λ channel h. (
    ap (λ o. (outcome o sock msg r).0) h,
    ap (λ o. lookup sock msg.0 (outcome o sock msg r).1.send_complete) h
        ∙ notified sock msg (channel msg) r waits,
  ),
  λ h. ap (λ o. outcome o sock msg r) h,
)
