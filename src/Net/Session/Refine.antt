-- ===== src/Net/Session/Refine.antt =====
-- What a session is for one of its requests: a machine that hears of its sending and its response.
use sm.Base.{ℕ, Bool, true, false, Option, none, some, List, [], ◌∷◌, ◌==◌, if◌then◌else◌}
use sm.Base.Map.{find, nat_eq}
use sm.Net.Router.{Signal, pending, fired, NMessage, lookup, can_req_rep}
use sm.Net.Router.Lookup.{same}
use sm.Net.Channel.{new_req}
use sm.Net.Manager.{Channel, LocalNetManager}
use sm.Net.Manager.Notice.{channel_of}
use sm.Net.Session.{
  Setting, Phase, awaits_sent, awaits_rep, Ret, responded, unsent, threw, Session, Event, begins,
  resumes, sends, receives, deals, answers,
}
use sm.Net.Session.Frames.{tell}

-- A request as whoever made it sees it.
pub data Request : Type 0 where
  unknown : Request
  outstanding : Phase → Option (Signal Bool) → Option (Signal NMessage) → Request
  ended : Ret → Request

abbrev pub past : Option Ret → Request
past none = unknown
past (some ret) = ended ret

abbrev pub seen :
    Option Phase → Option Ret → Option (Signal Bool) → Option (Signal NMessage) → Request
seen none ret is_sent rep = past ret
seen (some phase) ret is_sent rep = outstanding phase is_sent rep

unfoldable pub view : Setting → ℕ → Session → Request
view c n s =
    seen (find n s.waiting) (find n s.done) (lookup c.sock n s.router.send_complete)
      (lookup c.sock n s.router.net_rep)

-- What a step of a session is for a request.
pub data Input : Type 0 where
  asked : Input
  refused : Input
  told : Bool → Input
  answered : NMessage → Input
  resumed : Input
  other : Input

unfoldable pub go_on : Request → Request
go_on (outstanding awaits_sent (some (fired true)) rep) =
    outstanding awaits_rep (some (fired true)) rep
go_on (outstanding awaits_sent (some (fired false)) rep) = ended unsent
go_on (outstanding awaits_sent (some pending) rep) = outstanding awaits_sent (some pending) rep
go_on (outstanding awaits_sent none rep) = outstanding awaits_sent none rep
go_on (outstanding awaits_rep is_sent (some (fired msg))) = ended (responded msg.1)
go_on (outstanding awaits_rep is_sent (some pending)) =
    outstanding awaits_rep is_sent (some pending)
go_on (outstanding awaits_rep is_sent none) = outstanding awaits_rep is_sent none
go_on unknown = unknown
go_on (ended ret) = ended ret

unfoldable pub advance : Input → Request → Request
advance asked q = outstanding awaits_sent (some pending) (some pending)
advance refused (outstanding phase is_sent rep) = outstanding phase is_sent rep
advance refused unknown = ended threw
advance refused (ended ret) = ended threw
advance (told flag) (outstanding phase is_sent rep) = outstanding phase (tell flag is_sent) rep
advance (told flag) unknown = unknown
advance (told flag) (ended ret) = ended ret
advance (answered msg) (outstanding phase is_sent rep) = outstanding phase is_sent (tell msg rep)
advance (answered msg) unknown = unknown
advance (answered msg) (ended ret) = ended ret
advance resumed q = go_on q
advance other q = q

abbrev pub told_by : Option Channel → NMessage → Input
told_by none msg = other
told_by (some channel) msg = told (channel msg)

-- The message in front of the queue is the request's.
abbrev pub sending : Setting → ℕ → LocalNetManager → List (ℕ × NMessage) → Input
sending c n m [] = other
sending c n m ((sockno, msg) ∷ rest) =
    if same sockno msg.0 c.sock n then told_by (channel_of m sockno) msg else other

unfoldable pub input : Setting → ℕ → Event → Session → Input
input c n (begins body) s =
    let k = new_req c.mode s.req_no in
    if k == n then (if can_req_rep c.sock k s.router then asked else refused) else other
input c n (resumes k) s = if k == n then resumed else other
input c n (sends m) s = sending c n m s.dataapp
input c n (receives msg) s = if msg.0 == n then answered msg else other
input c n deals s = other
input c n (answers k) s = other
