-- ===== src/Net/Sockets/Uses.antt =====
-- Calls of the manager, one behind the other, and the numbers that are in use then.
use sm.Base.{
  ℕ, ◌+◌, ◌-◌, ◌%◌, ◌≤◌, ◌<◌, ◌≡◌, Bool, true, false, ◌&&◌, Option, none, some, List, [], ◌∷◌, ltb,
  leb, ◌==◌, if◌then◌else◌, length,
}
use sm.Base.Map.{find, nat_eq}
use sm.Net.Manager.{Channel}
use sm.Net.Manager.Notice.{channel_of}
use sm.Net.Sockets.{
  Sockets, create_pair, create_tcp_channel, create_req, create_rep, send_data, Taken, waits, null,
  takes, recv_data,
}

abbrev pub no_sockets : Sockets
no_sockets = record {
  index = 0;
  sock_no = 0;
  channel_pairs = [];
  senddata = [];
  channels = [];
  manager = record { channels_tcp = []; channels_rep = []; channels_req = [] };
}

-- A call that changes the manager.
pub data Use : Type 0 where
  pair : Use
  tcp : Channel → Use
  req : Channel → Use
  rep : Bool → List (Bool × Bool × Channel) → Bool → Use
  sends : ℕ → List ℕ → Use
  receives : ℕ → Use

abbrev pub left_by : Sockets → Taken → Sockets
left_by m waits = m
left_by m null = m
left_by m (takes msg m') = m'

unfoldable pub use_one : Use → Sockets → Sockets
use_one pair m = (create_pair m).1
use_one (tcp channel) m = (create_tcp_channel channel m).1
use_one (req channel) m = (create_req channel m).1
use_one (rep opened outcomes listening) m = (create_rep opened outcomes listening m).1
use_one (sends sock msg) m = (send_data sock msg m).1
use_one (receives sock) m = left_by m (recv_data sock m)

abbrev pub use_all : List Use → Sockets → Sockets
use_all [] m = m
use_all (u ∷ us) m = use_all us (use_one u m)

-- How many numbers the calls use up at most.
abbrev pub cost_one : Use → ℕ
cost_one pair = 2
cost_one (tcp channel) = 1
cost_one (req channel) = 1
cost_one (rep opened outcomes listening) = length outcomes
cost_one u = 0

abbrev pub cost : List Use → ℕ
cost [] = 0
cost (u ∷ us) = cost_one u + cost us

-- The other end of a pair.
abbrev pub peer : ℕ → ℕ
peer n = if n % 2 == 1 then n + 1 else n - 1

-- The numbers from 1 to the last one.
abbrev pub in_range : ℕ → ℕ → Bool
in_range n last = ltb 0 n && leb n last

abbrev pub is_some {ℓ} : {A : Type ℓ} → Option A → Bool
is_some none = false
is_some (some a) = true

-- The numbers that the pairs and the network's channels have, and how many were used up.
pub record IsNumbered (used : ℕ) (m : Sockets) : Type 0 where
  pub paired : m.index % 2 ≡ 0
  pub few : (m.index ≤ used) × (m.sock_no ≤ used)
  pub ends : (n : ℕ) → find n m.channel_pairs ≡ (if in_range n m.index then some (peer n) else none)
  pub queues : (n : ℕ) → is_some (find n m.senddata) ≡ in_range n m.index
  pub network : (n : ℕ) → m.sock_no < n → channel_of m.manager n ≡ none
