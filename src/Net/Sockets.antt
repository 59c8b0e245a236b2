-- ===== src/Net/Sockets.antt =====
-- networkinterface/LocalNetManager.cpp: the creation of channels, and the queues between the ends of
-- a pair. `_Index` and `_sockNo` are kept as bit patterns of 32 bits. What NNG and a socket answer is
-- a parameter. The queues take any number of texts; the source's hold ten, and a sender waits then.
pub mod Uses
pub mod Create
pub mod Numbers
pub mod Ends
use sm.Base.{
  ℕ, zero, suc, ◌+◌, ◌-◌, ◌*◌, ◌/◌, ◌%◌, ◌^◌, ◌≤◌, ◌<◌, ◌≡◌, refl, sym, ap, ap₂, ◌∙◌, fun_ext, ◌≢◌,
  ◌↔◌, ◌⊎◌, inl, inr, Bool, true, false, not, ◌&&◌, ◌||◌, Option, none, some, List, [], ◌∷◌, ◌++◌,
  append-nil, append_assoc, map, arith, ltb, leb, ◌==◌, if◌then◌else◌, ltb→lt, lt→ltb, le→ltb,
  ==→eq, ==_refl, tests, Bool-cases, Option-cases, length, take, drop, length-append, take-append,
  drop-append, drop-append_cons, take-append_at, drop-append_at, take-append_drop, take_of_length,
  drop_of_length, length-drop, length-take, take-append_le, drop-append_le, All, Bytes, dec_lt,
  dec_le, ℕ_discrete,
}
use sm.Base.Map.{find, insert, assign, nat_eq}
use sm.Net.Channel.{ChannelMode, initiative, passive}
use sm.Net.Manager.{Channel, LocalNetManager}

pub record Sockets : Type 0 where
  pub index : ℕ
  pub sock_no : ℕ
  pub channel_pairs : List (ℕ × ℕ)
  pub senddata : List (ℕ × List (List ℕ))
  pub channels : List (ℕ × ChannelMode)
  pub manager : LocalNetManager

-- `++_Index` and `newSockNo`.
unfoldable pub next : ℕ → ℕ
next n = (n + 1) % 2 ^ 32

-- `createPair`: the two numbers, and the manager.
unfoldable pub create_pair : Sockets → (ℕ × ℕ) × Sockets
create_pair m =
    let f = next m.index in
    let s = next f in
    (
      (f, s),
      record m {
        index = s;
        channel_pairs = insert s f (insert f s m.channel_pairs);
        senddata = insert s [] (insert f [] m.senddata);
        channels = insert s passive (insert f initiative m.channels);
      },
    )

unfoldable pub create_tcp_channel : Channel → Sockets → ℕ × Sockets
create_tcp_channel channel m =
    let sockno = next m.sock_no in
    (
      sockno,
      record m {
        sock_no = sockno;
        manager = record m.manager { channels_tcp = insert sockno channel m.manager.channels_tcp };
      },
    )

unfoldable pub create_req : Channel → Sockets → ℕ × Sockets
create_req channel m =
    let sockno = next m.sock_no in
    (
      sockno,
      record m {
        sock_no = sockno;
        manager = record m.manager { channels_req = insert sockno channel m.manager.channels_req };
      },
    )

-- The loop of `createRep`: whether NNG makes the input and the context of each channel. A number is
-- used up also where it does not.
unfoldable pub create_reps : List (Bool × Bool × Channel) → Sockets → Bool × Sockets
create_reps [] m = (true, m)
create_reps ((allocated, opened, channel) ∷ rest) m =
    let sockno = next m.sock_no in
    let made = record m {
      sock_no = sockno;
      manager = record m.manager { channels_rep = insert sockno channel m.manager.channels_rep };
    } in
    let others = create_reps rest made in
    if allocated && opened then others else (false, record m { sock_no = sockno })

-- `createRep`: whether the socket opens, and whether it listens. Where it does not, the channels stay.
unfoldable pub create_rep : Bool → List (Bool × Bool × Channel) → Bool → Sockets → Bool × Sockets
create_rep opened outcomes listening m =
    let (all_made, m') = create_reps outcomes m in
    if opened then (if all_made then (listening, m') else (false, m')) else (false, m)

-- `sendPack(int sock, shared_ptr<string> msg)`
unfoldable pub send_data : ℕ → List ℕ → Sockets → Bool × Sockets
send_data sock msg m = elim (find sock m.senddata) [
  | none ↦ (false, m)
  | some queue ↦ (true, record m { senddata = assign sock (queue ++ (msg ∷ [])) m.senddata })
]

-- What `recvPack` does: it waits, gives a null pointer, or takes the first text.
pub data Taken : Type 0 where
  waits : Taken
  null : Taken
  takes : List ℕ → Sockets → Taken

unfoldable pub take_first : ℕ → List (List ℕ) → Sockets → Taken
take_first sock [] m = waits
take_first sock (msg ∷ queue) m = takes msg (record m { senddata = assign sock queue m.senddata })

-- `recvPack`: from the queue of the other end.
unfoldable pub recv_data : ℕ → Sockets → Taken
recv_data sock m = elim (find sock m.channel_pairs) [
  | none ↦ null
  | some peer ↦ elim (find peer m.senddata) [ none ↦ null | some queue ↦ take_first peer queue m ]
]
