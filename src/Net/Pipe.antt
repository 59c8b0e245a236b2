-- ===== src/Net/Pipe.antt =====
-- networkinterface/FullDuplexChannel.cpp: one direction of a pair of channels. A message is two
-- entries of a queue, its head and its body. The queue takes any number of entries; the source's
-- holds sixteen, and a sender that finds it full waits.
pub mod Order
use sm.Base.{
  ℕ, zero, suc, ◌+◌, ◌-◌, ◌*◌, ◌/◌, ◌%◌, ◌^◌, ◌≤◌, ◌<◌, ◌≡◌, refl, sym, ap, ap₂, ◌∙◌, fun_ext, ◌≢◌,
  ◌↔◌, ◌⊎◌, inl, inr, Bool, true, false, not, ◌&&◌, ◌||◌, Option, none, some, List, [], ◌∷◌, ◌++◌,
  append-nil, append_assoc, map, arith, ltb, leb, ◌==◌, if◌then◌else◌, ltb→lt, lt→ltb, le→ltb,
  ==→eq, ==_refl, tests, Bool-cases, Option-cases, length, take, drop, length-append, take-append,
  drop-append, drop-append_cons, take-append_at, drop-append_at, take-append_drop, take_of_length,
  drop_of_length, length-drop, length-take, take-append_le, drop-append_le, All, Bytes, dec_lt,
  dec_le, ℕ_discrete,
}
use sm.Net.Router.{NMessage}
use sm.Net.Frame.{StreamNetDealer, pack, unpack}

abbrev pub Pipe : Type 0
Pipe = List (List ℕ)

-- `_netpack` of an end, which both directions use.
unfoldable pub send_head : NMessage → StreamNetDealer → Pipe → StreamNetDealer × Pipe
send_head msg netpack pipe =
    let (netpack', strhead) = pack netpack msg.0 (length msg.1) in
    (netpack', pipe ++ (strhead ∷ []))

unfoldable pub send_body : NMessage → Pipe → Pipe
send_body msg pipe = pipe ++ (msg.1 ∷ [])

-- `sendPack`, where nobody else sends between the two.
unfoldable pub send_pipe : NMessage → StreamNetDealer → Pipe → StreamNetDealer × Pipe
send_pipe msg netpack pipe =
    let (netpack', pipe') = send_head msg netpack pipe in (netpack', send_body msg pipe')

-- What `recvPack` does: it waits for two entries. A head that is too short stops a build with
-- assertions; without them the number is what the dealer last held.
pub data Delivery : Type 0 where
  waits : Delivery
  delivers : NMessage → StreamNetDealer → Pipe → Delivery
  asserts : Delivery

unfoldable pub recv_pipe : Bool → StreamNetDealer → Pipe → Delivery
recv_pipe debug netpack [] = waits
recv_pipe debug netpack (head ∷ []) = waits
recv_pipe debug netpack (head ∷ body ∷ pipe) =
    let (ok, netpack') = unpack netpack head in
    if debug && not ok then asserts else delivers (netpack'.msgno, body) netpack' pipe

-- One end sends while the other receives: what was received, and what the queue holds. An assertion
-- that fails gives `none`.
pub data Use : Type 0 where
  sends : NMessage → Use
  receives : Use

abbrev pub sent : List Use → List NMessage
sent [] = []
sent (sends msg ∷ uses) = msg ∷ sent uses
sent (receives ∷ uses) = sent uses

unfoldable pub use_pipe :
    Bool
    → List Use
    → StreamNetDealer
    → StreamNetDealer
    → Pipe
    → List NMessage
    → Option (List NMessage × Pipe)
use_pipe debug [] d e pipe msgs = some (msgs, pipe)
use_pipe debug (sends msg ∷ uses) d e pipe msgs =
    let (d', pipe') = send_pipe msg d pipe in use_pipe debug uses d' e pipe' msgs
use_pipe debug (receives ∷ uses) d e pipe msgs = elim (recv_pipe debug e pipe) [
  | waits ↦ use_pipe debug uses d e pipe msgs
  | delivers msg e' pipe' ↦ use_pipe debug uses d e' pipe' (msgs ++ (msg ∷ []))
  | asserts ↦ none
]
