-- ===== src/Net/Pipe/Order.antt =====
-- Messages in order, and out of order.
use sm.Base.{
  ℕ, ◌^◌, ◌<◌, ◌≡◌, refl, sym, ap, ◌∙◌, Bool, true, false, some, List, [], ◌∷◌, ◌++◌, append-nil,
  append_assoc, arith, length, All,
}
use sm.Utils.Packet.{to_u32}
use sm.Net.Router.{NMessage}
use sm.Net.Frame.{StreamNetDealer, pack, unpack}
use sm.Net.Frame.RoundTrip.{frame_head, unpack-pack, unpack_short}
use sm.Net.Pipe.{
  Pipe, send_head, send_body, send_pipe, waits, delivers, asserts, recv_pipe, Use, sends, receives,
  sent, use_pipe,
}

-- A message whose number and length have 32 bits.
abbrev pub Fits : NMessage → Type 0
Fits msg = (msg.0 < 2 ^ 32) × (length msg.1 < 2 ^ 32)

All-append :
    (msgs : List NMessage) (msg : NMessage)
    → All Fits msgs
    → Fits msg
    → All Fits (msgs ++ (msg ∷ []))
All-append [] msg f g = (g, tt)
All-append (m ∷ msgs) msg (f, fs) g = (f, All-append msgs msg fs g)

-- What a list of messages is in the queue.
abbrev pub entries : List NMessage → Pipe
entries [] = []
entries (msg ∷ msgs) = frame_head msg.0 (length msg.1) ∷ msg.1 ∷ entries msgs

entries-append :
    (msgs : List NMessage) (msg : NMessage)
    → (entries msgs ++ (frame_head msg.0 (length msg.1) ∷ [])) ++ (msg.1 ∷ [])
      ≡ entries (msgs ++ (msg ∷ []))
entries-append [] msg = refl
entries-append (m ∷ msgs) msg =
    ap (λ p. frame_head m.0 (length m.1) ∷ m.1 ∷ p) (entries-append msgs msg)

send-entries :
    (msg : NMessage) (d : StreamNetDealer) (msgs : List NMessage)
    → (send_pipe msg d (entries msgs)).1 ≡ entries (msgs ++ (msg ∷ []))
unfolding send_pipe send_head send_body pack
send-entries msg d msgs = entries-append msgs msg

abbrev pub known : ℕ → ℕ → StreamNetDealer
known msgno len = record { len = to_u32 len; msgno = msgno }

unpack_head :
    (d : StreamNetDealer) (msgno len : ℕ)
    → msgno < 2 ^ 32
    → len < 2 ^ 32
    → unpack d (frame_head msgno len) ≡ (true, known msgno len)
unfolding pack
unpack_head d msgno len hn hl =
    ap (unpack d) (sym (append-nil (frame_head msgno len))) ∙ unpack-pack d d msgno len [] hn hl

unpacked_delivers :
    (debug : Bool) (d d' : StreamNetDealer) (head body : List ℕ) (pipe : Pipe)
    → unpack d head ≡ (true, d')
    → recv_pipe debug d (head ∷ body ∷ pipe) ≡ delivers (d'.msgno, body) d' pipe
unfolding recv_pipe
unpacked_delivers true d d' head body pipe h = rw h refl
unpacked_delivers false d d' head body pipe h = rw h refl

recv-entries :
    (debug : Bool) (d : StreamNetDealer) (msg : NMessage) (msgs : List NMessage)
    → Fits msg
    → recv_pipe debug d (entries (msg ∷ msgs))
      ≡ delivers msg (known msg.0 (length msg.1)) (entries msgs)
recv-entries debug d msg msgs (hn, hl) =
    unpacked_delivers debug d (known msg.0 (length msg.1)) (frame_head msg.0 (length msg.1)) msg.1
      (entries msgs) (unpack_head d msg.0 (length msg.1) hn hl)

recv_nothing : (debug : Bool) (d : StreamNetDealer) → recv_pipe debug d [] ≡ waits
unfolding recv_pipe
recv_nothing debug d = refl

-- Whenever one end sends messages and the other receives them, no send between the two halves of
-- another, the messages that were received, and behind them those that are in the queue, are those
-- that were sent, in their order; no assertion fails. Numbers and lengths have 32 bits.
pub use_pipe-sent :
    (debug : Bool) (uses : List Use) (d e : StreamNetDealer) (msgs left : List NMessage)
    → All Fits left
    → All Fits (sent uses)
    → (msgs' left' : List NMessage) × (use_pipe debug uses d e (entries left) msgs
        ≡ some (msgs', entries left'))
      × (msgs' ++ left' ≡ (msgs ++ left) ++ sent uses)
unfolding use_pipe
use_pipe-sent debug [] d e msgs left f g = (msgs, left, refl, sym (append-nil (msgs ++ left)))
use_pipe-sent debug (sends msg ∷ uses) d e msgs left f (g, gs) =
    let (msgs', left', run, order) =
      use_pipe-sent debug uses (send_pipe msg d (entries left)).0 e msgs (left ++ (msg ∷ []))
        (All-append left msg f g) gs in
    (msgs', left', rw (send-entries msg d left) run, order ∙ (simp append_assoc))
use_pipe-sent debug (receives ∷ uses) d e msgs [] f gs =
    let (msgs', left', run, order) = use_pipe-sent debug uses d e msgs [] f gs in
    (msgs', left', rw (recv_nothing debug e, use_pipe) run, order)
use_pipe-sent debug (receives ∷ uses) d e msgs (msg ∷ left) (f, fs) gs =
    let (msgs', left', run, order) =
      use_pipe-sent debug uses d (known msg.0 (length msg.1)) (msgs ++ (msg ∷ [])) left fs gs in
    (
      msgs',
      left',
      rw (recv-entries debug e msg left f, use_pipe) run,
      order ∙ ap (λ xs. xs ++ sent uses) (append_assoc msgs (msg ∷ []) left),
    )

unpack_keeps :
    (d : StreamNetDealer) (src : List ℕ)
    → (unpack d src).0 ≡ false
    → (unpack d src).1.msgno ≡ d.msgno
unfolding unpack
unpack_keeps d src h = ground arith

-- An entry that is taken for a head, though it is too short for one.
short_head :
    (head body : List ℕ) (pipe : Pipe) (d : StreamNetDealer)
    → length head < 8
    → (recv_pipe true d (head ∷ body ∷ pipe) ≡ asserts)
      × (d' : StreamNetDealer) × (recv_pipe false d (head ∷ body ∷ pipe)
          ≡ delivers (d.msgno, body) d' pipe)
unfolding recv_pipe
short_head head body pipe d h = (
  rw (unpack_short d head h) refl,
  (unpack d head).1,
  ap (λ n. delivers (n, body) (unpack d head).1 pipe) (unpack_keeps d head (unpack_short d head h)),
)

unpack_longer :
    (d : StreamNetDealer) (msgno len : ℕ) (others : List ℕ)
    → msgno < 2 ^ 32
    → len < 2 ^ 32
    → unpack d (frame_head msgno len ++ others) ≡ (true, known msgno len)
unfolding pack
unpack_longer d msgno len others hn hl = unpack-pack d d msgno len others hn hl

-- Two sends that overlap: the first puts its head, then the second its own, and then each its body,
-- in whichever order.
abbrev pub overlapping :
    Bool → NMessage → NMessage → StreamNetDealer → StreamNetDealer → Pipe → Pipe
overlapping true m1 m2 d d' pipe =
    send_body m2 (send_body m1 (send_head m2 d' (send_head m1 d pipe).1).1)
overlapping false m1 m2 d d' pipe =
    send_body m1 (send_body m2 (send_head m2 d' (send_head m1 d pipe).1).1)

-- The body that comes first, and the other one.
abbrev pub first_body : Bool → NMessage → NMessage → List ℕ
first_body true m1 m2 = m1.1
first_body false m1 m2 = m2.1

abbrev pub last_body : Bool → NMessage → NMessage → List ℕ
last_body true m1 m2 = m2.1
last_body false m1 m2 = m1.1

overlapping-bodies :
    (in_order : Bool) (m1 m2 : NMessage) (d d' : StreamNetDealer) (pipe : Pipe)
    → overlapping in_order m1 m2 d d' pipe
      ≡ pipe
        ++ (frame_head m1.0 (length m1.1)
            ∷ frame_head m2.0 (length m2.1)
            ∷ first_body in_order m1 m2
            ∷ last_body in_order m1 m2
            ∷ [])
unfolding send_head send_body pack
overlapping-bodies true m1 m2 d d' pipe = simp append_assoc
overlapping-bodies false m1 m2 d d' pipe = simp append_assoc

-- Where two sends overlap, whatever the queue held and in whichever order their bodies follow, it
-- holds the two heads and the two bodies behind that. The receiver takes the second head for the
-- body of the first message; then it takes the first of the two bodies for a head, and the other
-- for its body. If that first body is shorter than a head, an assertion fails, and without
-- assertions the other body comes under whatever number the receiver's dealer held; if it begins
-- with eight bytes that are the head of some number, the other body comes under that number. The
-- number and the length of the first message have 32 bits.
pub recv_pipe_overlap :
    (in_order debug : Bool) (d d' e : StreamNetDealer) (m1 m2 : NMessage) (pipe behind : Pipe)
    → Fits m1
    → let first = frame_head m1.0 (length m1.1) in
      let second = frame_head m2.0 (length m2.1) in
      let x = first_body in_order m1 m2 in
      let y = last_body in_order m1 m2 in
      (overlapping in_order m1 m2 d d' pipe ≡ pipe ++ (first ∷ second ∷ x ∷ y ∷ []))
      × (recv_pipe debug e (first ∷ second ∷ x ∷ y ∷ behind)
          ≡ delivers (m1.0, second) (known m1.0 (length m1.1)) (x ∷ y ∷ behind))
      × ((e1 : StreamNetDealer)
          → length x < 8
          → (recv_pipe true e1 (x ∷ y ∷ behind) ≡ asserts)
            × (e2 : StreamNetDealer) × (recv_pipe false e1 (x ∷ y ∷ behind)
                ≡ delivers (e1.msgno, y) e2 behind))
      × ((e1 : StreamNetDealer) (number len : ℕ) (others : List ℕ)
          → number < 2 ^ 32
          → len < 2 ^ 32
          → x ≡ frame_head number len ++ others
          → recv_pipe debug e1 (x ∷ y ∷ behind) ≡ delivers (number, y) (known number len) behind)
recv_pipe_overlap in_order debug d d' e m1 m2 pipe behind (hn, hl) =
    let x = first_body in_order m1 m2 in
    let y = last_body in_order m1 m2 in
    (
      overlapping-bodies in_order m1 m2 d d' pipe,
      unpacked_delivers debug e (known m1.0 (length m1.1)) (frame_head m1.0 (length m1.1))
          (frame_head m2.0 (length m2.1)) (x ∷ y ∷ behind) (unpack_head e m1.0 (length m1.1) hn hl),
      λ e1 short. short_head x y behind e1 short,
      λ e1 number len others fits fits' begins.
          unpacked_delivers debug e1 (known number len) x y behind
            (ap (unpack e1) begins ∙ unpack_longer e1 number len others fits fits'),
    )
