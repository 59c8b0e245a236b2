-- ===== src/Net/Nng/Once.antt =====
-- An answering context of NNG gets one request.
use sm.Base.{
  ℕ, suc, ◌+◌, ◌≤◌, ◌<◌, ◌≡◌, refl, ap, inl, inr, Bool, true, false, List, [], ◌∷◌, ◌++◌, arith,
  ◌==◌, Bool-cases, length, length-append,
}
use sm.Net.Router.{NMessage}
use sm.Net.Nng.{rep_recv_pack}
use sm.Net.Nng.Context.{
  NngStatus, init, recv, wait, send, aio_error, AsynRepImpl, new_context, clean_req_rep_cache,
  called_back, rep_callback, rep_send_pack, is_init, Given, waits, gives, asserts, first_msg,
  context_recv,
}

-- The calls of a context: of its callback by NNG, of `sendPack`, and of `recvPack` without assertions.
pub data Use : Type 0 where
  calls : ℕ → List ℕ → Use
  answers : Bool → Bool → Bool → List ℕ → Use
  takes : Use

abbrev pub after_recv : Given → AsynRepImpl → List NMessage → AsynRepImpl × List NMessage
after_recv waits r got = (r, got)
after_recv (gives msg r') r got = (r', got ++ (msg ∷ []))
after_recv asserts r got = (r, got)

unfoldable pub use_one : Use → AsynRepImpl → List NMessage → AsynRepImpl × List NMessage
use_one (calls nop msg) r got = (rep_callback nop msg r, got)
use_one (answers made appended begins src) r got =
    ((rep_send_pack made appended begins src r).1, got)
use_one takes r got = after_recv (context_recv false r) r got

-- The context after a list of calls, and the messages that were taken from it.
unfoldable pub use_context : List Use → AsynRepImpl → List NMessage → AsynRepImpl × List NMessage
use_context [] r got = (r, got)
use_context (u ∷ us) r got = let (r', got') = use_one u r got in use_context us r' got'

-- How many messages a context of a status has had at most.
abbrev most : NngStatus → ℕ
most init = 0
most recv = 0
most wait = 1
most send = 1
most aio_error = 1

most_one : (s : NngStatus) → most s ≤ 1
most_one init = omega arith
most_one recv = omega arith
most_one wait = omega arith
most_one send = omega arith
most_one aio_error = omega arith

abbrev Few : AsynRepImpl → List NMessage → Type 0
Few r got = length got + length r.msgs ≤ most r.status

called-Few :
    (s : NngStatus) (nop : ℕ) (msg : List ℕ) (r : AsynRepImpl) (got : List NMessage)
    → r.status ≡ s
    → Few r got
    → Few (called_back s nop msg r) got
unfolding called_back clean_req_rep_cache
called-Few init nop msg r got e h = let early : most r.status ≡ 0 = ap most e in omega arith
called-Few recv nop msg r got e h =
    let early : most r.status ≡ 0 = ap most e in
    elim (Bool-cases (nop == 0)) [
      | inl k ↦ rw k (rw (length-append r.msgs (msg ∷ [])) (omega arith))
      | inr k ↦ rw k (omega arith)
    ]
called-Few wait nop msg r got e h = h
called-Few send nop msg r got e h = h
called-Few aio_error nop msg r got e h = h

sent-Few :
    (made appended begins : Bool) (src : List ℕ) (r : AsynRepImpl) (got : List NMessage)
    → Few r got
    → Few (rep_send_pack made appended begins src r).1 got
unfolding rep_send_pack
sent-Few false appended begins src r got h = h
sent-Few true false begins src r got h = h
sent-Few true true false src r got h = let one = most_one r.status in omega arith
sent-Few true true true src r got h = h

taken-Few :
    (msgs : List (List ℕ)) (r : AsynRepImpl) (got : List NMessage)
    → r.msgs ≡ msgs
    → Few r got
    → Few (after_recv (first_msg msgs r) r got).0 (after_recv (first_msg msgs r) r got).1
taken-Few [] r got e h = h
taken-Few (msg ∷ msgs) r got e h =
    let held : length r.msgs ≡ suc (length msgs) = ap length e in
    rw (length-append got (rep_recv_pack msg ∷ [])) (omega arith)

used-Few :
    (u : Use) (r : AsynRepImpl) (got : List NMessage)
    → Few r got
    → Few (use_one u r got).0 (use_one u r got).1
unfolding use_one rep_callback context_recv
used-Few (calls nop msg) r got h = called-Few r.status nop msg r got refl h
used-Few (answers made appended begins src) r got h = sent-Few made appended begins src r got h
used-Few takes r got h = taken-Few r.msgs r got refl h

all-Few :
    (us : List Use) (r : AsynRepImpl) (got : List NMessage)
    → Few r got
    → Few (use_context us r got).0 (use_context us r got).1
unfolding use_context
all-Few [] r got h = h
all-Few (u ∷ us) r got h = all-Few us (use_one u r got).0 (use_one u r got).1 (used-Few u r got h)

-- A context that has had a message is past its first status, and holds no other.
stuck :
    (s : NngStatus) (msgs : List (List ℕ)) (n : ℕ) (r : AsynRepImpl)
    → 0 < n
    → n + length msgs ≤ most s
    → (is_init s ≡ false) × (first_msg msgs r ≡ waits)
stuck init msgs n r p h = absurd (omega arith)
stuck recv msgs n r p h = absurd (omega arith)
stuck wait [] n r p h = (refl, refl)
stuck wait (msg ∷ msgs) n r p h = absurd (omega arith)
stuck send [] n r p h = (refl, refl)
stuck send (msg ∷ msgs) n r p h = absurd (omega arith)
stuck aio_error [] n r p h = (refl, refl)
stuck aio_error (msg ∷ msgs) n r p h = absurd (omega arith)

-- However often NNG calls back and with whatever messages, and whatever is sent and taken: a context
-- gives one message at most; once it gave one, the next `recvPack` fails its assertion, and without
-- assertions waits, also after any further calls.
pub nng_context_receives_once :
    (us : List Use)
    → let (r, got) = use_context us new_context [] in
      (length got + length r.msgs ≤ 1)
      × (0 < length got → (context_recv true r ≡ asserts) × (context_recv false r ≡ waits))
unfolding context_recv new_context
nng_context_receives_once us =
    let r = (use_context us new_context []).0 in
    let got = (use_context us new_context []).1 in
    let few = all-Few us new_context [] (omega arith) in
    let one = most_one r.status in
    (
      omega arith,
      λ p. let (past, empty) = stuck r.status r.msgs (length got) r p few in (rw past refl, empty),
    )
