-- ===== src/Net/Dealer.antt =====
-- networkinterface/PackDealerMainSub.cpp, PackDealerNoMain.cpp, PackDealerNoHead.cpp and their base
-- PackDealerCommon.cpp: the heads of a request unpacked, the request handled, the response packed.
-- Assertions are taken as compiled out; where one fails the debug build stops instead.
pub mod Body
pub mod Deal
use sm.Base.{
  ℕ, zero, suc, ◌+◌, ◌-◌, ◌*◌, ◌/◌, ◌%◌, ◌^◌, ◌≤◌, ◌<◌, ◌≡◌, refl, sym, ap, ap₂, ◌∙◌, fun_ext, ◌≢◌,
  ◌↔◌, ◌⊎◌, inl, inr, Bool, true, false, not, ◌&&◌, ◌||◌, Option, none, some, List, [], ◌∷◌, ◌++◌,
  append-nil, append_assoc, map, arith, ltb, leb, ◌==◌, if◌then◌else◌, ltb→lt, lt→ltb, le→ltb,
  ==→eq, ==_refl, tests, Bool-cases, Option-cases, length, take, drop, length-append, take-append,
  drop-append, drop-append_cons, take-append_at, drop-append_at, take-append_drop, take_of_length,
  drop_of_length, length-drop, length-take, take-append_le, drop-append_le, All, Bytes, dec_lt,
  dec_le, ℕ_discrete,
}
use sm.Base.Map.{find, nat_eq}
use sm.Utils.MainCmd.{main_cmd_begin, default_main}
use sm.Utils.Packet.{
  Outs, to_u16, to_u32, packmaincmd3_seq, packmaincmd3_ass, packmaincmd3_len, uppackmaincmd3_seq,
  uppackmaincmd3_seq_view, uppackmaincmd3_ass, uppackmaincmd3_len, uppackmaincmd3_len_view,
}

-- A handler of a route gets the request. Its result is a shared pointer, null if it threw: `none`.
abbrev pub Handler : Type 0
Handler = List ℕ → Option (List ℕ)

-- `TransRouterElement`, the handlers of a main command by assistant command.
abbrev pub Routes : Type 0
Routes = List (ℕ × Handler)

-- What `dealmsg` ends in: a response, a null pointer, or the use of a null pointer.
pub data Dealt : Type 0 where
  replied : List ℕ → Dealt
  no_reply : Dealt
  undefined_behaviour : Dealt

-- The variables that `unpack` declares, with what the caller's sequence number holds.
abbrev pub locals : ℕ → Outs
locals seqnum = record {
  seqnum = seqnum;
  mainc = main_cmd_begin;
  assc = 0xffff;
  msglen = 0;
  msg = [];
}

pub record MainSub : Type 0 where
  pub seqnumreq : ℕ
  pub seqnumrep : ℕ
  pub assc : ℕ
  pub mainc : ℕ

-- `PackDealerMainSub::unpack(seqNumType* seqnum, string& pack)`: the returned text or null, the
-- dealer, the caller's sequence number and its bytes. The bytes behind the head are appended to the
-- text once by `uppackmaincmd3` and once more here.
unfoldable pub unpack : MainSub → ℕ → List ℕ → Option (List ℕ) × MainSub × ℕ × List ℕ
unpack d seqnum pack =
    let (bsucc, out, left) = uppackmaincmd3_seq (locals seqnum) pack in
    if bsucc && (d.mainc == out.mainc)
    then (some (out.msg ++ left), record d { assc = out.assc }, out.seqnum, left)
    else (none, d, out.seqnum, left)

-- `unpack(seqNumType* seqnum, string_view pack)`
unfoldable pub unpack_view : MainSub → ℕ → List ℕ → Option (List ℕ) × MainSub × ℕ
unpack_view d seqnum pack =
    let (bsucc, out) = uppackmaincmd3_seq_view (locals seqnum) pack in
    if bsucc && (out.mainc == d.mainc)
    then (some out.msg, record d { assc = out.assc }, out.seqnum)
    else (none, d, out.seqnum)

-- `unpack(string_view pack)` keeps the sequence number of the request.
unfoldable pub unpack_own : MainSub → List ℕ → Option (List ℕ) × MainSub
unpack_own d pack =
    let (ret, d', seqnum) = unpack_view d d.seqnumreq pack in
    (ret, record d' { seqnumreq = seqnum })

unfoldable pub pack : MainSub → ℕ → List ℕ → List ℕ
pack d seqnum msg = packmaincmd3_seq seqnum d.mainc d.assc [] msg

unfoldable pub pack_ass : MainSub → ℕ → List ℕ → ℕ → List ℕ
pack_ass d seqnum msg assc = packmaincmd3_seq seqnum d.mainc assc [] msg

-- `pack(string_view msg)` takes the next sequence number.
unfoldable pub pack_next : MainSub → List ℕ → List ℕ × MainSub
pack_next d msg =
    let seqnum = to_u32 (d.seqnumreq + 1) in
    (packmaincmd3_seq seqnum d.mainc d.assc [] msg, record d { seqnumreq = seqnum })

-- What follows the lookup of the handler: it is called on `*pstrreq`.
abbrev pub call_handler : Handler → Option (List ℕ) → (List ℕ → List ℕ) → Dealt
call_handler handler none packed = undefined_behaviour
call_handler handler (some req) packed = elim (handler req) [
  | none ↦ undefined_behaviour
  | some [] ↦ no_reply
  | some (b ∷ rep) ↦ replied (packed (b ∷ rep))
]

-- The second half of `dealmsg`, from the lookup of the handler on.
unfoldable pub serve : Routes → MainSub → Option (List ℕ) → Dealt
serve funcs d pstrreq = elim (find d.assc funcs) [
  | none ↦ no_reply
  | some handler ↦ call_handler handler pstrreq (λ rep. pack_ass d d.seqnumreq rep d.assc)
]

-- `dealmsg`; the routes of the dealer's main command are found when it is made.
unfoldable pub dealmsg : Routes → MainSub → List ℕ → Dealt × MainSub
dealmsg funcs d msg =
    let (pstrreq, d', seqnum, left) = unpack d d.seqnumreq msg in
    let d'' : MainSub = record d' { seqnumreq = seqnum } in (serve funcs d'' pstrreq, d'')

-- `PackDealerNoMain` has an assistant command of its own, which `unpack` reads over but does not set.
pub record NoMain : Type 0 where
  pub assc : ℕ

unfoldable pub unpack_no_main : NoMain → List ℕ → List ℕ × List ℕ
unpack_no_main d pack = let (ok, out, left) = uppackmaincmd3_ass (locals 0) pack in (out.msg, left)

unfoldable pub pack_no_main : List ℕ → ℕ → List ℕ
pack_no_main msg assc = packmaincmd3_ass assc [] msg

-- Here a response that is null is no response.
abbrev pub call_checked : Handler → List ℕ → (List ℕ → List ℕ) → Dealt
call_checked handler req packed = elim (handler req) [
  | none ↦ no_reply
  | some [] ↦ no_reply
  | some (b ∷ rep) ↦ replied (packed (b ∷ rep))
]

unfoldable pub dealmsg_no_main : Routes → NoMain → List ℕ → Dealt
dealmsg_no_main funcs d msg = elim (find d.assc funcs) [
  | none ↦ no_reply
  | some handler ↦ call_checked handler (unpack_no_main d msg).0 (λ rep. pack_no_main rep d.assc)
]

-- `PackDealerNoHead`, whose messages have only their length in front.
unfoldable pub unpack_no_head : List ℕ → List ℕ × List ℕ
unpack_no_head pack = let (ok, out, left) = uppackmaincmd3_len (locals 0) pack in (out.msg, left)

unfoldable pub unpack_no_head_view : List ℕ → List ℕ
unpack_no_head_view pack = (uppackmaincmd3_len_view (locals 0) pack).1.msg

-- The message is inserted once by `packmaincmd3` and once more here.
unfoldable pub pack_no_head : List ℕ → List ℕ
pack_no_head msg = packmaincmd3_len [] msg ++ msg

-- The first handler, that of the least assistant command, serves every message; the routes are listed
-- by command.
unfoldable pub dealmsg_no_head : Routes → List ℕ → Dealt
dealmsg_no_head [] msg = no_reply
dealmsg_no_head ((assc, handler) ∷ funcs) msg =
    call_checked handler (unpack_no_head msg).0 pack_no_head
