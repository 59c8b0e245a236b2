-- ===== src/Net/Dealer/Body.antt =====
-- What the dealers make of the body of a message that they packed themselves.
use sm.Base.{
  ℕ, ◌+◌, ◌-◌, ◌^◌, ◌<◌, ◌≡◌, refl, some, List, [], ◌++◌, arith, ◌==◌, if◌then◌else◌, ==_refl,
  length,
}
use sm.Utils.Endian.{packuint32}
use sm.Utils.Packet.{to_u32, packmaincmd3_seq, packmaincmd3_len, uppackmaincmd3_len}
use sm.Utils.Packet.RoundTrip.{
  uppackmaincmd3_seq-packmaincmd3_seq, uppackmaincmd3_ass-packmaincmd3_ass,
}
use sm.Utils.Packet.Overloads.{seq_view-eq}
use sm.Net.Dealer.{
  MainSub, locals, unpack, unpack_view, unpack_own, pack_ass, pack_next, unpack_no_head,
  pack_no_head, NoMain, unpack_no_main, pack_no_main,
}

-- The fields that a dealer keeps are of their C types.
pub record IsDealer (d : MainSub) : Type 0 where
  pub seqnumreq_fits : d.seqnumreq < 2 ^ 32
  pub assc_fits : d.assc < 2 ^ 16
  pub mainc_fits : d.mainc < 2 ^ 16

pub unpack-pack_ass :
    (d : MainSub) (seqnum old assc : ℕ) (msg : List ℕ)
    → d.mainc < 2 ^ 16
    → seqnum < 2 ^ 32
    → assc < 2 ^ 16
    → length msg < 2 ^ 32
    → unpack d old (pack_ass d seqnum msg assc)
      ≡ (some (msg ++ msg), record d { assc = assc }, seqnum, msg)
unfolding unpack pack_ass
unpack-pack_ass d seqnum old assc msg hm hs ha hl = rw (
  uppackmaincmd3_seq-packmaincmd3_seq seqnum d.mainc assc msg (locals old) hs hm ha hl,
  ==_refl d.mainc,
)

pub unpack_view-pack_ass :
    (d : MainSub) (seqnum old assc : ℕ) (msg : List ℕ)
    → d.mainc < 2 ^ 16
    → seqnum < 2 ^ 32
    → assc < 2 ^ 16
    → length msg < 2 ^ 32
    → unpack_view d old (pack_ass d seqnum msg assc) ≡ (some msg, record d { assc = assc }, seqnum)
unfolding unpack_view pack_ass
unpack_view-pack_ass d seqnum old assc msg hm hs ha hl = rw (
  seq_view-eq (locals old) (packmaincmd3_seq seqnum d.mainc assc [] msg),
  uppackmaincmd3_seq-packmaincmd3_seq seqnum d.mainc assc msg (locals old) hs hm ha hl,
  ==_refl d.mainc,
)

-- A message packed by `PackDealerMainSub` and unpacked by a dealer of the same main command: both
-- overloads of `unpack` give the sequence number and the assistant command, the one on
-- `string_view` gives the message, and the one on `string` gives the message twice over.
unpack_doubles_body :
    (d : MainSub) (seqnum old assc : ℕ) (msg : List ℕ)
    → d.mainc < 2 ^ 16
    → seqnum < 2 ^ 32
    → assc < 2 ^ 16
    → length msg < 2 ^ 32
    → (unpack_view d old (pack_ass d seqnum msg assc)
        ≡ (some msg, record d { assc = assc }, seqnum))
      × (unpack d old (pack_ass d seqnum msg assc)
          ≡ (some (msg ++ msg), record d { assc = assc }, seqnum, msg))
unpack_doubles_body d seqnum old assc msg hm hs ha hl = (
  unpack_view-pack_ass d seqnum old assc msg hm hs ha hl,
  unpack-pack_ass d seqnum old assc msg hm hs ha hl,
)

-- The messages of one dealer carry consecutive sequence numbers, which go from 2 ^ 32 - 1 to 0,
-- and each is read back with its number, its assistant command and its body by `unpack(string_view)`
-- of a dealer of the same main command, which keeps the number.
unpack_own-pack_next :
    (d peer : MainSub) (msg : List ℕ)
    → IsDealer d
    → peer.mainc ≡ d.mainc
    → length msg < 2 ^ 32
    → let (bytes, d') = pack_next d msg in
      (d'.seqnumreq ≡ (if d.seqnumreq == 2 ^ 32 - 1 then 0 else d.seqnumreq + 1))
      × (unpack_own peer bytes
          ≡ (some msg, record peer { assc = d.assc; seqnumreq = d'.seqnumreq }))
      × IsDealer d'
unfolding pack_next unpack_own pack_ass
unpack_own-pack_next d peer msg v e hl = (ground arith, rw received, omega arith)
  where
    seqnum : ℕ
    seqnum = to_u32 (d.seqnumreq + 1)

    received :
        unpack_view peer peer.seqnumreq (packmaincmd3_seq seqnum d.mainc d.assc [] msg)
        ≡ (some msg, record peer { assc = d.assc }, seqnum)
    received = rw (← e) (
        unpack_view-pack_ass peer seqnum peer.seqnumreq d.assc msg (omega arith) (omega arith)
          v.assc_fits hl)

-- `PackDealerNoHead` packs the message twice behind the length of one, and so unpacks what it
-- packed to the message twice over; `PackDealerNoMain` gives the message back.
pub unpack-pack_bare :
    (d : NoMain) (msg : List ℕ) (assc : ℕ)
    → length msg < 2 ^ 32
    → assc < 2 ^ 16
    → (unpack_no_head (pack_no_head msg) ≡ (msg ++ msg, msg ++ msg))
      × (unpack_no_main d (pack_no_main msg assc) ≡ (msg, msg))
unfolding unpack_no_head pack_no_head unpack_no_main pack_no_main packmaincmd3_len
    uppackmaincmd3_len packuint32
unpack-pack_bare d msg assc hl ha =
    (refl, rw (uppackmaincmd3_ass-packmaincmd3_ass assc msg (locals 0) ha hl))
