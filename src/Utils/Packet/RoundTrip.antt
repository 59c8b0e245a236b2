-- ===== src/Utils/Packet/RoundTrip.antt =====
-- A header and message that `packmaincmd3` wrote, read by `uppackmaincmd3`.
use sm.Base.{ℕ, ◌<◌, ◌^◌, ◌++◌, ◌≡◌, true, List, [], arith, length}
use sm.Utils.Endian.{packuint16, packuint32}
use sm.Utils.Packet.{
  Outs, packmaincmd3_seq, packmaincmd3_ass, packmaincmd3_len, uppackmaincmd3_seq,
  uppackmaincmd3_ass, uppackmaincmd3_len,
}

-- A header with sequence number and its message, packed and unpacked: every field of the header
-- comes back, the message is what is left of the input, and it is appended to the caller's buffer.
-- The fields are of their C types, and the message is shorter than 4 GiB.
pub uppackmaincmd3_seq-packmaincmd3_seq :
    (seqnum mainc assc : ℕ) (msg : List ℕ) (io : Outs)
    → seqnum < 2 ^ 32
    → mainc < 2 ^ 16
    → assc < 2 ^ 16
    → length msg < 2 ^ 32
    → uppackmaincmd3_seq io (packmaincmd3_seq seqnum mainc assc [] msg) ≡ (
      true,
      record {
        seqnum = seqnum;
        mainc = mainc;
        assc = assc;
        msglen = length msg;
        msg = io.msg ++ msg;
      },
      msg,
    )
unfolding packmaincmd3_seq uppackmaincmd3_seq packuint16 packuint32
uppackmaincmd3_seq-packmaincmd3_seq seqnum mainc assc msg io hs hm ha hl = ground arith

-- A header with the assistant command alone and its message, packed and unpacked: the command, the
-- length and the message come back, the other variables stay, and the message is what is left of
-- the input. The command is of its C type, and the message is shorter than 4 GiB.
pub uppackmaincmd3_ass-packmaincmd3_ass :
    (assc : ℕ) (msg : List ℕ) (io : Outs)
    → assc < 2 ^ 16
    → length msg < 2 ^ 32
    → uppackmaincmd3_ass io (packmaincmd3_ass assc [] msg)
      ≡ (true, record io { assc = assc; msglen = length msg; msg = io.msg ++ msg }, msg)
unfolding packmaincmd3_ass uppackmaincmd3_ass packuint16 packuint32
uppackmaincmd3_ass-packmaincmd3_ass assc msg io ha hl = ground arith

pub uppackmaincmd3_len-packmaincmd3_len :
    (msg : List ℕ) (io : Outs)
    → length msg < 2 ^ 32
    → uppackmaincmd3_len io (packmaincmd3_len [] msg)
      ≡ (true, record io { msglen = length msg; msg = io.msg ++ msg }, msg)
unfolding packmaincmd3_len uppackmaincmd3_len packuint32
uppackmaincmd3_len-packmaincmd3_len msg io hl = ground arith
