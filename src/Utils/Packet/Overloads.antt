-- ===== src/Utils/Packet/Overloads.antt =====
-- The overloads of `uppackmaincmd3` on `string` and on `string_view`, and which inputs they accept.
use sm.Base.{
  ap, leb, [], ◌+◌, ◌*◌, ◌/◌, ◌%◌, ◌^◌, ℕ, ◌≤◌, ◌<◌, ◌≡◌, refl, true, false, List, ◌∷◌, arith,
  length, drop, Bytes, ◌++◌,
}
use sm.Utils.Endian.{packuint16, packuint32, be16, be32}
use sm.Utils.Packet.RoundTrip.{uppackmaincmd3_ass-packmaincmd3_ass}
use sm.Utils.Packet.{
  Outs, drop_src, packmaincmd3_ass, uppackmaincmd3_seq, uppackmaincmd3_ass, uppackmaincmd3_len,
  uppackmaincmd3_seq_view, uppackmaincmd3_ass_view, uppackmaincmd3_len_view,
}

pub seq_view-eq :
    (io : Outs) (src : List ℕ)
    → uppackmaincmd3_seq_view io src ≡ drop_src (uppackmaincmd3_seq io src)
unfolding uppackmaincmd3_seq uppackmaincmd3_seq_view
seq_view-eq io (a ∷ b ∷ c ∷ d ∷ e ∷ f ∷ g ∷ h ∷ i ∷ j ∷ k ∷ l ∷ rest) = refl
seq_view-eq io _ = refl

len_view-eq :
    (io : Outs) (src : List ℕ)
    → uppackmaincmd3_len_view io src ≡ drop_src (uppackmaincmd3_len io src)
unfolding uppackmaincmd3_len uppackmaincmd3_len_view
len_view-eq io (a ∷ b ∷ c ∷ d ∷ rest) = refl
len_view-eq io _ = refl

ass_accepts :
    (io : Outs) (src : List ℕ)
    → ((uppackmaincmd3_ass io src).0 ≡ leb 6 (length src))
      × ((uppackmaincmd3_ass_view io src).0 ≡ leb 4 (length src))
unfolding uppackmaincmd3_ass uppackmaincmd3_ass_view
ass_accepts io (a ∷ b ∷ c ∷ d ∷ e ∷ f ∷ rest) = (ground arith, ground arith)
ass_accepts io _ = (refl, refl)

ass_view-packmaincmd3_ass :
    (io : Outs) (assc : ℕ) (msg : List ℕ)
    → assc < 2 ^ 16
    → length msg < 2 ^ 32
    → uppackmaincmd3_ass_view io (packmaincmd3_ass assc [] msg) ≡ (
      true,
      record io {
        assc = assc;
        msglen = assc * 2 ^ 16 + length msg / 2 ^ 16;
        msg = io.msg ++ ((length msg / 2 ^ 8 % 2 ^ 8) ∷ (length msg % 2 ^ 8) ∷ msg);
      },
    )
unfolding packmaincmd3_ass uppackmaincmd3_ass_view packuint16 packuint32
ass_view-packmaincmd3_ass io assc msg ha hl = ground arith

-- The overloads on `string` and on `string_view` give the same flag and write the same variables
-- on every input, with a sequence number and with the length alone. Those with the assistant
-- command alone do not: the one on `string` needs six bytes and reads back what was packed for an
-- assistant command and a message of their C types; the one on `string_view` accepts four bytes,
-- and of the same packet it takes the command and half of the length for the length, and the
-- other half for the start of the message.
pub uppackmaincmd3_view-eq :
    (io : Outs) (src msg : List ℕ) (assc : ℕ)
    → assc < 2 ^ 16
    → length msg < 2 ^ 32
    → (uppackmaincmd3_seq_view io src ≡ drop_src (uppackmaincmd3_seq io src))
      × (uppackmaincmd3_len_view io src ≡ drop_src (uppackmaincmd3_len io src))
      × ((uppackmaincmd3_ass io src).0 ≡ leb 6 (length src))
      × ((uppackmaincmd3_ass_view io src).0 ≡ leb 4 (length src))
      × (drop_src (uppackmaincmd3_ass io (packmaincmd3_ass assc [] msg))
          ≡ (true, record io { assc = assc; msglen = length msg; msg = io.msg ++ msg }))
      × (uppackmaincmd3_ass_view io (packmaincmd3_ass assc [] msg) ≡ (
        true,
        record io {
          assc = assc;
          msglen = assc * 2 ^ 16 + length msg / 2 ^ 16;
          msg = io.msg ++ ((length msg / 2 ^ 8 % 2 ^ 8) ∷ (length msg % 2 ^ 8) ∷ msg);
        },
      ))
uppackmaincmd3_view-eq io src msg assc ha hl = (
  seq_view-eq io src,
  len_view-eq io src,
  (ass_accepts io src).0,
  (ass_accepts io src).1,
  ap drop_src (uppackmaincmd3_ass-packmaincmd3_ass assc msg io ha hl),
  ass_view-packmaincmd3_ass io assc msg ha hl,
)

-- Exactly the inputs of at least twelve bytes are accepted. A refused input leaves every variable
-- as it was. An accepted one is the header that `packmaincmd3` writes for the fields read, whatever
-- its length field says, followed by the bytes that are appended to the message.
uppackmaincmd3_seq_accepts :
    (io : Outs) (src : List ℕ)
    → Bytes src
    → let (ok, out, left) = uppackmaincmd3_seq io src in
      (length src < 12 → (ok ≡ false) × (out ≡ io))
      × (12 ≤ length src
          → (ok ≡ true)
            × (out.msg ≡ io.msg ++ drop 12 src)
            × (left ≡ drop 12 src)
            × (src
                ≡ be32 out.seqnum
                  ++ (be16 out.mainc ++ (be16 out.assc ++ (be32 out.msglen ++ left)))))
unfolding uppackmaincmd3_seq
uppackmaincmd3_seq_accepts io (a ∷ b ∷ c ∷ d ∷ e ∷ f ∷ g ∷ h ∷ i ∷ j ∷ k ∷ l ∷ rest) bs =
    ((λ p. absurd (omega arith)), (λ p. (refl, refl, refl, ground arith)))
uppackmaincmd3_seq_accepts io _ bs = ((λ p. (refl, refl)), (λ p. absurd (omega arith)))

pub uppackmaincmd3_seq_short :
    (io : Outs) (src : List ℕ)
    → length src < 12
    → uppackmaincmd3_seq io src ≡ (false, io, (uppackmaincmd3_seq io src).2)
unfolding uppackmaincmd3_seq
uppackmaincmd3_seq_short io (a ∷ b ∷ c ∷ d ∷ e ∷ f ∷ g ∷ h ∷ i ∷ j ∷ k ∷ l ∷ rest) p =
    absurd (omega arith)
uppackmaincmd3_seq_short io _ p = refl
