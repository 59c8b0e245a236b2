-- ===== src/Net/Frame/RoundTrip.antt =====
-- The head of a frame, packed and unpacked.
use sm.Base.{ℕ, ◌^◌, ◌<◌, ◌≡◌, refl, true, false, List, ◌∷◌, ◌++◌, arith, length}
use sm.Utils.Endian.{be32, unpackuint32_view}
use sm.Utils.Packet.{to_u32}
use sm.Net.Frame.{StreamNetDealer, pack, unpack}

-- The head of a frame that `pack` writes.
abbrev pub frame_head : ℕ → ℕ → List ℕ
frame_head msgno len = be32 (to_u32 len) ++ be32 msgno

-- The head that a dealer packs for a length and a number of 32 bits is accepted in front of any
-- bytes, and the dealer that unpacks it, whatever it held, holds what the first one then holds.
pub unpack-pack :
    (d d' : StreamNetDealer) (msgno len : ℕ) (rest : List ℕ)
    → msgno < 2 ^ 32
    → len < 2 ^ 32
    → unpack d' ((pack d msgno len).1 ++ rest) ≡ (true, (pack d msgno len).0)
unfolding pack unpack unpackuint32_view
unpack-pack d d' msgno len rest hn hl = ground arith

pub unpack_short : (d : StreamNetDealer) (src : List ℕ) → length src < 8 → (unpack d src).0 ≡ false
unfolding unpack unpackuint32_view
unpack_short d (a ∷ b ∷ c ∷ e ∷ f ∷ g ∷ h ∷ i ∷ rest) l = absurd (omega arith)
unpack_short d _ l = refl
