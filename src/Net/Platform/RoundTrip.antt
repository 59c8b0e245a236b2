-- ===== src/Net/Platform/RoundTrip.antt =====
-- A platform head, packed and unpacked.
use sm.Base.{
  ℕ, ◌^◌, ◌<◌, ◌≡◌, refl, ap₂, ◌∙◌, ◌≢◌, true, false, List, [], ◌∷◌, ◌++◌, arith, length, Bytes,
}
use sm.Utils.Endian.{be32, unpackuint32_view, value32}
use sm.Utils.Endian.RoundTrip.{be32-value32, value32-be32}
use sm.Net.Platform.{main_ass, pack, unpack}

pub pack_fits :
    (mainc ass : ℕ) (dst : List ℕ)
    → length dst ≡ 8
    → pack (main_ass mainc ass) dst ≡ (true, be32 mainc ++ be32 ass)
unfolding pack
pack_fits mainc ass dst h = ground arith

pub unpack-be32 :
    (mainc ass : ℕ) (p : ℕ × ℕ)
    → mainc < 2 ^ 32
    → ass < 2 ^ 32
    → unpack (main_ass p.0 p.1) (be32 mainc ++ be32 ass) ≡ (true, main_ass mainc ass)
unfolding unpack unpackuint32_view
unpack-be32 mainc ass p hm ha =
    ap₂ (λ m a. (true, main_ass m a)) (value32-be32 mainc hm) (value32-be32 ass ha)

wrong_size :
    (mainc ass : ℕ) (src : List ℕ)
    → length src ≢ 8
    → (unpack (main_ass mainc ass) src ≡ (false, main_ass mainc ass))
      × (pack (main_ass mainc ass) src ≡ (false, src))
unfolding pack unpack
wrong_size mainc ass src h = ground arith

pack-unpack :
    (mainc ass : ℕ) (dst src : List ℕ)
    → length dst ≡ 8
    → Bytes src
    → length src ≡ 8
    → pack (unpack (main_ass mainc ass) src).1 dst ≡ (true, src)
unfolding unpack unpackuint32_view
pack-unpack mainc ass dst (a ∷ b ∷ c ∷ d ∷ e ∷ f ∷ g ∷ h ∷ []) hd
      (ha, (hb, (hc, (h4, (he, (hf, (hg, (hh, end)))))))) hl =
    pack_fits (value32 a b c d) (value32 e f g h) dst hd
    ∙ ap₂ (λ xs ys. (true, xs ++ ys)) (be32-value32 a b c d ha hb hc h4)
        (be32-value32 e f g h he hf hg hh)
pack-unpack mainc ass dst _ hd hs hl = absurd (omega arith)

-- A platform head, packed into a span and unpacked by another packer of its class, gives its main
-- and assistant command; any other size of the span or of the view is refused and changes nothing;
-- and eight bytes that were unpacked are packed again as they were.
pub unpack-pack_platform :
    (mainc ass mainc' ass' : ℕ) (dst src : List ℕ)
    → mainc < 2 ^ 32
    → ass < 2 ^ 32
    → length dst ≡ 8
    → Bytes src
    → let (ok, bytes) = pack (main_ass mainc ass) dst in
      (ok ≡ true)
      × (unpack (main_ass mainc' ass') bytes ≡ (true, main_ass mainc ass))
      × (length src ≢ 8
          → (unpack (main_ass mainc ass) src ≡ (false, main_ass mainc ass))
            × (pack (main_ass mainc ass) src ≡ (false, src)))
      × (length src ≡ 8 → pack (unpack (main_ass mainc ass) src).1 dst ≡ (true, src))
unpack-pack_platform mainc ass mainc' ass' dst src hm ha hd hs = rw (pack_fits mainc ass dst hd) (
  refl,
  unpack-be32 mainc ass (mainc', ass') hm ha,
  wrong_size mainc ass src,
  pack-unpack mainc ass dst src hd hs,
)
