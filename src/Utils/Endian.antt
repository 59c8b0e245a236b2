-- ===== src/Utils/Endian.antt =====
-- Utils/Utils.cpp: 16- and 32-bit numbers in network byte order, written to and read from the
-- front of a byte string. `htons` and `htonl` before a `memcpy` put the high byte first on any host.
pub mod RoundTrip
use sm.Base.{ℕ, ◌+◌, ◌*◌, ◌/◌, ◌%◌, ◌^◌, Bool, true, false, List, [], ◌∷◌, ◌++◌}

-- The bytes that `memcpy` takes out of `htons(src)` and `htonl(src)`.
abbrev pub be16 : ℕ → List ℕ
be16 src = src / 2 ^ 8 % 2 ^ 8 ∷ src % 2 ^ 8 ∷ []

abbrev pub be32 : ℕ → List ℕ
be32 src = src / 2 ^ 24 % 2 ^ 8 ∷ src / 2 ^ 16 % 2 ^ 8 ∷ src / 2 ^ 8 % 2 ^ 8 ∷ src % 2 ^ 8 ∷ []

-- `ntohs` and `ntohl` of the bytes read.
abbrev pub value16 : ℕ → ℕ → ℕ
value16 a b = a * 2 ^ 8 + b

abbrev pub value32 : ℕ → ℕ → ℕ → ℕ → ℕ
value32 a b c d = a * 2 ^ 24 + b * 2 ^ 16 + c * 2 ^ 8 + d

unfoldable pub packuint16 : List ℕ → ℕ → List ℕ
packuint16 dst src = dst ++ be16 src

unfoldable pub packuint32 : List ℕ → ℕ → List ℕ
packuint32 dst src = dst ++ be32 src

-- `unpackuint16(string& src, uint16_t& dst)`: success, what is left of `src`, and `dst`. Fewer
-- bytes than the number has are the early return, which changes neither.
unfoldable pub unpackuint16 : List ℕ → ℕ → Bool × List ℕ × ℕ
unpackuint16 (a ∷ b ∷ rest) dst = (true, rest, value16 a b)
unpackuint16 src dst = (false, src, dst)

unfoldable pub unpackuint32 : List ℕ → ℕ → Bool × List ℕ × ℕ
unpackuint32 (a ∷ b ∷ c ∷ d ∷ rest) dst = (true, rest, value32 a b c d)
unpackuint32 src dst = (false, src, dst)

-- The overloads on `string_view` return the tail, which is empty on failure.
unfoldable pub unpackuint16_view : List ℕ → ℕ → Bool × List ℕ × ℕ
unpackuint16_view (a ∷ b ∷ rest) dst = (true, rest, value16 a b)
unpackuint16_view src dst = (false, [], dst)

unfoldable pub unpackuint32_view : List ℕ → ℕ → Bool × List ℕ × ℕ
unpackuint32_view (a ∷ b ∷ c ∷ d ∷ rest) dst = (true, rest, value32 a b c d)
unpackuint32_view src dst = (false, [], dst)
