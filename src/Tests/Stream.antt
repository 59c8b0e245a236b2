-- ===== src/Tests/Stream.antt =====
-- Stream handlers.
use sm.Base.{ℕ, ◌≡◌, refl, true, some, List, [], ◌∷◌, ◌++◌, map, arith}
use sm.Utils.Endian.{packuint32}
use sm.Net.Tcp.{got}
use sm.Net.Tcp.Recv.{joined}
use sm.Net.Stream.{fix_pack_len_place_holder, StreamHandler, recv_stream, packnethead, send_buffer}
use sm.Net.Stream.Reassembly.{recv_stream-send_buffer}
use sm.Net.Stream.Resets.{new_handler}

abbrev body : List ℕ
body = 1 ∷ 2 ∷ []

-- The message in two reads, and a byte behind it.
abbrev first : List ℕ
first = 0 ∷ 0 ∷ 0 ∷ 2 ∷ 1 ∷ []

abbrev second : List ℕ
second = 2 ∷ 7 ∷ []

recv_stream-send_buffer_example :
    (s' : StreamHandler) × (rest : List (List ℕ)) × (recv_stream fix_pack_len_place_holder 60
        new_handler
        (got first ∷ got second ∷ [])
      ≡ some (true, s', map got rest))
    × (s'.recvmsg ≡ body)
    × (s'.recvbuf ++ joined rest ≡ 7 ∷ [])
unfolding send_buffer packnethead packuint32
recv_stream-send_buffer_example =
    recv_stream-send_buffer body (7 ∷ []) first (second ∷ []) 60 new_handler (omega arith)
      (omega arith) (omega arith) (omega arith) (omega arith) refl
