-- ===== src/Tests/Utils.antt =====
-- Heads, packets and query strings.
use sm.Base.{ℕ, ◌≡◌, true, false, some, List, [], ◌∷◌, map, arith}
use sm.Base.Map.{find, bytes_eq}
use sm.Utils.Packet.{
  Outs, drop_src, packmaincmd3_seq, packmaincmd3_ass, uppackmaincmd3_seq, uppackmaincmd3_ass,
  uppackmaincmd3_len, uppackmaincmd3_seq_view, uppackmaincmd3_ass_view, uppackmaincmd3_len_view,
}
use sm.Utils.Packet.RoundTrip.{uppackmaincmd3_seq-packmaincmd3_seq}
use sm.Utils.Packet.Overloads.{uppackmaincmd3_view-eq}
use sm.Utils.Query.{key_value, parse_query_string}
use sm.Utils.Query.Pieces.{pieces, find-parse_query_string}
use sm.Utils.Query.Render.{render, parse_query_string-render}

abbrev query : List ℕ
query = b'a' ∷ b'=' ∷ b'1' ∷ b'&' ∷ b'b' ∷ b'&' ∷ b'a' ∷ b'=' ∷ b'2' ∷ []

-- A packet that is too short, and one of thirteen bytes.
abbrev short : List ℕ
short = 0 ∷ 3 ∷ 1 ∷ []

abbrev packet : List ℕ
packet = 0 ∷ 0 ∷ 0 ∷ 1 ∷ 0 ∷ 4 ∷ 0 ∷ 5 ∷ 0 ∷ 0 ∷ 0 ∷ 9 ∷ 8 ∷ []

abbrev outs : Outs
outs = record { seqnum = 0; mainc = 1; assc = 7; msglen = 0; msg = 9 ∷ [] }

uppackmaincmd3_seq-packmaincmd3_seq_example :
    uppackmaincmd3_seq outs (packmaincmd3_seq 300 4 5 [] (1 ∷ 2 ∷ [])) ≡ (
      true,
      record { seqnum = 300; mainc = 4; assc = 5; msglen = 2; msg = 9 ∷ 1 ∷ 2 ∷ [] },
      1 ∷ 2 ∷ [],
    )
uppackmaincmd3_seq-packmaincmd3_seq_example =
    uppackmaincmd3_seq-packmaincmd3_seq 300 4 5 (1 ∷ 2 ∷ []) outs (omega arith) (omega arith)
      (omega arith) (omega arith)

uppackmaincmd3_view-eq_example :
    (uppackmaincmd3_seq_view outs short ≡ drop_src (uppackmaincmd3_seq outs short))
    × (uppackmaincmd3_len_view outs short ≡ drop_src (uppackmaincmd3_len outs short))
    × ((uppackmaincmd3_ass outs short).0 ≡ false)
    × ((uppackmaincmd3_ass_view outs short).0 ≡ false)
    × (drop_src (uppackmaincmd3_ass outs (packmaincmd3_ass 5 [] (1 ∷ 2 ∷ [])))
        ≡ (true, record outs { assc = 5; msglen = 2; msg = 9 ∷ 1 ∷ 2 ∷ [] }))
    × (uppackmaincmd3_ass_view outs (packmaincmd3_ass 5 [] (1 ∷ 2 ∷ []))
        ≡ (true, record outs { assc = 5; msglen = 327680; msg = 9 ∷ 0 ∷ 2 ∷ 1 ∷ 2 ∷ [] }))
uppackmaincmd3_view-eq_example =
    uppackmaincmd3_view-eq outs short (1 ∷ 2 ∷ []) 5 (omega arith) (omega arith)

find-parse_query_string_example :
    find (b'a' ∷ []) (parse_query_string query) ≡ find (b'a' ∷ []) (map key_value (pieces query))
find-parse_query_string_example = find-parse_query_string (b'a' ∷ []) query

abbrev pairs : List (List ℕ × List ℕ)
pairs = (b'a' ∷ [], b'1' ∷ []) ∷ (b'b' ∷ [], b'=' ∷ b'2' ∷ []) ∷ []

parse_query_string-render_example :
    find (b'b' ∷ []) (parse_query_string (render pairs)) ≡ some (b'=' ∷ b'2' ∷ [])
unfolding find
parse_query_string-render_example = parse_query_string-render (b'b' ∷ []) pairs (ground arith)
