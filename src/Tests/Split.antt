-- ===== src/Tests/Split.antt =====
-- Messages cut out of streams.
use sm.Base.{ℕ, ◌≡◌, refl, true, List, [], ◌∷◌, ◌++◌, arith}
use sm.Utils.Heads.{CmdHead, parsecmd}
use sm.Net.Split.{fix_header_split, split_body, pack_main_ass_pack}
use sm.Net.Split.Header.{fresh, feed, fix_header_split-pack_main_ass_pack, fix_header_split_resumes}
use sm.Tests.Base64.{rfc4648}

abbrev login : CmdHead
login = record { mainc = 4; assc = 5; len = 0 }

abbrev login_head : CmdHead
login_head = record { mainc = 4; assc = 5; len = 3 }

-- The head of a login of three bytes.
abbrev head_text : List ℕ
head_text = b'A' ∷ b'A' ∷ b'Q' ∷ b'A' ∷ b'B' ∷ b'Q' ∷ b'A' ∷ b'A' ∷ b'A' ∷ b'A' ∷ b'M' ∷ b'=' ∷ []

fix_header_split-pack_main_ass_pack_example :
    fix_header_split rfc4648 (fresh (pack_main_ass_pack rfc4648 login (1 ∷ 2 ∷ 3 ∷ []) ++ (7 ∷ [])))
    ≡ (true, record { msg = 7 ∷ []; head = login_head; dst = 1 ∷ 2 ∷ 3 ∷ [] })
fix_header_split-pack_main_ass_pack_example =
    fix_header_split-pack_main_ass_pack rfc4648 login (1 ∷ 2 ∷ 3 ∷ []) (7 ∷ []) (omega arith)
      (omega arith) (omega arith) cc

fix_header_split_resumes_example :
    fix_header_split rfc4648
      (feed (fix_header_split rfc4648 (fresh (head_text ++ (1 ∷ [])))).1 (2 ∷ 3 ∷ []))
    ≡ fix_header_split rfc4648 (feed (fresh (head_text ++ (1 ∷ []))) (2 ∷ 3 ∷ []))
unfolding fix_header_split parsecmd split_body
fix_header_split_resumes_example =
    fix_header_split_resumes rfc4648 (fresh (head_text ++ (1 ∷ []))) (2 ∷ 3 ∷ [])
      (λ first whole. omega arith) refl
