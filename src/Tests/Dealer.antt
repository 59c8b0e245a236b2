-- ===== src/Tests/Dealer.antt =====
-- Frames, platform heads and dealers.
use sm.Base.{ℕ, ◌^◌, ◌<◌, ◌≡◌, none, some, List, [], ◌∷◌, ◌++◌, arith, length}
use sm.Base.Map.{find, nat_eq}
use sm.Net.Platform.Manager.{}
use sm.Net.Dealer.{
  Handler, Routes, replied, no_reply, undefined_behaviour, MainSub, unpack_view, pack_ass, dealmsg,
}
use sm.Net.Dealer.Deal.{dealmsg_replies}

abbrev bytes : List ℕ
bytes = 1 ∷ 2 ∷ []

abbrev dealer : MainSub
dealer = record { seqnumreq = 10; seqnumrep = 0; assc = 6; mainc = 4 }

-- A handler that answers with its request.
abbrev echoes : Handler
echoes req = some req

abbrev routes : Routes
routes = (5, echoes) ∷ (6, echoes) ∷ []

dealmsg_replies_example :
    let dealt = (dealmsg routes dealer (pack_ass dealer 70000 bytes 5)).0 in
    (find 5 routes ≡ none → dealt ≡ no_reply)
    × ((handler : Handler)
        → find 5 routes ≡ some handler
        → (handler (bytes ++ bytes) ≡ none → dealt ≡ undefined_behaviour)
          × (handler (bytes ++ bytes) ≡ some [] → dealt ≡ no_reply)
          × ((b : ℕ) (rep : List ℕ)
              → handler (bytes ++ bytes) ≡ some (b ∷ rep)
              → length (b ∷ rep) < 2 ^ 32
              → (dealt ≡ replied (pack_ass dealer 70000 (b ∷ rep) 5))
                × ((client : MainSub) (old : ℕ)
                    → client.mainc ≡ 4
                    → unpack_view client old (pack_ass dealer 70000 (b ∷ rep) 5)
                      ≡ (some (b ∷ rep), record client { assc = 5 }, 70000))))
dealmsg_replies_example =
    dealmsg_replies routes dealer 70000 5 bytes (omega arith) (omega arith) (omega arith)
      (omega arith)
