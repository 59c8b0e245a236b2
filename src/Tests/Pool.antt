-- ===== src/Tests/Pool.antt =====
-- A queue as a list, and connections that are opened and closed over it.
use sm.Base.{ℕ, ◌≤◌, ◌≡◌, refl, true, Option, none, some, List, [], ◌∷◌, ◌++◌, length, drop}
use mathlib.Core.List.{Perm}
use mathlib.Core.List.Perm
use sm.Base.Map.{find, nat_eq}
use sm.Utils.Endian.{be32}
use sm.Net.Platform.{main_ass, clone}
use sm.Net.Platform.Manager.{PackUnpackManager, clone_pack}
use sm.Db.Connect.{
  Attempt, answers, DbConnectManager, execute_query, refused, send_db_query_exec_failed,
}
use sm.Db.Connect.Query.{response, parsed, kept, dropped, execute_query_decides}
use sm.Db.Pool.{Queue, IsLawful, DbManager, add_new, get_conn, add_connect}
use sm.Db.Pool.Shared.{opens, closes, start, after, below, connections_shared}

abbrev try_pop : List ℕ → Option (ℕ × List ℕ)
try_pop [] = none
try_pop (c ∷ cs) = some (c, cs)

abbrev list_queue : Queue
list_queue = record { State = List ℕ; enqueue = λ c q. c ∷ q; try_dequeue = try_pop }

popped : (c : ℕ) (q q' : List ℕ) → try_pop q ≡ some (c, q') → Perm q (c ∷ q')
popped c [] q' h = absurd cc
popped c (d ∷ q) q' h =
    let e : d ≡ c = cc in let e' : q ≡ q' = cc in rw (e, e') (Perm.refl (c ∷ q'))

abbrev list_queue-IsLawful : IsLawful list_queue
list_queue-IsLawful = record {
  items = λ q. q;
  items-enqueue = λ c q. Perm.refl (c ∷ q);
  items-try_dequeue = popped;
}

abbrev nobody : DbManager list_queue
nobody = record { conns = []; made = 0 }

abbrev one : DbManager list_queue
one = record { conns = []; made = 1 }

-- One object is made and destroyed.
connections_shared_example : Perm ((0 ∷ []) ++ []) (below 1)
unfolding get_conn add_new add_connect
connections_shared_example =
    connections_shared list_queue list_queue-IsLawful nobody
      (record { conns = 0 ∷ []; made = 1 }, []) refl refl
      (after (nobody, []) (one, 0 ∷ []) (record { conns = 0 ∷ []; made = 1 }, [])
        (after (nobody, []) (nobody, []) (one, 0 ∷ []) (start (nobody, [])) (opens true nobody []))
        (closes one 0 [] []))

abbrev no_conns : DbConnectManager list_queue
no_conns = record { conns_tcp = []; conns_nng = []; made = 0 }

abbrev platforms : PackUnpackManager
platforms = (6, main_ass 6 0) ∷ []

-- A reader that takes a text of one byte and more.
abbrev parse : List ℕ → Option ℕ
parse [] = none
parse (b ∷ bs) = some b

-- A peer that answers with what it was sent.
abbrev peer : List ℕ → List Attempt
peer req = answers req ∷ []

execute_query_decides_example :
    let sent = (be32 6 ++ be32 2) ++ (9 ∷ []) in
    ((ret : List ℕ)
      → response (answers sent) ≡ some ret
      → 8 ≤ length ret
      → execute_query list_queue platforms parse 2 (9 ∷ []) peer no_conns
        ≡ some (parsed (parse (drop 8 ret)), kept list_queue no_conns))
    × (response (answers sent) ≡ none
        → execute_query list_queue platforms parse 2 (9 ∷ []) peer no_conns
          ≡ some (refused send_db_query_exec_failed, dropped list_queue no_conns))
unfolding clone_pack find clone
execute_query_decides_example =
    execute_query_decides list_queue platforms 0 2 parse (9 ∷ []) peer
      (answers ((be32 6 ++ be32 2) ++ (9 ∷ []))) [] no_conns refl refl
