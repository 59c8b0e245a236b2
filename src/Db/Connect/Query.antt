-- ===== src/Db/Connect/Query.antt =====
-- What a query of the database comes to.
use sm.Base.{
  ℕ, ◌≤◌, ◌≡◌, refl, ap, ◌∙◌, inl, inr, Bool, true, false, Option, none, some, List, [], ◌∷◌, ◌++◌,
  le→ltb, Option-cases, length, drop,
}
use sm.Utils.MainCmd.{db_query}
use sm.Utils.Endian.{be32}
use sm.Net.Platform.{main_ass, set_ass, len}
use sm.Net.Platform.Manager.{PackUnpackManager, clone_pack}
use sm.Net.Platform.RoundTrip.{pack_fits}
use sm.Db.Pool.{Queue}
use sm.Db.Connect.{
  Attempt, no_channel, no_rep, answers, throws, exec_loop, exec_query_tcp, exec_query_nng,
  DbConnectManager, dequeue, execute_query_tcp, execute_query_nng, send_db_query_exec_failed,
  invalid_json, Answer, read, refused, query_bytes, query_head_len, read_rep, execute_query,
  execute_query_by_nng, zeros,
}

-- A first attempt that has no response is the only one.
only_attempt :
    (rep : List ℕ) (attempts : List Attempt)
    → exec_query_tcp rep (no_rep ∷ attempts) ≡ some (false, rep, attempts)
unfolding exec_query_tcp exec_loop
only_attempt rep [] = refl
only_attempt rep (attempt ∷ attempts) = refl

-- What the first attempt gives.
abbrev pub response : Attempt → Option (List ℕ)
response no_channel = none
response no_rep = none
response (answers ret) = some ret
response throws = none

-- One attempt is made, though the loop is written for two: a query over TCP has the response of the
-- first attempt, if it has one, and fails otherwise, and the attempts behind the first are never made.
exec_query_tcp_tries_once :
    (rep : List ℕ) (attempt : Attempt) (attempts : List Attempt)
    → ((ret : List ℕ)
        → response attempt ≡ some ret
        → exec_query_tcp rep (attempt ∷ attempts) ≡ some (true, ret, attempts))
      × (response attempt ≡ none
          → exec_query_tcp rep (attempt ∷ attempts) ≡ some (false, rep, attempts))
unfolding exec_query_tcp exec_loop
exec_query_tcp_tries_once rep no_channel attempts = (λ ret h. cc, λ h. refl)
exec_query_tcp_tries_once rep no_rep attempts = (λ ret h. cc, λ h. only_attempt rep attempts)
exec_query_tcp_tries_once rep (answers ret) attempts =
    (λ ret' h. let e : ret ≡ ret' = cc in rw e refl, λ h. cc)
exec_query_tcp_tries_once rep throws attempts = (λ ret h. cc, λ h. refl)

-- The response as the application gets it.
abbrev pub parsed : {Rep : Type 0} → Option Rep → Answer Rep
parsed none = refused invalid_json
parsed (some rep) = read rep

module _ (Q : Queue) where
  known_bytes :
      (platforms : PackUnpackManager) (old op : ℕ) (strreq : List ℕ)
      → clone_pack platforms db_query ≡ some (main_ass db_query old)
      → query_bytes platforms op strreq ≡ some ((be32 db_query ++ be32 op) ++ strreq)
  unfolding query_bytes set_ass len
  known_bytes platforms old op strreq h =
      rw (h, query_bytes) (ap (λ p. some (p.1 ++ strreq)) (pack_fits db_query op (zeros 8) refl))

  -- What the manager is once a query over TCP has its response, or has none.
  abbrev pub kept : DbConnectManager Q → DbConnectManager Q
  kept m =
      let (conn, conns, made) = dequeue Q m.conns_tcp m.made in
      record m { conns_tcp = Q.enqueue conn conns; made = made }

  abbrev pub dropped : DbConnectManager Q → DbConnectManager Q
  dropped m =
      let (conn, conns, made) = dequeue Q m.conns_tcp m.made in
      record m { conns_tcp = conns; made = made }

  tcp_answered :
      (attempt : Attempt) (attempts : List Attempt) (ret : List ℕ) (m : DbConnectManager Q)
      → response attempt ≡ some ret
      → execute_query_tcp Q (attempt ∷ attempts) m ≡ some (true, ret, kept m)
  unfolding execute_query_tcp
  tcp_answered attempt attempts ret m h =
      rw ((exec_query_tcp_tries_once [] attempt attempts).0 ret h, execute_query_tcp) refl

  tcp_unanswered :
      (attempt : Attempt) (attempts : List Attempt) (m : DbConnectManager Q)
      → response attempt ≡ none
      → execute_query_tcp Q (attempt ∷ attempts) m ≡ some (false, [], dropped m)
  unfolding execute_query_tcp
  tcp_unanswered attempt attempts m h =
      rw ((exec_query_tcp_tries_once [] attempt attempts).1 h, execute_query_tcp) refl

  read_parsed :
      {Rep : Type 0} (parse : List ℕ → Option Rep) (ret : List ℕ)
      → 8 ≤ length ret
      → read_rep parse 8 true ret ≡ parsed (parse (drop 8 ret))
  unfolding read_rep
  read_parsed parse ret h =
      rw (le→ltb (length ret) 8 h)
        (elim (Option-cases (parse (drop 8 ret))) [ inl e ↦ rw e refl | inr (rep, e) ↦ rw e refl ])

  known_len :
      (platforms : PackUnpackManager) (old : ℕ)
      → clone_pack platforms db_query ≡ some (main_ass db_query old)
      → query_head_len platforms ≡ 8
  unfolding query_head_len len
  known_len platforms old h = rw (h, query_head_len) refl

  -- What comes of the query, once it was sent.
  abbrev outcome :
      {Rep : Type 0}
      → (List ℕ → Option Rep)
      → Option (Bool × List ℕ × DbConnectManager Q)
      → Option (Answer Rep × DbConnectManager Q)
  outcome parse none = none
  outcome parse (some (bret, platform_rep, m)) = some (read_rep parse 8 bret platform_rep, m)

  sent_on :
      {Rep : Type 0} (platforms : PackUnpackManager) (old op : ℕ) (parse : List ℕ → Option Rep)
      (strreq : List ℕ) (peer : List ℕ → List Attempt) (attempt : Attempt) (attempts : List Attempt)
      (m : DbConnectManager Q)
      → clone_pack platforms db_query ≡ some (main_ass db_query old)
      → peer ((be32 db_query ++ be32 op) ++ strreq) ≡ attempt ∷ attempts
      → execute_query Q platforms parse op strreq peer m
        ≡ outcome parse (execute_query_tcp Q (attempt ∷ attempts) m)
  unfolding execute_query
  sent_on platforms old op parse strreq peer attempt attempts m h e =
      rw (known_bytes platforms old op strreq h, e, execute_query)
        (cases (query_head_len platforms) (execute_query_tcp Q (attempt ∷ attempts) m)
          (known_len platforms old h))
    where
      cases :
          (n : ℕ) (o : Option (Bool × List ℕ × DbConnectManager Q))
          → n ≡ 8
          → (elim o [
            | none ↦ none
            | some (bret, platform_rep, m') ↦ some (read_rep parse n bret platform_rep, m')
          ])
            ≡ outcome parse o
      cases n none h = refl
      cases n (some (bret, platform_rep, m')) h = rw h refl

  -- A query over TCP, where the head of the database's platform is known: the peer is sent the head
  -- with the operation and the request behind it. If the first channel has a response, of at least a
  -- head, it is what is behind its head as the JSON library reads it, or the code for bad JSON, and
  -- the connection is kept for the next query; if it has none, the query fails with the code for
  -- that, and the connection is dropped.
  pub execute_query_decides :
      {Rep : Type 0} (platforms : PackUnpackManager) (old op : ℕ) (parse : List ℕ → Option Rep)
      (strreq : List ℕ) (peer : List ℕ → List Attempt) (attempt : Attempt) (attempts : List Attempt)
      (m : DbConnectManager Q)
      → clone_pack platforms db_query ≡ some (main_ass db_query old)
      → peer ((be32 db_query ++ be32 op) ++ strreq) ≡ attempt ∷ attempts
      → ((ret : List ℕ)
          → response attempt ≡ some ret
          → 8 ≤ length ret
          → execute_query Q platforms parse op strreq peer m
            ≡ some (parsed (parse (drop 8 ret)), kept m))
        × (response attempt ≡ none
            → execute_query Q platforms parse op strreq peer m
              ≡ some (refused send_db_query_exec_failed, dropped m))
  unfolding read_rep
  execute_query_decides platforms old op parse strreq peer attempt attempts m h e = (
    λ ret answered l.
        sent_on platforms old op parse strreq peer attempt attempts m h e
        ∙ rw (tcp_answered attempt attempts ret m answered)
            (ap (λ a. some (a, kept m)) (read_parsed parse ret l)),
    λ unanswered.
        sent_on platforms old op parse strreq peer attempt attempts m h e
        ∙ rw (tcp_unanswered attempt attempts m unanswered) refl,
  )

  never_succeeds : (rep : List ℕ) (attempt : Attempt) → (exec_query_nng rep attempt).0 ≡ false
  unfolding exec_query_nng
  never_succeeds rep no_channel = refl
  never_succeeds rep no_rep = refl
  never_succeeds rep (answers ret) = refl
  never_succeeds rep throws = refl

  -- A query over NNG fails, whatever the peer answers, and its connection is never kept.
  execute_query_nng_fails :
      {Rep : Type 0} (platforms : PackUnpackManager) (old op : ℕ) (parse : List ℕ → Option Rep)
      (strreq : List ℕ) (peer : List ℕ → Attempt) (m : DbConnectManager Q)
      → clone_pack platforms db_query ≡ some (main_ass db_query old)
      → let (conn, conns, made) = dequeue Q m.conns_nng m.made in
        execute_query_by_nng Q platforms parse op strreq peer m
        ≡ (refused send_db_query_exec_failed, record m { conns_nng = conns; made = made })
  unfolding execute_query_by_nng execute_query_nng read_rep
  execute_query_nng_fails platforms old op parse strreq peer m h =
      rw
        (
          known_bytes platforms old op strreq h,
          never_succeeds [] (peer ((be32 db_query ++ be32 op) ++ strreq)),
          execute_query_by_nng,
        )
        refl
