-- ===== src/Db/Connect.antt =====
-- database/DBConnectManager.h, DBConnectTCP.cpp and DBConnectNNG.cpp: a query of the database behind
-- the head of its platform, over a connection that is kept while it answers. The JSON library's
-- reader is a parameter, and so is what comes of sending a request. Assertions hold in what is modelled.
pub mod Query
use sm.Base.{
  ℕ, zero, suc, ◌+◌, ◌-◌, ◌*◌, ◌/◌, ◌%◌, ◌^◌, ◌≤◌, ◌<◌, ◌≡◌, refl, sym, ap, ap₂, ◌∙◌, fun_ext, ◌≢◌,
  ◌↔◌, ◌⊎◌, inl, inr, Bool, true, false, not, ◌&&◌, ◌||◌, Option, none, some, List, [], ◌∷◌, ◌++◌,
  append-nil, append_assoc, map, arith, ltb, leb, ◌==◌, if◌then◌else◌, ltb→lt, lt→ltb, le→ltb,
  ==→eq, ==_refl, tests, Bool-cases, Option-cases, length, take, drop, length-append, take-append,
  drop-append, drop-append_cons, take-append_at, drop-append_at, take-append_drop, take_of_length,
  drop_of_length, length-drop, length-take, take-append_le, drop-append_le, All, Bytes, dec_lt,
  dec_le, ℕ_discrete,
}
use sm.Db.Pool.{Queue}
use sm.Utils.MainCmd.{db_query}
use sm.Net.Platform.{PlatformPack, set_ass, len, pack}
use sm.Net.Platform.Manager.{PackUnpackManager, clone_pack}

-- What comes of `getChannel` and `reqrep`: no channel, a null response, a response, an exception.
pub data Attempt : Type 0 where
  no_channel : Attempt
  no_rep : Attempt
  answers : List ℕ → Attempt
  throws : Attempt

-- The loop of `_execQuery` over TCP, `while (++trycount < 3)` with another `++trycount` at its end:
-- whether it succeeds, the response, and the attempts that it left.
unfoldable pub exec_loop : ℕ → List ℕ → List Attempt → Option (Bool × List ℕ × List Attempt)
exec_loop trycount rep [] = if ltb ((trycount + 1) % 2 ^ 8) 3 then none else some (false, rep, [])
exec_loop trycount rep (attempt ∷ attempts) =
    let tried = (trycount + 1) % 2 ^ 8 in
    let again = exec_loop ((tried + 1) % 2 ^ 8) rep attempts in
    if ltb tried 3
    then elim attempt [
      | no_channel ↦ some (false, rep, attempts)
      | no_rep ↦ again
      | answers ret ↦ some (true, ret, attempts)
      | throws ↦ some (false, rep, attempts)
    ]
    else some (false, rep, attempt ∷ attempts)

unfoldable pub exec_query_tcp : List ℕ → List Attempt → Option (Bool × List ℕ × List Attempt)
exec_query_tcp rep attempts = exec_loop 0 rep attempts

-- `_execQuery` over NNG; the flag that it returns is set nowhere.
unfoldable pub exec_query_nng : List ℕ → Attempt → Bool × List ℕ
exec_query_nng rep no_channel = (false, rep)
exec_query_nng rep no_rep = (false, rep)
exec_query_nng rep (answers ret) = (false, ret)
exec_query_nng rep throws = (false, rep)

-- `statusCode::sendDBQueryExecFailed` and `statusCode::invalidJson`.
abbrev pub send_db_query_exec_failed : ℕ
send_db_query_exec_failed = 40002

abbrev pub invalid_json : ℕ
invalid_json = 40000

-- What `executeQuery` comes to: a response that was read, or a code; a null pointer, or a platform
-- without assistant commands, or a view behind the end of a response is not to be answered for.
pub data Answer (Rep : Type 0) : Type 0 where
  read : Rep → Answer Rep
  refused : ℕ → Answer Rep
  undefined : Answer Rep

-- The texts that fill the head before it is packed.
abbrev pub zeros : ℕ → List ℕ
zeros zero = []
zeros (suc n) = 0 ∷ zeros n

-- The bytes that are sent: head and request.
unfoldable pub query_bytes : PackUnpackManager → ℕ → List ℕ → Option (List ℕ)
query_bytes platforms op strreq = elim (clone_pack platforms db_query) [
  | none ↦ none
  | some packer ↦ elim (set_ass packer op) [
    | none ↦ none
    | some packer' ↦ some ((pack packer' (zeros (len packer'))).1 ++ strreq)
  ]
]

-- How the response is read: what is behind as many bytes as the head has.
unfoldable pub read_rep : {Rep : Type 0} → (List ℕ → Option Rep) → ℕ → Bool → List ℕ → Answer Rep
read_rep parse head_len false platform_rep = refused send_db_query_exec_failed
read_rep parse head_len true platform_rep =
    if ltb (length platform_rep) head_len
    then undefined
    else elim (parse (drop head_len platform_rep)) [
      | none ↦ refused invalid_json
      | some rep ↦ read rep
    ]

-- `HeadLen` of a platform.
unfoldable pub query_head_len : PackUnpackManager → ℕ
query_head_len platforms = elim (clone_pack platforms db_query) [
  | none ↦ 0
  | some packer ↦ len packer
]

-- `_connsTcp` and `_connsNNG`: connections by number, and how many were made.
pub record DbConnectManager (Q : Queue) : Type 0 where
  pub conns_tcp : Q.State
  pub conns_nng : Q.State
  pub made : ℕ

module _ (Q : Queue) where
  -- A connection of a queue, or a new one: the connection, the queue, and how many were made.
  unfoldable pub dequeue : Q.State → ℕ → ℕ × Q.State × ℕ
  dequeue conns made = elim (Q.try_dequeue conns) [
    | none ↦ (made, conns, suc made)
    | some (c, rest) ↦ (c, rest, made)
  ]

  -- `executeQueryTCP`: the connection goes back into the queue where it answered.
  unfoldable pub execute_query_tcp :
      List Attempt → DbConnectManager Q → Option (Bool × List ℕ × DbConnectManager Q)
  execute_query_tcp attempts m =
      let (conn, conns, made) = dequeue m.conns_tcp m.made in
      let taken = record m { conns_tcp = conns; made = made } in
      elim (exec_query_tcp [] attempts) [
        | none ↦ none
        | some (bret, rep, others) ↦
            some
              (bret, rep, if bret then record taken { conns_tcp = Q.enqueue conn conns } else taken)
      ]

  unfoldable pub execute_query_nng :
      Attempt → DbConnectManager Q → Bool × List ℕ × DbConnectManager Q
  execute_query_nng attempt m =
      let (conn, conns, made) = dequeue m.conns_nng m.made in
      let taken = record m { conns_nng = conns; made = made } in
      let (bret, rep) = exec_query_nng [] attempt in
      (bret, rep, if bret then record taken { conns_nng = Q.enqueue conn conns } else taken)

  -- `executeQuery` by either method; nothing is sent where there are no bytes to send.
  unfoldable pub execute_query :
      {Rep : Type 0}
      → PackUnpackManager
      → (List ℕ → Option Rep)
      → ℕ
      → List ℕ
      → (List ℕ → List Attempt)
      → DbConnectManager Q
      → Option (Answer Rep × DbConnectManager Q)
  execute_query platforms parse op strreq peer m = elim (query_bytes platforms op strreq) [
    | none ↦ some (undefined, m)
    | some pstrreq ↦ elim (execute_query_tcp (peer pstrreq) m) [
      | none ↦ none
      | some (bret, platform_rep, m') ↦
          some (read_rep parse (query_head_len platforms) bret platform_rep, m')
    ]
  ]

  unfoldable pub execute_query_by_nng :
      {Rep : Type 0}
      → PackUnpackManager
      → (List ℕ → Option Rep)
      → ℕ
      → List ℕ
      → (List ℕ → Attempt)
      → DbConnectManager Q
      → Answer Rep × DbConnectManager Q
  execute_query_by_nng platforms parse op strreq peer m = elim (query_bytes platforms op strreq) [
    | none ↦ (undefined, m)
    | some pstrreq ↦
        let (bret, platform_rep, m') = execute_query_nng (peer pstrreq) m in
        (read_rep parse (query_head_len platforms) bret platform_rep, m')
  ]
