-- ===== src/Net/Split/Header.antt =====
-- `FixHeaderSplit`: a packed message is cut out of the stream again, and a message that arrives in
-- pieces is cut out as if it had come at once.
use sm.Base.{
  dec_lt, ℕ_discrete, ℕ, ◌^◌, ◌≤◌, ◌<◌, ◌≡◌, refl, ◌≢◌, true, false, none, List, [], ◌∷◌, ◌++◌,
  append_assoc, arith, length, take, drop, length-append, take-append, drop-append, take-append_le,
  drop-append_le,
}
use sm.Utils.Heads.{Base64, CmdHead, no_head, packcmdrep, parsecmd}
use sm.Utils.Heads.RoundTrip.{length-packcmdrep, parsecmd-packcmdrep}
use sm.Utils.MainCmd.{main_cmd_begin}
use sm.Net.Split.{Splitting, fix_head_len, split_body, fix_header_split, pack_main_ass_pack}

-- A stream behind which nothing is known yet.
abbrev pub fresh : List ℕ → Splitting
fresh msg = record { msg = msg; head = no_head; dst = [] }

-- More bytes arrive.
abbrev pub feed : Splitting → List ℕ → Splitting
feed s more = record s { msg = s.msg ++ more }

-- A body that is there is taken, and the rest stays.
split_body-take :
    (body rest : List ℕ) (mainc assc : ℕ) (dst : List ℕ)
    → body ++ rest ≢ []
    → split_body (record {
      msg = body ++ rest;
      head = record { mainc = mainc; assc = assc; len = length body };
      dst = dst;
    })
      ≡ (
        true,
        record {
          msg = rest;
          head = record { mainc = mainc; assc = assc; len = length body };
          dst = body;
        },
      )
unfolding split_body
split_body-take [] [] mainc assc dst h = absurd (h refl)
split_body-take [] (x ∷ rest) mainc assc dst h = ground arith
split_body-take (x ∷ body) rest mainc assc dst h =
    ground (arith, length-append body rest, take-append body rest, drop-append body rest)

-- A body that is not there yet leaves all as it is, and is waited for.
split_body_waits : (s : Splitting) → (split_body s).0 ≡ false → (split_body s).1 ≡ s
unfolding split_body
split_body_waits s h = ground arith

module _ (base64 : Base64) where
  -- Twelve characters of a head at the front of the stream are parsed and removed.
  pub fix_header_split-head :
      (hd body dst : List ℕ)
      → length hd ≡ 12
      → fix_header_split base64 (record { msg = hd ++ body; head = no_head; dst = dst })
        ≡ split_body (record { msg = body; head = parsecmd base64 hd; dst = dst })
  unfolding fix_header_split
  fix_header_split-head hd body dst h =
      ground
        (arith, length-append hd body, rw h at (take-append hd body), rw h at (drop-append hd body))

  -- A message packed by `PackMainAssPack`, followed by anything, is cut out of the stream: its head
  -- and body come back, and what follows stays. Either the message is not empty or something
  -- follows it, and the fields are of their C types.
  pub fix_header_split-pack_main_ass_pack :
      (head : CmdHead) (msg rest : List ℕ)
      → head.mainc < 2 ^ 16
      → head.assc < 2 ^ 16
      → length msg < 2 ^ 32
      → msg ++ rest ≢ []
      → fix_header_split base64 (fresh (pack_main_ass_pack base64 head msg ++ rest)) ≡ (
        true,
        record {
          msg = rest;
          head = record { mainc = head.mainc; assc = head.assc; len = length msg };
          dst = msg;
        },
      )
  unfolding pack_main_ass_pack
  fix_header_split-pack_main_ass_pack head msg rest hm ha hl ne =
      rw
        (
          append_assoc (packcmdrep base64 head.mainc head.assc (length msg)) msg rest,
          fix_header_split-head (packcmdrep base64 head.mainc head.assc (length msg)) (msg ++ rest)
              [] (length-packcmdrep base64 head.mainc head.assc (length msg)),
          parsecmd-packcmdrep base64 head.mainc head.assc (length msg) hm ha hl,
        )
        (split_body-take msg rest head.mainc head.assc [] ne)

  -- The stream behind a head that is there.
  abbrev pub parsed : Splitting → Splitting
  parsed s = record s {
    head = parsecmd base64 (take fix_head_len s.msg);
    msg = drop fix_head_len s.msg;
  }

  fix_header_split_known :
      (s : Splitting) → s.head.mainc ≢ main_cmd_begin → fix_header_split base64 s ≡ split_body s
  unfolding fix_header_split
  fix_header_split_known s h = ground arith

  fix_header_split_short :
      (s : Splitting)
      → s.head.mainc ≡ main_cmd_begin
      → length s.msg < fix_head_len
      → fix_header_split base64 s ≡ (false, s)
  unfolding fix_header_split
  fix_header_split_short s h l = ground arith

  fix_header_split_parse :
      (s : Splitting)
      → s.head.mainc ≡ main_cmd_begin
      → fix_head_len ≤ length s.msg
      → fix_header_split base64 s ≡ split_body (parsed s)
  unfolding fix_header_split
  fix_header_split_parse s h l = ground arith

  parsed-feed :
      (s : Splitting) (more : List ℕ)
      → fix_head_len ≤ length s.msg
      → parsed (feed s more) ≡ feed (parsed s) more
  parsed-feed s more l =
      ground
        (arith, take-append_le fix_head_len s.msg more l, drop-append_le fix_head_len s.msg more l)

  -- A call that answers no for want of bytes loses nothing: once more bytes are there, the call on
  -- what it left gives what a single call on all the bytes would have given. Where the head is still
  -- to be parsed and its twelve bytes are there, it names a main command other than `MainCmdBegin`;
  -- a stream whose head is known, and one whose head is not complete, have no condition.
  pub fix_header_split_resumes :
      (s : Splitting) (more : List ℕ)
      → (s.head.mainc ≡ main_cmd_begin
          → fix_head_len ≤ length s.msg
          → (parsecmd base64 (take fix_head_len s.msg)).mainc ≢ main_cmd_begin)
      → (fix_header_split base64 s).0 ≡ false
      → fix_header_split base64 (feed (fix_header_split base64 s).1 more)
        ≡ fix_header_split base64 (feed s more)
  fix_header_split_resumes s more named waits = elim (ℕ_discrete s.head.mainc main_cmd_begin) [
    | no known ↦
        let e : fix_header_split base64 s ≡ split_body s = fix_header_split_known s known in
        rw (e, split_body_waits s (rw e at waits))
    | yes first ↦ elim (dec_lt (length s.msg) fix_head_len) [
      | yes short ↦ rw (fix_header_split_short s first short)
      | no long ↦
          let l : fix_head_len ≤ length s.msg = omega arith in
          let e : fix_header_split base64 s ≡ split_body (parsed s) =
            fix_header_split_parse s first l in
          let more_l : fix_head_len ≤ length (s.msg ++ more) =
            omega (arith, length-append s.msg more) in
          rw (
            e,
            split_body_waits (parsed s) (rw e at waits),
            fix_header_split_known (feed (parsed s) more) (named first l),
            fix_header_split_parse (feed s more) first more_l,
            parsed-feed s more l,
          )
    ]
  ]

  -- A head that does not decode is taken for a message: the twelve bytes are dropped, and if
  -- anything follows them the call answers yes with an empty message.
  fix_header_split_undecodable :
      (hd body : List ℕ)
      → length hd ≡ 12
      → base64.decode hd ≡ none
      → body ≢ []
      → fix_header_split base64 (fresh (hd ++ body)) ≡ (true, fresh body)
  unfolding parsecmd
  fix_header_split_undecodable hd body h bad ne =
      rw (fix_header_split-head hd body [] h, bad, parsecmd) (split_body-take [] body 1 0 [] ne)
