-- ===== src/Net/Split/Truncated.antt =====
-- The other splitting functions with a head: what `FixHeaderSplit2` takes for a whole message, and
-- what `FixHeaderSplit3` forgets.
use sm.Base.{
  take-append_at, drop-append_at, ℕ, ◌+◌, ◌^◌, ◌≤◌, ◌<◌, ◌≡◌, refl, ◌∙◌, true, false, List, [], ◌∷◌,
  ◌++◌, arith, leb, if◌then◌else◌, length, take, drop, length-append,
}
use sm.Utils.Heads.{Base64, CmdHead, CmdSubHead, parsecmd, parsesubcmd, packcmdrep}
use sm.Utils.Heads.RoundTrip.{length-packcmdrep, parsecmd-packcmdrep}
use sm.Net.Split.{
  SubSplitting, view_body, split_body, split_sub_body, fix_header_split, fix_header_split2,
  fix_header_split3,
}
use sm.Net.Split.Header.{fresh, fix_header_split-head}

module _ (base64 : Base64) where
  fix_header_split2-head :
      (hd body : List ℕ)
      → length hd ≡ 12
      → fix_header_split2 base64 (fresh (hd ++ body))
        ≡ view_body (record { msg = hd ++ body; head = parsecmd base64 hd; dst = [] })
  unfolding fix_header_split2
  fix_header_split2-head hd body h =
      ground (arith, length-append hd body, take-append_at 12 hd body h)

  view_body-head :
      (hd body dst : List ℕ) (head : CmdHead)
      → length hd ≡ 12
      → view_body (record { msg = hd ++ body; head = head; dst = dst }) ≡ (
          if leb head.len (12 + length body)
          then (true, record { msg = hd ++ body; head = head; dst = body })
          else (false, record { msg = hd ++ body; head = head; dst = dst }))
  unfolding view_body
  view_body-head [] body dst head h = absurd (omega arith)
  view_body-head (x ∷ hd) body dst head h =
      ground (arith, length-append hd body, drop-append_at 12 (x ∷ hd) body h)

  fix_header_split_missing :
      (head : CmdHead) (part : List ℕ)
      → length part < head.len
      → split_body (record { msg = part; head = head; dst = [] })
        ≡ (false, record { msg = part; head = head; dst = [] })
  unfolding split_body
  fix_header_split_missing head part h = ground arith

  -- `FixHeaderSplit2` compares the length in the head, which counts the body, with the whole
  -- message. So of a message that was cut short by at most twelve bytes it answers yes, with the
  -- shortened body, where `FixHeaderSplit` waits for the rest.
  fix_header_split2_takes_truncated :
      (mainc assc : ℕ) (part missing : List ℕ)
      → mainc < 2 ^ 16
      → assc < 2 ^ 16
      → length (part ++ missing) < 2 ^ 32
      → 0 < length missing
      → length missing ≤ 12
      → let hd = packcmdrep base64 mainc assc (length (part ++ missing)) in
        let head : CmdHead = record {
          mainc = mainc;
          assc = assc;
          len = length (part ++ missing);
        } in
        (fix_header_split2 base64 (fresh (hd ++ part))
          ≡ (true, record { msg = hd ++ part; head = head; dst = part }))
        × (fix_header_split base64 (fresh (hd ++ part))
            ≡ (false, record { msg = part; head = head; dst = [] }))
  fix_header_split2_takes_truncated mainc assc part missing hm ha hl some_missing few = (
    rw
        (
          fix_header_split2-head hd part is_head,
          parsecmd-packcmdrep base64 mainc assc n hm ha hl,
          view_body-head hd part [] (record { mainc = mainc; assc = assc; len = n }) is_head,
        )
        (ground (arith, length-append part missing)),
    rw
        (
          fix_header_split-head base64 hd part [] is_head,
          parsecmd-packcmdrep base64 mainc assc n hm ha hl,
        )
        (fix_header_split_missing (record { mainc = mainc; assc = assc; len = n }) part
          (omega (arith, length-append part missing))),
  )
    where
      n : ℕ
      n = length (part ++ missing)

      hd : List ℕ
      hd = packcmdrep base64 mainc assc n

      is_head : length hd ≡ 12
      is_head = length-packcmdrep base64 mainc assc n

  fix_header_split3-head :
      (hd body dst : List ℕ) (head : CmdSubHead)
      → length hd ≡ 8
      → fix_header_split3 base64 (record { msg = hd ++ body; head = head; dst = dst })
        ≡ split_sub_body (record { msg = body; head = parsesubcmd base64 hd; dst = dst })
  unfolding fix_header_split3
  fix_header_split3-head hd body dst head h =
      ground (arith, length-append hd body, take-append_at 8 hd body h, drop-append_at 8 hd body h)

  split_sub_body_missing :
      (s : SubSplitting) → length s.msg < s.head.len → split_sub_body s ≡ (false, s)
  unfolding split_sub_body
  split_sub_body_missing s h = ground arith

  fix_header_split3_enough :
      (s : SubSplitting)
      → 8 ≤ length s.msg
      → fix_header_split3 base64 s
        ≡ split_sub_body (record s { msg = drop 8 s.msg; head = parsesubcmd base64 (take 8 s.msg) })
  unfolding fix_header_split3
  fix_header_split3_enough s h = ground arith

  -- `FixHeaderSplit3` removes the head of a message whose body is not complete, and answers no; at
  -- the next call it parses the first eight bytes of the body for a head, whatever it parsed
  -- before.
  fix_header_split3_forgets_head :
      (hd part more dst : List ℕ) (head : CmdSubHead)
      → length hd ≡ 8
      → length part < (parsesubcmd base64 hd).len
      → 8 ≤ length (part ++ more)
      → let (ok, s) =
          fix_header_split3 base64 (record { msg = hd ++ part; head = head; dst = dst }) in
        (ok ≡ false)
        × (s.msg ≡ part)
        × (fix_header_split3 base64 (record s { msg = s.msg ++ more })
            ≡ split_sub_body (record {
              msg = drop 8 (part ++ more);
              head = parsesubcmd base64 (take 8 (part ++ more));
              dst = dst;
            }))
  fix_header_split3_forgets_head hd part more dst head h short enough = rw waits (
    refl,
    refl,
    fix_header_split3_enough
        (record { msg = part ++ more; head = parsesubcmd base64 hd; dst = dst }) enough,
  )
    where
      waits :
          fix_header_split3 base64 (record { msg = hd ++ part; head = head; dst = dst })
          ≡ (false, record { msg = part; head = parsesubcmd base64 hd; dst = dst })
      waits =
          fix_header_split3-head hd part dst head h
          ∙ split_sub_body_missing (record { msg = part; head = parsesubcmd base64 hd; dst = dst })
              short
