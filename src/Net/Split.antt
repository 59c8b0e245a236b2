-- ===== src/Net/Split.antt =====
-- networkinterface/MessageSplitFuncs.cpp: messages cut out of a stream of bytes, and packed.
pub mod Header
pub mod Truncated
use sm.Base.{
  ℕ, zero, suc, ◌+◌, ◌-◌, ◌*◌, ◌/◌, ◌%◌, ◌^◌, ◌≤◌, ◌<◌, ◌≡◌, refl, sym, ap, ap₂, ◌∙◌, fun_ext, ◌≢◌,
  ◌↔◌, ◌⊎◌, inl, inr, Bool, true, false, not, ◌&&◌, ◌||◌, Option, none, some, List, [], ◌∷◌, ◌++◌,
  append-nil, append_assoc, map, arith, ltb, leb, ◌==◌, if◌then◌else◌, ltb→lt, lt→ltb, le→ltb,
  ==→eq, ==_refl, tests, Bool-cases, Option-cases, length, take, drop, length-append, take-append,
  drop-append, drop-append_cons, take-append_drop, take_of_length, drop_of_length, length-drop,
  length-take, take-append_le, drop-append_le, All, Bytes,
}
use sm.Utils.Heads.{Base64, CmdHead, CmdSubHead, packcmdrep, parsecmd, parsesubcmd}
use sm.Utils.MainCmd.{main_cmd_begin, echo}

abbrev pub fix_msg_len : ℕ
fix_msg_len = 5

abbrev pub fix_head_len : ℕ
fix_head_len = 12

abbrev pub fix_sub_head_len : ℕ
fix_sub_head_len = 8

-- What a splitting function is given by reference: the buffered bytes, the head and the message.
pub record Splitting : Type 0 where
  pub msg : List ℕ
  pub head : CmdHead
  pub dst : List ℕ

pub record SubSplitting : Type 0 where
  pub msg : List ℕ
  pub head : CmdSubHead
  pub dst : List ℕ

abbrev pub is_empty {ℓ} : {A : Type ℓ} → List A → Bool
is_empty [] = true
is_empty (x ∷ xs) = false

unfoldable pub variable_len_split : Splitting → Bool × Splitting
variable_len_split s =
    if not (is_empty s.msg)
    then (
      true,
      record {
        msg = [];
        head = record { mainc = echo; assc = s.head.assc; len = s.head.len };
        dst = s.msg;
      },
    )
    else (false, record s { dst = [] })

unfoldable pub fix_len_split : Splitting → Bool × Splitting
fix_len_split s =
    if leb fix_msg_len (length s.msg)
    then (
      true,
      record {
        msg = drop fix_msg_len s.msg;
        head = record { mainc = echo; assc = s.head.assc; len = s.head.len };
        dst = take fix_msg_len s.msg;
      },
    )
    else (false, record s { dst = [] })

-- The second half of `FixHeaderSplit`: the body, if it is there.
unfoldable pub split_body : Splitting → Bool × Splitting
split_body s =
    if not (is_empty s.msg) && leb s.head.len (length s.msg)
    then (true, record s { msg = drop s.head.len s.msg; dst = take s.head.len s.msg })
    else (false, s)

unfoldable pub split_sub_body : SubSplitting → Bool × SubSplitting
split_sub_body s =
    if not (is_empty s.msg) && leb s.head.len (length s.msg)
    then (true, record s { msg = drop s.head.len s.msg; dst = take s.head.len s.msg })
    else (false, s)

-- The second half of `FixHeaderSplit2` and `FixHeaderSplit4`: all that follows the head.
unfoldable pub view_body : Splitting → Bool × Splitting
view_body s =
    if (not (is_empty s.msg) && leb fix_head_len (length s.msg)) && leb s.head.len (length s.msg)
    then (true, record s { dst = drop fix_head_len s.msg })
    else (false, s)

unfoldable pub view_sub_body : SubSplitting → Bool × SubSplitting
view_sub_body s =
    if (not (is_empty s.msg) && leb fix_sub_head_len (length s.msg))
      && leb s.head.len (length s.msg)
    then (true, record s { dst = drop fix_sub_head_len s.msg })
    else (false, s)

module _ (base64 : Base64) where
  -- A head that was parsed by an earlier call is kept until the body is complete.
  unfoldable pub fix_header_split : Splitting → Bool × Splitting
  fix_header_split s =
      if s.head.mainc == main_cmd_begin
      then (if ltb (length s.msg) fix_head_len
          then (false, s)
          else split_body (record s {
            head = parsecmd base64 (take fix_head_len s.msg);
            msg = drop fix_head_len s.msg;
          }))
      else split_body s

  -- On a whole message as a view, whose bytes stay.
  unfoldable pub fix_header_split2 : Splitting → Bool × Splitting
  fix_header_split2 s =
      if s.head.mainc == main_cmd_begin
      then (if ltb (length s.msg) fix_head_len
          then (false, s)
          else view_body (record s { head = parsecmd base64 (take fix_head_len s.msg) }))
      else view_body s

  -- With the head that has no main command; this one parses a head at every call.
  unfoldable pub fix_header_split3 : SubSplitting → Bool × SubSplitting
  fix_header_split3 s =
      if ltb (length s.msg) fix_sub_head_len
      then (false, s)
      else split_sub_body (record s {
        head = parsesubcmd base64 (take fix_sub_head_len s.msg);
        msg = drop fix_sub_head_len s.msg;
      })

  unfoldable pub fix_header_split4 : SubSplitting → Bool × SubSplitting
  fix_header_split4 s =
      if ltb (length s.msg) fix_sub_head_len
      then (false, s)
      else view_sub_body (record s { head = parsesubcmd base64 (take fix_sub_head_len s.msg) })

  unfoldable pub pack_main_ass_pack : CmdHead → List ℕ → List ℕ
  pack_main_ass_pack head msg = packcmdrep base64 head.mainc head.assc (length msg) ++ msg

unfoldable pub pack_fix_len_pack : CmdHead → List ℕ → List ℕ
pack_fix_len_pack head msg = msg
