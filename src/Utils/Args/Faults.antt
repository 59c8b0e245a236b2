-- ===== src/Utils/Args/Faults.antt =====
-- What `unpackArgs` does with arguments that do not parse, or that are missing.
use sm.Base.{
  ℕ, ◌+◌, ◌≤◌, ◌<◌, ◌≡◌, refl, ap, ◌∙◌, Bool, true, false, none, some, List, [], ◌∷◌, ◌++◌, arith,
  ltb, length, drop, drop_of_length,
}
use sm.Utils.Args.{Json, unpackstring, pack_args, unpack_each, unpack_args, with_args, flagged}
use sm.Utils.Args.RoundTrip.{Typed, each_step, unpack_args-packed}

unpackstring_short : (msg : List ℕ) → length msg < 4 → unpackstring msg ≡ []
unfolding unpackstring
unpackstring_short (a ∷ b ∷ c ∷ d ∷ rest) h = absurd (omega arith)
unpackstring_short _ h = refl

module _ (json : Json) where
  open json use {Ty, Value, initial, from_json}

  -- The flag that `for_each` leaves is that of the last argument alone: if an earlier argument does
  -- not parse, the next one is tried at the same place of the message, and if there it parses as
  -- the type of that argument the whole call is reported as good, the failed argument holding what
  -- the parser left in it.
  unpack_args_masks_failure :
      (msg : List ℕ) (t u : Ty) (v w : Value)
      → from_json t (initial t) (unpackstring msg) ≡ (false, v)
      → from_json u (initial u) (unpackstring msg) ≡ (true, w)
      → unpack_args json msg (t ∷ u ∷ []) ≡ some (true, v ∷ w ∷ [])
  unfolding unpack_args unpack_each
  unpack_args_masks_failure msg t u v w failed parsed =
      let within : ltb (length msg) 0 ≡ false = ground arith in rw (failed, parsed, within) refl

  each_behind :
      (msg : List ℕ) (t : Ty) (ts : List Ty) (flag : Bool) (offset : ℕ)
      → length msg < offset
      → unpack_each json msg (t ∷ ts) flag offset ≡ none
  unfolding unpack_each
  each_behind msg t ts flag offset h =
      let behind : ltb (length msg) offset ≡ true = ground arith in rw behind refl

  -- An argument for which there are fewer bytes than a length has, and whose type accepts the empty
  -- text: it counts as read, and the offset moves behind the end of the message.
  each_missing :
      (msg : List ℕ) (t : Ty) (ts : List Ty) (offset : ℕ) (v : Value)
      → offset ≤ length msg
      → unpackstring (drop offset msg) ≡ []
      → from_json t (initial t) [] ≡ (true, v)
      → unpack_each json msg (t ∷ ts) true offset
        ≡ with_args json (v ∷ []) (unpack_each json msg ts true (offset + 4))
  each_missing msg t ts offset v inside nothing accepts =
      each_step json msg t ts true offset [] v inside nothing accepts

  each_overruns :
      (msg : List ℕ) (t u : Ty) (us : List Ty) (offset : ℕ) (v : Value)
      → offset ≤ length msg
      → length msg < offset + 4
      → unpackstring (drop offset msg) ≡ []
      → from_json t (initial t) [] ≡ (true, v)
      → unpack_each json msg (t ∷ u ∷ us) true offset ≡ none
  each_overruns msg t u us offset v inside short nothing accepts =
      each_missing msg t (u ∷ us) offset v inside nothing accepts
      ∙ ap (with_args json (v ∷ [])) (each_behind msg u us true (offset + 4) short)

  nothing_left : (msg : List ℕ) → unpackstring (drop (length msg) msg) ≡ []
  nothing_left msg = ap unpackstring (drop_of_length msg) ∙ unpackstring_short [] (omega arith)

  -- A type whose parser accepts the empty text, as iguana's does for a record: an argument of it that
  -- the sender did not pack counts as read. Where it is the last one, the call is reported as good;
  -- where another one follows, that one is read behind the end of the message, as also of a message
  -- that is too short for one length. The sender packed two arguments or more, of their types, each
  -- shorter than 4 GiB.
  pub unpack_args_overruns :
      (t u : Ty) (us : List Ty) (v : Value)
      → from_json t (initial t) [] ≡ (true, v)
      → ((msg : List ℕ) → length msg < 4 → unpack_args json msg (t ∷ u ∷ us) ≡ none)
        × ((w w' : Value) (ws : List Value) (ts : List Ty)
            → Typed json ts (w ∷ w' ∷ ws)
            → let msg = pack_args json [] w (w' ∷ ws) in
              (unpack_args json msg (ts ++ (t ∷ [])) ≡ some (true, (w ∷ w' ∷ ws) ++ (v ∷ [])))
              × (unpack_args json msg (ts ++ (t ∷ u ∷ us)) ≡ none))
  unfolding unpack_args unpack_each
  unpack_args_overruns t u us v accepts = (
    λ msg short.
        ap (flagged json)
          (each_overruns msg t u us 0 v (omega arith) short (unpackstring_short msg short) accepts),
    λ w w' ws ts typed.
        let msg = pack_args json [] w (w' ∷ ws) in
        let values = w ∷ w' ∷ ws in
        (
          unpack_args-packed json w w' ws ts (t ∷ []) typed
              ∙ ap (λ o. flagged json (with_args json values o))
                  (each_missing msg t [] (length msg) v (omega arith) (nothing_left msg) accepts),
          unpack_args-packed json w w' ws ts (t ∷ u ∷ us) typed
              ∙ ap (λ o. flagged json (with_args json values o))
                  (each_overruns msg t u us (length msg) v (omega arith) (omega arith)
                    (nothing_left msg) accepts),
        ),
  )
