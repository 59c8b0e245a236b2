-- ===== src/Utils/Args/RoundTrip.antt =====
-- The arguments that were packed are unpacked again.
use sm.Base.{
  ℕ, ◌+◌, ◌^◌, ◌<◌, ◌≤◌, ◌≡◌, refl, sym, ap, ◌∙◌, Bool, true, false, ltb, Option, none, some, List,
  [], ◌∷◌, ◌++◌, append-nil, append_assoc, arith, length, drop, length-append, take-append,
  drop-append,
}
use sm.Utils.Endian.{packuint32}
use sm.Utils.Endian.RoundTrip.{value32-be32}
use sm.Utils.Args.{
  flagged, Json, packstring, unpackstring, pack_args, unpack_args, unpack_each, with_args,
  Unpacking,
}

pub unpackstring-packstring :
    (msg rest : List ℕ) → length msg < 2 ^ 32 → unpackstring (packstring msg ++ rest) ≡ msg
unfolding unpackstring packstring packuint32
unpackstring-packstring msg rest h =
    ground (arith, take-append msg rest, length-append msg rest, value32-be32 (length msg) h)

pub length-packstring : (msg : List ℕ) → length (packstring msg) ≡ length msg + 4
unfolding packstring packuint32
length-packstring msg = omega arith

module _ (json : Json) where
  open json use {Ty, Value, HasType, initial, to_json, from_json}

  -- Every argument has its type, and a text that a 32-bit length can count.
  abbrev pub Typed : List Ty → List Value → Type 0
  Typed [] [] = Unit
  Typed [] (v ∷ vs) = ⊥
  Typed (t ∷ ts) [] = ⊥
  Typed (t ∷ ts) (v ∷ vs) = HasType t v × (length (to_json v) < 2 ^ 32) × Typed ts vs

  -- What follows `pre` when two or more arguments are packed.
  unfoldable pub packed : List Value → List ℕ
  packed [] = []
  packed (v ∷ vs) = packstring (to_json v) ++ packed vs

  pack_args-packed :
      (b : ℕ) (pre : List ℕ) (v : Value) (vs : List Value)
      → pack_args json (b ∷ pre) v vs ≡ (b ∷ pre) ++ packed (v ∷ vs)
  unfolding pack_args packed
  pack_args-packed b pre v [] = rw append-nil
  pack_args-packed b pre v (w ∷ vs) =
      pack_args-packed b (pre ++ packstring (to_json v)) w vs
      ∙ append_assoc (b ∷ pre) (packstring (to_json v)) _

  with_args-append :
      (v : Value) (vs : List Value) (o : Option (Unpacking json))
      → with_args json (v ∷ []) (with_args json vs o) ≡ with_args json (v ∷ vs) o
  with_args-append v vs none = refl
  with_args-append v vs (some r) = refl

  with_args-nil : (o : Option (Unpacking json)) → o ≡ with_args json [] o
  with_args-nil none = refl
  with_args-nil (some r) = refl

  -- A step of `for_each` with an argument that parses.
  pub each_step :
      (msg : List ℕ) (t : Ty) (ts : List Ty) (flag : Bool) (offset : ℕ) (p : List ℕ) (v : Value)
      → offset ≤ length msg
      → unpackstring (drop offset msg) ≡ p
      → from_json t (initial t) p ≡ (true, v)
      → unpack_each json msg (t ∷ ts) flag offset
        ≡ with_args json (v ∷ []) (unpack_each json msg ts true (offset + (length p + 4)))
  unfolding unpack_each
  each_step msg t ts flag offset p v inside param parsed =
      let within : ltb (length msg) offset ≡ false = ground arith in rw (param, parsed, within) refl

  -- `for_each` over what was packed behind the first bytes `pre` of the message, and then over more
  -- types at the end of the message.
  pub unpack_each-packed :
      (msg pre : List ℕ) (vs : List Value) (ts more : List Ty)
      → msg ≡ pre ++ packed vs
      → Typed ts vs
      → unpack_each json msg (ts ++ more) true (length pre)
        ≡ with_args json vs (unpack_each json msg more true (length msg))
  unfolding packed
  unpack_each-packed msg pre [] [] more e h =
      ap (unpack_each json msg more true) (sym (ap length (e ∙ append-nil pre)))
      ∙ with_args-nil (unpack_each json msg more true (length msg))
  unpack_each-packed msg pre [] (t ∷ ts) more e h = elim h [ ]
  unpack_each-packed msg pre (v ∷ vs) [] more e h = elim h [ ]
  unpack_each-packed msg pre (v ∷ vs) (t ∷ ts) more e (ht, hl, h) =
      each_step msg t (ts ++ more) true (length pre) (to_json v) v inside param
        (json.from_json-to_json t v ht)
      ∙ ap (λ n. with_args json (v ∷ []) (unpack_each json msg (ts ++ more) true n)) shift
      ∙ ap (with_args json (v ∷ [])) (
          unpack_each-packed msg (pre ++ packstring (to_json v)) vs ts more
            (e ∙ sym (append_assoc pre (packstring (to_json v)) (packed vs))) h)
      ∙ with_args-append v vs (unpack_each json msg more true (length msg))
    where
      param : unpackstring (drop (length pre) msg) ≡ to_json v
      param =
          rw (e, drop-append pre (packstring (to_json v) ++ packed vs))
            (unpackstring-packstring (to_json v) (packed vs) hl)

      inside : length pre ≤ length msg
      inside = rw (e, length-append pre (packstring (to_json v) ++ packed vs)) (omega arith)

      shift : length pre + (length (to_json v) + 4) ≡ length (pre ++ packstring (to_json v))
      shift =
          omega (arith, length-append pre (packstring (to_json v)), length-packstring (to_json v))

  pub pack_args-eq-packed :
      (v w : Value) (vs : List Value) → pack_args json [] v (w ∷ vs) ≡ packed (v ∷ w ∷ vs)
  unfolding pack_args packed packstring packuint32
  pack_args-eq-packed v w vs = pack_args-packed _ _ w vs

  -- Two or more arguments that were packed, unpacked as their types, and then more types at the end.
  pub unpack_args-packed :
      (v w : Value) (vs : List Value) (ts more : List Ty)
      → Typed ts (v ∷ w ∷ vs)
      → let msg = pack_args json [] v (w ∷ vs) in
        unpack_args json msg (ts ++ more)
        ≡ flagged json (with_args json (v ∷ w ∷ vs) (unpack_each json msg more true (length msg)))
  unfolding unpack_args
  unpack_args-packed v w vs [] more h = elim h [ ]
  unpack_args-packed v w vs (t ∷ []) more (ht, hl, h) = elim h [ ]
  unpack_args-packed v w vs (t ∷ u ∷ ts) more h = ap (flagged json) (
      unpack_each-packed (pack_args json [] v (w ∷ vs)) [] (v ∷ w ∷ vs) (t ∷ u ∷ ts) more
        (pack_args-eq-packed v w vs) h)

  -- Two or more arguments, packed and unpacked as their types, come back in order and the flag is
  -- true; so does a single argument, which is sent bare. Each text is shorter than 4 GiB.
  pub unpack_args-pack_args :
      (v : Value) (vs : List Value) (ts : List Ty)
      → Typed ts (v ∷ vs)
      → unpack_args json (pack_args json [] v vs) ts ≡ some (true, v ∷ vs)
  unfolding unpack_args pack_args unpack_each
  unpack_args-pack_args v [] [] h = elim h [ ]
  unpack_args-pack_args v [] (t ∷ []) (ht, hl, h) = rw (json.from_json-to_json t v ht) refl
  unpack_args-pack_args v [] (t ∷ u ∷ ts) (ht, hl, h) = elim h [ ]
  unpack_args-pack_args v (w ∷ vs) ts h =
      ap (unpack_args json (pack_args json [] v (w ∷ vs))) (sym (append-nil ts))
      ∙ unpack_args-packed v w vs ts [] h
      ∙ ap (λ xs. some (true, v ∷ w ∷ xs)) (append-nil vs)
