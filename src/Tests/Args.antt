-- ===== src/Tests/Args.antt =====
-- The arguments of a call.
use sm.Base.{ℕ, ◌<◌, ◌≡◌, refl, true, none, some, List, [], ◌∷◌, ◌++◌, arith, length}
use sm.Utils.Args.{unpack_args, pack_args}
use sm.Utils.Args.RoundTrip.{Typed, unpack_args-pack_args}
use sm.Utils.Args.Faults.{unpack_args_overruns}
use sm.Tests.Json.{Ty, number, text, empty, Value, num, str, members, json}

abbrev types : List Ty
types = number ∷ text ∷ []

abbrev word : Value
word = str (b'o' ∷ b'k' ∷ [])

unpack_args-pack_args_example :
    unpack_args json (pack_args json [] (num 7) (word ∷ [])) types ≡ some (true, num 7 ∷ word ∷ [])
unpack_args-pack_args_example = unpack_args-pack_args json (num 7) (word ∷ []) types (ground arith)

-- A record that was not packed, and a number behind it.
unpack_args_overruns_example :
    ((msg : List ℕ) → length msg < 4 → unpack_args json msg (empty ∷ number ∷ []) ≡ none)
    × ((w w' : Value) (ws : List Value) (ts : List Ty)
        → Typed json ts (w ∷ w' ∷ ws)
        → let msg = pack_args json [] w (w' ∷ ws) in
          (unpack_args json msg (ts ++ (empty ∷ [])) ≡ some (true, (w ∷ w' ∷ ws) ++ (members ∷ [])))
          × (unpack_args json msg (ts ++ (empty ∷ number ∷ [])) ≡ none))
unpack_args_overruns_example = unpack_args_overruns json empty number [] members refl
