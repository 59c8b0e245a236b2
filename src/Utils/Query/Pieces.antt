-- ===== src/Utils/Query/Pieces.antt =====
-- The loops of `parseQueryString` against a plain recursion over the string.
use sm.Base.{
  ℕ, zero, suc, ◌+◌, ◌≤◌, ◌<◌, ◌≡◌, refl, sym, ◌∙◌, inl, inr, none, some, List, [], ◌∷◌, ◌++◌,
  append-nil, append_assoc, map, arith, ◌==◌, if◌then◌else◌, Option-cases, length, take, drop,
  length-drop,
}
use sm.Base.Map.{find, insert, bytes_eq, or_else, find-insert}
use native.Mathlib.Numerals.{add-one}
use sm.Utils.Query.{find_char, split_loop, insert_loop, key_value, parse_query_string}

abbrev pub cons_head : ℕ → List (List ℕ) → List (List ℕ)
cons_head c [] = (c ∷ []) ∷ []
cons_head c (p ∷ ps) = (c ∷ p) ∷ ps

-- The pieces that the `&`s separate; behind a last `&` there is none.
unfoldable pub pieces : List ℕ → List (List ℕ)
pieces [] = []
pieces (c ∷ cs) = if c == b'&' then [] ∷ pieces cs else cons_head c (pieces cs)

pub pieces-nil : pieces [] ≡ []
unfolding pieces
pieces-nil = refl

pub pieces_of_none :
    (c : ℕ) (cs : List ℕ) → find_char b'&' (c ∷ cs) ≡ none → pieces (c ∷ cs) ≡ (c ∷ cs) ∷ []
unfolding find_char pieces
pieces_of_none c [] h = ground arith
pieces_of_none c (d ∷ ds) h = ground (arith, pieces_of_none d ds)

pub pieces_of_some :
    (str : List ℕ) (pos : ℕ)
    → find_char b'&' str ≡ some pos
    → pieces str ≡ take pos str ∷ pieces (drop (pos + 1) str)
unfolding find_char pieces
pieces_of_some [] pos h = cc
pieces_of_some (c ∷ cs) zero h = ground arith
pieces_of_some (c ∷ cs) (suc pos) h = elim (Option-cases (find_char b'&' cs)) [
  | inl e ↦ ground arith
  | inr (i, e) ↦ ground (arith, pieces_of_some cs i, add-one pos)
]

pub find_char_bound :
    (c : ℕ) (str : List ℕ) (pos : ℕ) → find_char c str ≡ some pos → pos < length str
unfolding find_char
find_char_bound c [] pos h = cc
find_char_bound c (x ∷ xs) pos h = elim (Option-cases (find_char c xs)) [
  | inl e ↦ ground arith
  | inr (i, e) ↦ ground (arith, find_char_bound c xs i)
]

split_loop-nil : (fuel : ℕ) (vtemp : List (List ℕ)) → split_loop fuel [] vtemp ≡ vtemp ++ pieces []
unfolding split_loop pieces
split_loop-nil zero vtemp = sym (append-nil vtemp)
split_loop-nil (suc fuel) vtemp = sym (append-nil vtemp)

-- Fuel of at least the length of the string gives all its pieces, behind those that are there.
split_loop-pieces :
    (fuel : ℕ) (str : List ℕ) (vtemp : List (List ℕ))
    → length str ≤ fuel
    → split_loop fuel str vtemp ≡ vtemp ++ pieces str
unfolding split_loop
split_loop-pieces zero [] vtemp h = split_loop-nil zero vtemp
split_loop-pieces zero (c ∷ cs) vtemp h = absurd (omega arith)
split_loop-pieces (suc fuel) [] vtemp h = split_loop-nil (suc fuel) vtemp
split_loop-pieces (suc fuel) (c ∷ cs) vtemp h = elim (Option-cases (find_char b'&' (c ∷ cs))) [
  | inl e ↦
      rw (e, split_loop, split_loop-nil, pieces_of_none c cs e) (simp (pieces-nil, append-nil))
  | inr (pos, e) ↦
      rw (e, split_loop, pieces_of_some (c ∷ cs) pos e)
        (split_loop-pieces fuel (drop (pos + 1) (c ∷ cs)) (vtemp ++ (take pos (c ∷ cs) ∷ []))
            (omega (arith, length-drop (pos + 1) (c ∷ cs)))
          ∙ append_assoc vtemp (take pos (c ∷ cs) ∷ []) (pieces (drop (pos + 1) (c ∷ cs))))
]

-- What is in the map wins over the pieces that come later, and of the pieces the first.
insert_loop-find :
    (j : List ℕ) (ps : List (List ℕ)) (ret : List (List ℕ × List ℕ))
    → find j (insert_loop ps ret) ≡ or_else (find j ret) (find j (map key_value ps))
unfolding insert_loop find
insert_loop-find j [] ret = ground arith
insert_loop-find j (p ∷ ps) ret =
    rw (insert_loop-find j ps (insert (key_value p).0 (key_value p).1 ret), find-insert)
      (ground arith)

-- The value under a key is that of the first piece with the key: `parseQueryString` terminates
-- with the map of its pieces in which the first value of a key stays, on every string.
pub find-parse_query_string :
    (j str : List ℕ) → find j (parse_query_string str) ≡ find j (map key_value (pieces str))
unfolding parse_query_string find
find-parse_query_string j str =
    rw (split_loop-pieces (length str) str [] (omega arith)) (insert_loop-find j (pieces str) [])
