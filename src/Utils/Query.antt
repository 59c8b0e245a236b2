-- ===== src/Utils/Query.antt =====
-- Utils/Utils.cpp `parseQueryString`: the pairs of a query string, by its two loops.
pub mod Pieces
pub mod Render
use sm.Base.{
  ℕ, zero, suc, ◌+◌, ◌-◌, ◌*◌, ◌/◌, ◌%◌, ◌^◌, ◌≤◌, ◌<◌, ◌≡◌, refl, sym, ap, ap₂, ◌∙◌, fun_ext, ◌≢◌,
  ◌↔◌, ◌⊎◌, inl, inr, Bool, true, false, not, ◌&&◌, ◌||◌, Option, none, some, List, [], ◌∷◌, ◌++◌,
  append-nil, append_assoc, map, arith, ltb, leb, ◌==◌, if◌then◌else◌, ltb→lt, lt→ltb, le→ltb,
  ==→eq, ==_refl, tests, Bool-cases, Option-cases, length, take, drop, length-append, take-append,
  drop-append, take-append_drop, take_of_length, drop_of_length, length-drop, length-take,
  take-append_le, drop-append_le, All, Bytes,
}
use sm.Base.Map.{insert, bytes_eq}

-- `std::string::find` of a character: the first position, or `npos`.
unfoldable pub find_char : ℕ → List ℕ → Option ℕ
find_char c [] = none
find_char c (x ∷ xs) =
    if x == c then some 0 else elim (find_char c xs) [ none ↦ none | some i ↦ some (suc i) ]

-- The first loop, `while (!str.empty())`, with fuel. `erase(0, pos + 1)` erases nothing where `pos`
-- is `npos`, as `npos + 1` is 0, and there `str` has been cleared.
unfoldable pub split_loop : ℕ → List ℕ → List (List ℕ) → List (List ℕ)
split_loop zero str vtemp = vtemp
split_loop (suc fuel) [] vtemp = vtemp
split_loop (suc fuel) (c ∷ cs) vtemp = elim (find_char b'&' (c ∷ cs)) [
  | some pos ↦ split_loop fuel (drop (pos + 1) (c ∷ cs)) (vtemp ++ (take pos (c ∷ cs) ∷ []))
  | none ↦ split_loop fuel [] (vtemp ++ ((c ∷ cs) ∷ []))
]

-- The key and value of one piece: at the first `=`, or the whole piece with an empty value.
unfoldable pub key_value : List ℕ → List ℕ × List ℕ
key_value it = elim (find_char b'=' it) [
  | some pos ↦ (take pos it, take (length it - pos - 1) (drop (pos + 1) it))
  | none ↦ (it, [])
]

-- The second loop takes the first piece until there is none.
unfoldable pub insert_loop : List (List ℕ) → List (List ℕ × List ℕ) → List (List ℕ × List ℕ)
insert_loop [] ret = ret
insert_loop (it ∷ vtemp) ret = let (k, v) = key_value it in insert_loop vtemp (insert k v ret)

-- Every round removes a byte at least, so the length of the string is fuel enough.
unfoldable pub parse_query_string : List ℕ → List (List ℕ × List ℕ)
parse_query_string str = insert_loop (split_loop (length str) str []) []
