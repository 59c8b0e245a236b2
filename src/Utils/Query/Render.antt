-- ===== src/Utils/Query/Render.antt =====
-- A query string that was put together from pairs gives the pairs back.
use sm.Base.{
  drop-append_cons, ℕ, ◌-◌, ◌≡◌, refl, ap, ap₂, ◌∙◌, ◌≢◌, some, List, [], ◌∷◌, ◌++◌, map, arith,
  length, length-append, take-append, take_of_length, All,
}
use sm.Base.Map.{find, bytes_eq}
use sm.Utils.Query.{find_char, key_value, parse_query_string}
use sm.Utils.Query.Pieces.{pieces, pieces-nil, find-parse_query_string}

-- `k=v`, with `&` between.
unfoldable pub render_pair : List ℕ × List ℕ → List ℕ
render_pair (k, v) = k ++ (b'=' ∷ v)

unfoldable pub render : List (List ℕ × List ℕ) → List ℕ
render [] = []
render (p ∷ []) = render_pair p
render (p ∷ q ∷ ps) = render_pair p ++ (b'&' ∷ render (q ∷ ps))

-- Neither the key nor the value has a separator in it.
abbrev pub Plain : List ℕ × List ℕ → Type 0
Plain (k, v) = All (λ c. (c ≢ b'=') × (c ≢ b'&')) k × All (λ c. c ≢ b'&') v

find_char_free :
    (c : ℕ) (k rest : List ℕ) → All (λ x. x ≢ c) k → find_char c (k ++ (c ∷ rest)) ≡ some (length k)
unfolding find_char
find_char_free c [] rest h = ground arith
find_char_free c (x ∷ k) rest (hx, h) = ground (arith, find_char_free c k rest h)

All-map {ℓ κ ι} :
    {A : Type ℓ} {P : A → Type κ} {Q : A → Type ι}
    → ((a : A) → P a → Q a)
    → (xs : List A) → All P xs
    → All Q xs
All-map f [] h = tt
All-map f (x ∷ xs) (hx, h) = (f x hx, All-map f xs h)

key_value-render_pair : (p : List ℕ × List ℕ) → Plain p → key_value (render_pair p) ≡ p
unfolding key_value render_pair
key_value-render_pair (k, v) (hk, hv) =
    rw (find_char_free b'=' k v (All-map (λ c h. h.0) k hk), key_value)
      (ap₂ (λ a b. (a, b)) (take-append k (b'=' ∷ v))
        (rw (drop-append_cons k b'=' v, rest) (take_of_length v)))
  where
    rest : length (k ++ (b'=' ∷ v)) - length k - 1 ≡ length v
    rest = omega (arith, length-append k (b'=' ∷ v))

-- Bytes free of `&` in front of a string lengthen its first piece.
pieces-append :
    (xs rest : List ℕ) → All (λ x. x ≢ b'&') xs → pieces (xs ++ (b'&' ∷ rest)) ≡ xs ∷ pieces rest
unfolding pieces
pieces-append [] rest h = refl
pieces-append (x ∷ xs) rest (hx, h) = ground (arith, pieces-append xs rest h)

pieces_free : (x : ℕ) (xs : List ℕ) → All (λ x. x ≢ b'&') (x ∷ xs) → pieces (x ∷ xs) ≡ (x ∷ xs) ∷ []
unfolding pieces
pieces_free x [] (hx, h) = ground arith
pieces_free x (y ∷ xs) (hx, h) = ground (arith, pieces_free y xs h)

All-append {ℓ κ} :
    {A : Type ℓ} (P : A → Type κ) (xs ys : List A) → All P xs → All P ys → All P (xs ++ ys)
All-append P [] ys h k = k
All-append P (x ∷ xs) ys (hx, h) k = (hx, All-append P xs ys h k)

render_pair_free : (p : List ℕ × List ℕ) → Plain p → All (λ c. c ≢ b'&') (render_pair p)
unfolding render_pair
render_pair_free (k, v) (hk, hv) =
    All-append (λ c. c ≢ b'&') k (b'=' ∷ v) (All-map (λ c h. h.1) k hk) (omega arith, hv)

pieces_of_pair : (p : List ℕ × List ℕ) → Plain p → pieces (render_pair p) ≡ render_pair p ∷ []
unfolding render_pair
pieces_of_pair ([], v) h = pieces_free b'=' v (omega arith, h.1)
pieces_of_pair (x ∷ k, v) h = pieces_free x (k ++ (b'=' ∷ v)) (render_pair_free (x ∷ k, v) h)

-- The pieces of a rendered string are the rendered pairs.
pieces-render :
    (ps : List (List ℕ × List ℕ)) → All Plain ps → map key_value (pieces (render ps)) ≡ ps
unfolding render
pieces-render [] h = rw pieces-nil
pieces-render (p ∷ []) (hp, h) =
    rw (pieces_of_pair p hp) (ap (λ q. q ∷ []) (key_value-render_pair p hp))
pieces-render (p ∷ q ∷ ps) (hp, h) =
    rw (pieces-append (render_pair p) (render (q ∷ ps)) (render_pair_free p hp))
      (ap₂ ◌∷◌ (key_value-render_pair p hp) (pieces-render (q ∷ ps) h))

-- A query string rendered from pairs whose keys and values hold no separator is parsed into the
-- map of those pairs: under every key the value of the first pair that has it, and nothing under
-- a key that no pair has.
pub parse_query_string-render :
    (j : List ℕ) (ps : List (List ℕ × List ℕ))
    → All Plain ps
    → find j (parse_query_string (render ps)) ≡ find j ps
parse_query_string-render j ps h =
    find-parse_query_string j (render ps) ∙ ap (find j) (pieces-render ps h)
