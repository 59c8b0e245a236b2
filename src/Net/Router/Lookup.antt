-- ===== src/Net/Router/Lookup.antt =====
-- A look-up of a signal after each change of a map of signals.
use sm.Base.{
  ℕ, ◌≡◌, refl, ap, ◌∙◌, inl, inr, Bool, true, false, not, ◌&&◌, ◌||◌, Option, none, some, List, [],
  arith, ◌==◌, if◌then◌else◌, ==→eq, Bool-cases, Option-cases,
}
use sm.Base.Map.{find, assign, erase, nat_eq, find-assign, find-erase, contains}
use sm.Net.Router.{
  Signal, pending, fired, Signals, at_sock, lookup, place, remove, send_signal, has_signal,
}

abbrev pub same : ℕ → ℕ → ℕ → ℕ → Bool
same sock msgno sock' msgno' = (sock == sock') && (msgno == msgno')

pub same→eq : (s n s' n' : ℕ) → same s n s' n' ≡ true → (s ≡ s') × (n ≡ n')
same→eq s n s' n' h = ground arith

pub same_refl : (s n : ℕ) → same s n s n ≡ true
same_refl s n = ground arith

module _ {V : Type 0} where
  signals_of : Option (List (ℕ × Signal V)) → List (ℕ × Signal V)
  signals_of o = elim o [ none ↦ [] | some signals ↦ signals ]

  at_sock-assign :
      (s s' : ℕ) (x : List (ℕ × Signal V)) (m : Signals V)
      → at_sock s' (assign s x m) ≡ (if s == s' then x else at_sock s' m)
  unfolding signals_of
  at_sock-assign s s' x m = ap signals_of (find-assign s s' x m) ∙ pick (s == s')
    where
      pick :
          (b : Bool)
          → signals_of (if b then some x else find s' m) ≡ (if b then x else at_sock s' m)
      pick true = refl
      pick false = refl

  pub lookup-place :
      (s n s' n' : ℕ) (v : Signal V) (m : Signals V)
      → lookup s' n' (place s n v m) ≡ (if same s n s' n' then some v else lookup s' n' m)
  unfolding lookup place
  lookup-place s n s' n' v m =
      ap (find n') (at_sock-assign s s' (assign n v (at_sock s m)) m)
      ∙ (elim (Bool-cases (s == s')) [
        | inl h ↦ rw (h, ==→eq s s' h) (find-assign n n' v (at_sock s' m))
        | inr h ↦ rw h
      ])

  pub lookup-remove :
      (s n s' n' : ℕ) (m : Signals V)
      → lookup s' n' (remove s n m) ≡ (if same s n s' n' then none else lookup s' n' m)
  unfolding lookup remove
  lookup-remove s n s' n' m =
      ap (find n') (at_sock-assign s s' (erase n (at_sock s m)) m) ∙ (elim (Bool-cases (s == s')) [
        | inl h ↦ rw (h, ==→eq s s' h) (find-erase n n' (at_sock s' m))
        | inr h ↦ rw h
      ])

  -- Sending succeeds for a signal that waits, once, and changes no other.
  pub lookup-send_signal :
      (s n s' n' : ℕ) (value : V) (m : Signals V)
      → lookup s' n' (send_signal s n value m).1 ≡ (
          if (send_signal s n value m).0 && same s n s' n'
          then some (fired value)
          else lookup s' n' m)
  unfolding send_signal
  lookup-send_signal s n s' n' value m = elim (Option-cases (lookup s n m)) [
    | inl h ↦ rw (h, send_signal)
    | inr (pending, h) ↦ rw (h, send_signal) (lookup-place s n s' n' (fired value) m)
    | inr (fired old, h) ↦ rw (h, send_signal)
  ]

  pub has_signal_view :
      (s n : ℕ) (m : Signals V)
      → has_signal s n m ≡ elim (lookup s n m) [ none ↦ false | some v ↦ true ]
  unfolding has_signal lookup contains
  has_signal_view s n m = refl

  -- Which numbers have a signal after each change: sending changes none.
  pub has_signal-place :
      (s n s' n' : ℕ) (v : Signal V) (m : Signals V)
      → has_signal s' n' (place s n v m) ≡ (same s n s' n' || has_signal s' n' m)
  has_signal-place s n s' n' v m =
      rw
        (has_signal_view s' n' (place s n v m), has_signal_view s' n' m, lookup-place s n s' n' v m)
        (elim (Bool-cases (same s n s' n')) [ inl h ↦ rw h | inr h ↦ rw h ])

  pub has_signal-remove :
      (s n s' n' : ℕ) (m : Signals V)
      → has_signal s' n' (remove s n m) ≡ (not (same s n s' n') && has_signal s' n' m)
  has_signal-remove s n s' n' m =
      rw (has_signal_view s' n' (remove s n m), has_signal_view s' n' m, lookup-remove s n s' n' m)
        (elim (Bool-cases (same s n s' n')) [ inl h ↦ rw h | inr h ↦ rw h ])

  pub has_signal-send_signal :
      (s n s' n' : ℕ) (value : V) (m : Signals V)
      → has_signal s' n' (send_signal s n value m).1 ≡ has_signal s' n' m
  unfolding send_signal
  has_signal-send_signal s n s' n' value m = elim (Option-cases (lookup s n m)) [
    | inl h ↦ rw (h, send_signal)
    | inr (pending, h) ↦
        rw (h, send_signal) (has_signal-place s n s' n' (fired value) m ∙ waiting h)
    | inr (fired old, h) ↦ rw (h, send_signal)
  ]
    where
      waiting :
          lookup s n m ≡ some pending → (same s n s' n' || has_signal s' n' m) ≡ has_signal s' n' m
      waiting h = elim (Bool-cases (same s n s' n')) [
        | inl e ↦ let (es, en) = same→eq s n s' n' e in rw (e, ← es, ← en, has_signal_view s n m, h)
        | inr e ↦ rw e
      ]
