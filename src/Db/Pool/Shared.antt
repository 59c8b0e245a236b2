-- ===== src/Db/Pool/Shared.antt =====
-- No connection is used by two at once.
use mathlib.Core.Path.{subst}
use sm.Base.{
  ℕ, zero, suc, ◌≡◌, inl, inr, Bool, true, false, Option, none, some, List, [], ◌∷◌, ◌++◌,
  append_assoc, Option-cases,
}
use mathlib.Core.List.{Perm, perm_middle}
use mathlib.Core.List.Perm
use sm.Db.Pool.{Queue, IsLawful, DbManager, add_new, get_conn, add_connect}

-- The numbers below one.
abbrev pub below : ℕ → List ℕ
below zero = []
below (suc n) = n ∷ below n

-- The connections that `DBInst` objects use; null is of no interest.
abbrev pub hold : Option ℕ → List ℕ → List ℕ
hold none held = held
hold (some c) held = c ∷ held

module _ (Q : Queue) where
  -- Objects are made and destroyed in any order.
  pub data Step : DbManager Q × List ℕ → DbManager Q × List ℕ → Type 0 where
    opens :
        (connects : Bool) (m : DbManager Q) (held : List ℕ)
        → Step (m, held) ((get_conn Q connects m).1, hold (get_conn Q connects m).0 held)
    closes :
        (m : DbManager Q) (c : ℕ) (held held' : List ℕ)
        → Step (m, held ++ (c ∷ held')) (add_connect Q (some c) m, held ++ held')

  pub data Steps : DbManager Q × List ℕ → DbManager Q × List ℕ → Type 0 where
    start : (s : DbManager Q × List ℕ) → Steps s s
    after : (s s' s'' : DbManager Q × List ℕ) → Steps s s' → Step s' s'' → Steps s s''

  module _ (lawful : IsLawful Q) where
    -- The connections that were made, each once, are those of the queue and those in use.
    abbrev pub Shared : DbManager Q × List ℕ → Type 0
    Shared (m, held) = Perm (lawful.items m.conns ++ held) (below m.made)

    added :
        (connects : Bool) (m : DbManager Q) (held : List ℕ)
        → Shared (m, held)
        → Shared ((add_new Q connects m).1, hold (add_new Q connects m).0 held)
    unfolding add_new
    added true m held p =
        Perm.trans (perm_middle {a = m.made} (lawful.items m.conns) held) (Perm.cons m.made p)
    added false m held p = p

    opened :
        (connects : Bool) (m : DbManager Q) (held : List ℕ)
        → Shared (m, held)
        → Shared ((get_conn Q connects m).1, hold (get_conn Q connects m).0 held)
    unfolding get_conn add_new
    opened connects m held p = elim (Option-cases (Q.try_dequeue m.conns)) [
      | inl e ↦ rw (e, get_conn) (added connects m held p)
      | inr ((c, rest), e) ↦
          rw (e, get_conn)
            (Perm.trans (perm_middle {a = c} (lawful.items rest) held) (
              Perm.trans
                (Perm.append_right held (Perm.symm (lawful.items-try_dequeue c m.conns rest e))) p))
    ]

    closed :
        (m : DbManager Q) (c : ℕ) (held held' : List ℕ)
        → Shared (m, held ++ (c ∷ held'))
        → Shared (add_connect Q (some c) m, held ++ held')
    unfolding add_connect
    closed m c held held' p =
        let q = lawful.items m.conns in
        Perm.trans (Perm.append_right (held ++ held') (lawful.items-enqueue c m.conns)) (
          Perm.trans
            (Perm.symm (
              subst (λ l. Perm l (c ∷ (q ++ (held ++ held')))) (append_assoc q held (c ∷ held'))
                (subst (λ l. Perm ((q ++ held) ++ (c ∷ held')) (c ∷ l)) (append_assoc q held held')
                  (perm_middle (q ++ held) held'))))
            p)

    along : (s s' : DbManager Q × List ℕ) → Steps s s' → Shared s → Shared s'
    along _ _ (start s) p = p
    along _ _ (after s s' s'' steps (opens connects m held)) p =
        opened connects m held (along s s' steps p)
    along _ _ (after s s' s'' steps (closes m c held held')) p =
        closed m c held held' (along s s' steps p)

    -- However objects that use a connection are made and destroyed, every connection that was made is
    -- either in the queue or used by one object, and by one only: the queue and those in use are, in
    -- some order, the connections that were made, each once. It starts with none; the queue gives and
    -- keeps what was put in.
    pub connections_shared :
        (m : DbManager Q) (s : DbManager Q × List ℕ)
        → m.made ≡ 0
        → lawful.items m.conns ≡ []
        → Steps (m, []) s
        → Shared s
    connections_shared m s e k steps = along (m, []) s steps (rw (e, k) (Perm.refl []))
