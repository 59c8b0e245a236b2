-- ===== src/Files/Event/Waits.antt =====
-- Who waits on an event, and who is woken.
use sm.Base.{
  ℕ, ◌≤◌, ◌≡◌, refl, sym, ap, ◌∙◌, List, [], ◌∷◌, ◌++◌, append-nil, append_assoc, arith, length,
  take, drop, take-append_drop, length-drop,
}
use sm.Files.Event.{
  Timer, IsLawful, TrigeType, time_out, cancelled, get_event_type, woken, CoEvent, async_time_wait,
  trigger_all, trigger, expired,
}

-- The calls of an event; `waits n` is a wait of the coroutine `n`.
pub data Use : Type 0 where
  waits : ℕ → Use
  triggers : Use
  triggers_all : Use
  expires : Use

abbrev pub begun : List Use → List ℕ
begun [] = []
begun (waits n ∷ us) = n ∷ begun us
begun (triggers ∷ us) = begun us
begun (triggers_all ∷ us) = begun us
begun (expires ∷ us) = begun us

abbrev pub numbers : List (ℕ × TrigeType) → List ℕ
numbers [] = []
numbers ((n, why) ∷ ws) = n ∷ numbers ws

pub numbers-woken : (why : TrigeType) (ns : List ℕ) → numbers (woken why ns) ≡ ns
numbers-woken why [] = refl
numbers-woken why (n ∷ ns) = ap (λ ms. n ∷ ms) (numbers-woken why ns)

numbers-append : (a b : List (ℕ × TrigeType)) → numbers (a ++ b) ≡ numbers a ++ numbers b
numbers-append [] b = refl
numbers-append ((n, why) ∷ a) b = ap (λ ms. n ∷ ms) (numbers-append a b)

module _ (T : Timer) where
  abbrev pub use_event : Use → CoEvent T → CoEvent T × List (ℕ × TrigeType)
  use_event (waits n) e = async_time_wait T n e
  use_event triggers e = trigger T e
  use_event triggers_all e = trigger_all T e
  use_event expires e = expired T e

  -- What a list of calls comes to, and whom they wake, in their order.
  unfoldable pub use_events : List Use → CoEvent T → CoEvent T × List (ℕ × TrigeType)
  use_events [] e = (e, [])
  use_events (u ∷ us) e =
      let (e', first) = use_event u e in let (e'', rest) = use_events us e' in (e'', first ++ rest)

  module _ (lawful : IsLawful T) where
    abbrev pub outstanding : CoEvent T → List ℕ
    outstanding e = lawful.waits e.timer

    pub async_time_wait_lem :
        (n : ℕ) (e : CoEvent T)
        → ((async_time_wait T n e).1 ≡ woken cancelled (outstanding e))
          × (outstanding (async_time_wait T n e).0 ≡ n ∷ [])
    unfolding async_time_wait get_event_type
    async_time_wait_lem n e =
        let (none_left, ended) = lawful.waits-expires_after e.milliseconds e.timer in
        (
          ap (woken cancelled) ended,
          lawful.waits-async_wait n (T.expires_after e.milliseconds e.timer).0
              ∙ ap (λ ns. ns ++ (n ∷ [])) none_left,
        )

    pub trigger_lem :
        (e : CoEvent T)
        → ((trigger T e).1 ≡ woken cancelled (take 1 (outstanding e)))
          × (outstanding (trigger T e).0 ≡ drop 1 (outstanding e))
    unfolding trigger get_event_type
    trigger_lem e =
        let (others, ended) = lawful.waits-cancel_one e.timer in
        (ap (woken cancelled) ended, others)

    trigger_all_lem :
        (e : CoEvent T)
        → ((trigger_all T e).1 ≡ woken cancelled (outstanding e))
          × (outstanding (trigger_all T e).0 ≡ [])
    unfolding trigger_all get_event_type
    trigger_all_lem e =
        let (none_left, ended) = lawful.waits-cancel e.timer in
        (ap (woken cancelled) ended, none_left)

    pub expired_lem :
        (e : CoEvent T)
        → ((expired T e).1 ≡ woken time_out (outstanding e)) × (outstanding (expired T e).0 ≡ [])
    unfolding expired get_event_type
    expired_lem e =
        let (none_left, ended) = lawful.waits-expire e.timer in
        (ap (woken time_out) ended, none_left)

    -- A call wakes those that waited, from the first on, and at most one waits behind it.
    use_lem :
        (u : Use) (us : List Use) (e : CoEvent T)
        → length (outstanding e) ≤ 1
        → (length (outstanding (use_event u e).0) ≤ 1)
          × (outstanding e ++ begun (u ∷ us)
              ≡ numbers (use_event u e).1 ++ (outstanding (use_event u e).0 ++ begun us))
    use_lem (waits n) us e h =
        let (w, o) = async_time_wait_lem n e in
        rw (w, o, numbers-woken cancelled (outstanding e)) (omega arith, refl)
    use_lem triggers us e h =
        let (w, o) = trigger_lem e in
        rw (w, o, numbers-woken cancelled (take 1 (outstanding e)))
          (
            rw (length-drop 1 (outstanding e)) (omega arith),
            rw
                (
                  sym (append_assoc (take 1 (outstanding e)) (drop 1 (outstanding e)) (begun us)),
                  take-append_drop 1 (outstanding e),
                )
                refl,
          )
    use_lem triggers_all us e h =
        let (w, o) = trigger_all_lem e in
        rw (w, o, numbers-woken cancelled (outstanding e)) (omega arith, refl)
    use_lem expires us e h =
        let (w, o) = expired_lem e in
        rw (w, o, numbers-woken time_out (outstanding e)) (omega arith, refl)

    events_from :
        (us : List Use) (e : CoEvent T)
        → length (outstanding e) ≤ 1
        → (length (outstanding (use_events us e).0) ≤ 1)
          × (outstanding e ++ begun us
              ≡ numbers (use_events us e).1 ++ outstanding (use_events us e).0)
    unfolding use_events
    events_from [] e h = (h, append-nil (outstanding e))
    events_from (u ∷ us) e h =
        let (few, order) = use_lem u us e h in
        let (few', order') = events_from us (use_event u e).0 few in
        (
          few',
          order
              ∙ (ap (λ ns. numbers (use_event u e).1 ++ ns) order'
                  ∙ rw (numbers-append (use_event u e).1 (use_events us (use_event u e).0).1) (
                      sym (
                        append_assoc (numbers (use_event u e).1)
                          (numbers (use_events us (use_event u e).0).1)
                          (outstanding (use_events us (use_event u e).0).0)))),
        )

    -- Whatever is called on a new event, in whatever order: the coroutines that were woken and, behind
    -- them, the one that waits, if any, are those that began to wait, each once and in that order.
    -- No more than one waits at a time, since who begins to wait wakes whoever waits.
    pub event_wakes_in_order :
        (us : List Use) (e : CoEvent T)
        → outstanding e ≡ []
        → let (e', awake) = use_events us e in
          (length (outstanding e') ≤ 1) × (begun us ≡ numbers awake ++ outstanding e')
    event_wakes_in_order us e h =
        let (few, order) = events_from us e (rw h (omega arith)) in
        (few, ap (λ ns. ns ++ begun us) (sym h) ∙ order)
