-- ===== src/Net/Local/Started.antt =====
-- `recvPack` of a local channel whose coroutine of `start` runs.
use mathlib.Core.Path.{subst}
use sm.Base.{
  ℕ, suc, ◌≡◌, refl, sym, ap, ap₂, ◌∙◌, true, false, Option, none, some, List, [], ◌∷◌, ◌++◌, drop,
}
use sm.Files.Event.{Timer, IsLawful, cancelled, async_time_wait}
use sm.Files.Event.Waits.{numbers, numbers-woken, outstanding, async_time_wait_lem}
use sm.Net.Local.{
  LocalNetChannel, wake, start_round, is_idle, take_frame, recv_local, go_on, receives, resumes,
  local_step, local_run,
}

module _ (T : Timer) (lawful : IsLawful T) where
  -- What a running channel holds: who was woken, who waits, the texts, and what was received.
  abbrev pub Stands :
      LocalNetChannel T → List ℕ → List ℕ → List (List ℕ) → List (ℕ × Option (List ℕ)) → Type 0
  Stands ch ready waiting frames received =
      (ch.ready ≡ ready)
      × (outstanding T lawful ch.notify_recv ≡ waiting)
      × (ch.recv_frames ≡ frames)
      × (ch.received ≡ received)
      × (ch.brun ≡ true)

  waits-Stands :
      (n : ℕ) (ch : LocalNetChannel T) (ready ws : List ℕ) (fs : List (List ℕ))
      (rs : List (ℕ × Option (List ℕ)))
      → Stands ch ready ws fs rs
      → Stands (wake T (async_time_wait T n ch.notify_recv) ch) (ready ++ ws) (n ∷ []) fs rs
  waits-Stands n ch ready ws fs rs (h, w, f, r, b) =
      let (awake, now) = async_time_wait_lem T lawful n ch.notify_recv in
      (
        ap₂ (λ a c. a ++ c) h
            (ap numbers awake ∙ numbers-woken cancelled (outstanding T lawful ch.notify_recv) ∙ w),
        now,
        f,
        r,
        b,
      )

  round-Stands :
      (ch : LocalNetChannel T) (ready ws : List ℕ) (fs : List (List ℕ))
      (rs : List (ℕ × Option (List ℕ)))
      → Stands ch ready ws fs rs
      → Stands (start_round T ch) (ready ++ ws) (0 ∷ []) fs rs
  unfolding start_round
  round-Stands ch ready ws fs rs (h, w, f, r, b) =
      let runs : start_round T ch ≡ wake T (async_time_wait T 0 ch.notify_recv) ch = rw b refl in
      subst (λ c. Stands c (ready ++ ws) (0 ∷ []) fs rs) (sym runs)
        (waits-Stands 0 ch ready ws fs rs (h, w, f, r, b))

  recv_idle-Stands :
      (n : ℕ) (ch : LocalNetChannel T) (ready ws : List ℕ) (rs : List (ℕ × Option (List ℕ)))
      → Stands ch ready ws [] rs
      → Stands (recv_local T n ch) (ready ++ ws) (suc n ∷ []) [] rs
  unfolding recv_local
  recv_idle-Stands n ch ready ws rs (h, w, f, r, b) =
      let idles : is_idle T ch.recv_frames ≡ true = ap (is_idle T) f in
      let runs : recv_local T n ch ≡ wake T (async_time_wait T (suc n) ch.notify_recv) ch =
        rw idles refl in
      subst (λ c. Stands c (ready ++ ws) (suc n ∷ []) [] rs) (sym runs)
        (waits-Stands (suc n) ch ready ws [] rs (h, w, f, r, b))

  -- Whether there is a text or none, the first is received.
  abbrev pub head_of : List (List ℕ) → Option (List ℕ)
  head_of [] = none
  head_of (frame ∷ frames) = some frame

  take-Stands :
      (n : ℕ) (ch : LocalNetChannel T) (ready ws : List ℕ) (fs : List (List ℕ))
      (rs : List (ℕ × Option (List ℕ)))
      → Stands ch ready ws fs rs
      → Stands (take_frame T n fs ch) ready ws (drop 1 fs) (rs ++ ((n, head_of fs) ∷ []))
  unfolding take_frame
  take-Stands n ch ready ws [] rs (h, w, f, r, b) =
      (h, w, f, ap (λ xs. xs ++ ((n, none) ∷ [])) r, b)
  take-Stands n ch ready ws (frame ∷ fs) rs (h, w, f, r, b) =
      (h, w, refl, ap (λ xs. xs ++ ((n, some frame) ∷ [])) r, b)

  recv_frame-Stands :
      (n : ℕ) (frame : List ℕ) (ch : LocalNetChannel T) (ready ws : List ℕ) (fs : List (List ℕ))
      (rs : List (ℕ × Option (List ℕ)))
      → Stands ch ready ws (frame ∷ fs) rs
      → Stands (recv_local T n ch) ready ws fs (rs ++ ((n, some frame) ∷ []))
  unfolding recv_local
  recv_frame-Stands n frame ch ready ws fs rs (h, w, f, r, b) =
      let busy : is_idle T ch.recv_frames ≡ false = ap (is_idle T) f in
      let runs : recv_local T n ch ≡ take_frame T n (frame ∷ fs) ch =
        rw busy (ap (λ xs. take_frame T n xs ch) f) in
      subst (λ c. Stands c ready ws fs (rs ++ ((n, some frame) ∷ []))) (sym runs)
        (take-Stands n ch ready ws (frame ∷ fs) rs (h, w, f, r, b))

  resumed-Stands :
      (ch : LocalNetChannel T) (ready ws : List ℕ) (fs : List (List ℕ))
      (rs : List (ℕ × Option (List ℕ)))
      → Stands ch (0 ∷ ready) ws fs rs
      → Stands (local_step T resumes ch) (ready ++ ws) (0 ∷ []) fs rs
  unfolding local_step go_on
  resumed-Stands ch ready ws fs rs (h, w, f, r, b) =
      subst (λ xs. Stands (go_on T xs ch) (ready ++ ws) (0 ∷ []) fs rs) (sym h)
        (round-Stands (record ch { ready = ready }) ready ws fs rs (refl, w, f, r, b))

  answered-Stands :
      (n : ℕ) (ch : LocalNetChannel T) (ready ws : List ℕ) (fs : List (List ℕ))
      (rs : List (ℕ × Option (List ℕ)))
      → Stands ch (suc n ∷ ready) ws fs rs
      → Stands (local_step T resumes ch) ready ws (drop 1 fs) (rs ++ ((n, head_of fs) ∷ []))
  unfolding local_step go_on
  answered-Stands n ch ready ws fs rs (h, w, f, r, b) =
      subst (λ xs. Stands (go_on T xs ch) ready ws (drop 1 fs) (rs ++ ((n, head_of fs) ∷ [])))
        (sym h)
        (subst
          (λ xs.
            Stands (take_frame T n xs (record ch { ready = ready })) ready ws (drop 1 fs)
              (rs ++ ((n, head_of fs) ∷ [])))
          (sym f) (take-Stands n (record ch { ready = ready }) ready ws fs rs (refl, w, f, r, b)))

  idle-Stands :
      (ch : LocalNetChannel T) (ws : List ℕ) (fs : List (List ℕ)) (rs : List (ℕ × Option (List ℕ)))
      → Stands ch [] ws fs rs
      → Stands (local_step T resumes ch) [] ws fs rs
  unfolding local_step go_on
  idle-Stands ch ws fs rs (h, w, f, r, b) =
      subst (λ xs. Stands (go_on T xs ch) [] ws fs rs) (sym h) (h, w, f, r, b)

  -- On a channel whose coroutine of `start` waits and nobody else, `recvPack` never waits for a
  -- text: when the coroutines that it wakes have gone on, two at most, it has returned, with the first
  -- text that was there at its start, or with a null pointer where there was none; and the channel
  -- stands as before.
  pub recv_never_waits :
      (n : ℕ) (ch : LocalNetChannel T) (fs : List (List ℕ)) (rs : List (ℕ × Option (List ℕ)))
      → Stands ch [] (0 ∷ []) fs rs
      → Stands
          (local_run T (receives n ∷ resumes ∷ resumes ∷ []) ch)
          []
          (0 ∷ [])
          (drop 1 fs)
          (rs ++ ((n, head_of fs) ∷ []))
  unfolding local_run local_step
  recv_never_waits n ch [] rs h =
      answered-Stands n (local_step T resumes (recv_local T n ch)) [] (0 ∷ []) [] rs (
        resumed-Stands (recv_local T n ch) [] (suc n ∷ []) [] rs
          (recv_idle-Stands n ch [] (0 ∷ []) rs h))
  recv_never_waits n ch (frame ∷ fs) rs h =
      let rs' = rs ++ ((n, some frame) ∷ []) in
      idle-Stands (local_step T resumes (recv_local T n ch)) (0 ∷ []) fs rs' (
        idle-Stands (recv_local T n ch) (0 ∷ []) fs rs'
          (recv_frame-Stands n frame ch [] (0 ∷ []) fs rs h))
