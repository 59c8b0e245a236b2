-- ===== src/Net/Local/Frames.antt =====
-- What the receivers of a local channel get.
use sm.Base.{
  ℕ, zero, suc, ◌≡◌, refl, sym, ap, ◌∙◌, inl, inr, Option, none, some, List, [], ◌∷◌, ◌++◌,
  append-nil, append_assoc, Bool-cases,
}
use sm.Files.Event.{Timer}
use sm.Net.Local.{
  LocalNetChannel, start_round, stop, is_idle, send_message, take_frame, recv_local, go_on, Event,
  starts, stops, sends, receives, resumes, times_out, local_step, local_run,
}

-- The texts among what was received.
abbrev pub texts : List (ℕ × Option (List ℕ)) → List (List ℕ)
texts [] = []
texts ((n, none) ∷ rs) = texts rs
texts ((n, some msg) ∷ rs) = msg ∷ texts rs

texts-append : (a b : List (ℕ × Option (List ℕ))) → texts (a ++ b) ≡ texts a ++ texts b
texts-append [] b = refl
texts-append ((n, none) ∷ a) b = texts-append a b
texts-append ((n, some msg) ∷ a) b = ap (λ ms. msg ∷ ms) (texts-append a b)

module _ (T : Timer) where
  abbrev pub sent_on : List (Event T) → List (List ℕ)
  sent_on [] = []
  sent_on (starts ∷ es) = sent_on es
  sent_on (stops ∷ es) = sent_on es
  sent_on (sends msg ∷ es) = msg ∷ sent_on es
  sent_on (receives n ∷ es) = sent_on es
  sent_on (resumes ∷ es) = sent_on es
  sent_on (times_out ∷ es) = sent_on es

  -- What was received of a channel, and what it holds behind it.
  abbrev pub carried : LocalNetChannel T → List (List ℕ)
  carried ch = texts ch.received ++ ch.recv_frames

  start_round-carried : (ch : LocalNetChannel T) → carried (start_round T ch) ≡ carried ch
  unfolding start_round
  start_round-carried ch = elim (Bool-cases ch.brun) [ inl h ↦ rw h refl | inr h ↦ rw h refl ]

  take_frame-carried :
      (n : ℕ) (frames : List (List ℕ)) (ch : LocalNetChannel T)
      → ch.recv_frames ≡ frames
      → carried (take_frame T n frames ch) ≡ carried ch
  unfolding take_frame
  take_frame-carried n [] ch h =
      rw (texts-append ch.received ((n, none) ∷ []))
        (ap (λ ms. ms ++ ch.recv_frames) (append-nil (texts ch.received)))
  take_frame-carried n (frame ∷ frames) ch h =
      ap (λ ms. ms ++ frames) (texts-append ch.received ((n, some frame) ∷ []))
      ∙ append_assoc (texts ch.received) (frame ∷ []) frames
      ∙ ap (λ ms. texts ch.received ++ ms) (sym h)

  send_message-carried :
      (msg : List ℕ) (ch : LocalNetChannel T)
      → carried (send_message T msg ch) ≡ carried ch ++ (msg ∷ [])
  unfolding send_message
  send_message-carried msg ch = elim (Bool-cases (is_idle T ch.recv_frames)) [
    | inl h ↦ rw h (sym (append_assoc (texts ch.received) ch.recv_frames (msg ∷ [])))
    | inr h ↦ rw h (sym (append_assoc (texts ch.received) ch.recv_frames (msg ∷ [])))
  ]

  recv_local-carried : (n : ℕ) (ch : LocalNetChannel T) → carried (recv_local T n ch) ≡ carried ch
  unfolding recv_local
  recv_local-carried n ch = elim (Bool-cases (is_idle T ch.recv_frames)) [
    | inl h ↦ rw h refl
    | inr h ↦ rw h (take_frame-carried n ch.recv_frames ch refl)
  ]

  go_on-carried :
      (ready : List ℕ) (ch : LocalNetChannel T) → carried (go_on T ready ch) ≡ carried ch
  unfolding go_on
  go_on-carried [] ch = refl
  go_on-carried (zero ∷ ready) ch = start_round-carried (record ch { ready = ready })
  go_on-carried (suc n ∷ ready) ch =
      take_frame-carried n ch.recv_frames (record ch { ready = ready }) refl

  sent_one :
      (e : Event T) (es : List (Event T)) (ch : LocalNetChannel T)
      → carried (local_step T e ch) ++ sent_on es ≡ carried ch ++ sent_on (e ∷ es)
  unfolding local_step stop
  sent_one starts es ch = ap (λ ms. ms ++ sent_on es) (start_round-carried ch)
  sent_one stops es ch = refl
  sent_one (sends msg) es ch =
      ap (λ ms. ms ++ sent_on es) (send_message-carried msg ch)
      ∙ append_assoc (carried ch) (msg ∷ []) (sent_on es)
  sent_one (receives n) es ch = ap (λ ms. ms ++ sent_on es) (recv_local-carried n ch)
  sent_one resumes es ch = ap (λ ms. ms ++ sent_on es) (go_on-carried ch.ready ch)
  sent_one times_out es ch = refl

  -- Whatever happens on a channel, in whatever order: the texts that its receivers got and, behind
  -- them, those that it still holds, are those that it had and those that were sent on it, in their
  -- order. None is lost, and none is given twice.
  pub local_run-sent :
      (es : List (Event T)) (ch : LocalNetChannel T)
      → carried (local_run T es ch) ≡ carried ch ++ sent_on es
  unfolding local_run
  local_run-sent [] ch = sym (append-nil (carried ch))
  local_run-sent (e ∷ es) ch = local_run-sent es (local_step T e ch) ∙ sent_one e es ch
