-- ===== src/Net/Local.antt =====
-- networkinterface/LocalNetChannel.cpp: a channel within the process, whose receivers wait on an
-- event. The coroutine of `start` is number 0, the receiver `n` is number `suc n`. Coroutines that
-- are woken go on in the order in which they were woken.
pub mod Frames
pub mod Started
use sm.Base.{
  ℕ, zero, suc, ◌+◌, ◌-◌, ◌*◌, ◌/◌, ◌%◌, ◌^◌, ◌≤◌, ◌<◌, ◌≡◌, refl, sym, ap, ap₂, ◌∙◌, fun_ext, ◌≢◌,
  ◌↔◌, ◌⊎◌, inl, inr, Bool, true, false, not, ◌&&◌, ◌||◌, Option, none, some, List, [], ◌∷◌, ◌++◌,
  append-nil, append_assoc, map, arith, ltb, leb, ◌==◌, if◌then◌else◌, ltb→lt, lt→ltb, le→ltb,
  ==→eq, ==_refl, tests, Bool-cases, Option-cases, length, take, drop, length-append, take-append,
  drop-append, drop-append_cons, take-append_at, drop-append_at, take-append_drop, take_of_length,
  drop_of_length, length-drop, length-take, take-append_le, drop-append_le, All, Bytes, dec_lt,
  dec_le, ℕ_discrete,
}
use sm.Files.Event.{Timer, TrigeType, CoEvent, async_time_wait, trigger, expired}
use sm.Files.Event.Waits.{numbers}

-- `_notifyRecv`, `_recvFrames` and `_brun`; the coroutines that were woken, and what `recvPack`
-- returned to which receiver.
pub record LocalNetChannel (T : Timer) : Type 0 where
  pub notify_recv : CoEvent T
  pub recv_frames : List (List ℕ)
  pub brun : Bool
  pub ready : List ℕ
  pub received : List (ℕ × Option (List ℕ))

module _ (T : Timer) where
  -- The event after a call, and whom it woke.
  abbrev pub wake : CoEvent T × List (ℕ × TrigeType) → LocalNetChannel T → LocalNetChannel T
  wake (e, awake) ch = record ch { notify_recv = e; ready = ch.ready ++ numbers awake }

  -- A round of the coroutine of `start`.
  unfoldable pub start_round : LocalNetChannel T → LocalNetChannel T
  start_round ch = if ch.brun then wake (async_time_wait T 0 ch.notify_recv) ch else ch

  unfoldable pub stop : LocalNetChannel T → LocalNetChannel T
  stop ch = wake (trigger T ch.notify_recv) (record ch { brun = false })

  abbrev pub is_idle : List (List ℕ) → Bool
  is_idle [] = true
  is_idle (frame ∷ frames) = false

  unfoldable pub send_message : List ℕ → LocalNetChannel T → LocalNetChannel T
  send_message msg ch =
      let neednotify = is_idle ch.recv_frames in
      let pushed = record ch { recv_frames = ch.recv_frames ++ (msg ∷ []) } in
      if neednotify then wake (trigger T ch.notify_recv) pushed else pushed

  -- The end of `recvPack`: the first text, or a null pointer where there is none.
  unfoldable pub take_frame : ℕ → List (List ℕ) → LocalNetChannel T → LocalNetChannel T
  take_frame n [] ch = record ch { received = ch.received ++ ((n, none) ∷ []) }
  take_frame n (frame ∷ frames) ch = record ch {
    recv_frames = frames;
    received = ch.received ++ ((n, some frame) ∷ []);
  }

  -- `recvPack` up to its wait, if it waits.
  unfoldable pub recv_local : ℕ → LocalNetChannel T → LocalNetChannel T
  recv_local n ch =
      if is_idle ch.recv_frames
      then wake (async_time_wait T (suc n) ch.notify_recv) ch
      else take_frame n ch.recv_frames ch

  -- The coroutine that was woken first goes on.
  unfoldable pub go_on : List ℕ → LocalNetChannel T → LocalNetChannel T
  go_on [] ch = ch
  go_on (zero ∷ ready) ch = start_round (record ch { ready = ready })
  go_on (suc n ∷ ready) ch = take_frame n ch.recv_frames (record ch { ready = ready })

  pub data Event : Type 0 where
    starts : Event
    stops : Event
    sends : List ℕ → Event
    receives : ℕ → Event
    resumes : Event
    times_out : Event

  unfoldable pub local_step : Event → LocalNetChannel T → LocalNetChannel T
  local_step starts ch = start_round ch
  local_step stops ch = stop ch
  local_step (sends msg) ch = send_message msg ch
  local_step (receives n) ch = recv_local n ch
  local_step resumes ch = go_on ch.ready ch
  local_step times_out ch = wake (expired T ch.notify_recv) ch

  unfoldable pub local_run : List Event → LocalNetChannel T → LocalNetChannel T
  local_run [] ch = ch
  local_run (e ∷ es) ch = local_run es (local_step e ch)
