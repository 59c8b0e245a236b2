-- ===== src/Files/Event.antt =====
-- hotupdate/CoEvent.cpp: an event on which coroutines wait, over a timer of asio that never fires
-- before its time. A coroutine that waits is a number.
pub mod Waits
use sm.Base.{
  ℕ, zero, suc, ◌+◌, ◌-◌, ◌*◌, ◌/◌, ◌%◌, ◌^◌, ◌≤◌, ◌<◌, ◌≡◌, refl, sym, ap, ap₂, ◌∙◌, fun_ext, ◌≢◌,
  ◌↔◌, ◌⊎◌, inl, inr, Bool, true, false, not, ◌&&◌, ◌||◌, Option, none, some, List, [], ◌∷◌, ◌++◌,
  append-nil, append_assoc, map, arith, ltb, leb, ◌==◌, if◌then◌else◌, ltb→lt, lt→ltb, le→ltb,
  ==→eq, ==_refl, tests, Bool-cases, Option-cases, length, take, drop, length-append, take-append,
  drop-append, drop-append_cons, take-append_at, drop-append_at, take-append_drop, take_of_length,
  drop_of_length, length-drop, length-take, take-append_le, drop-append_le, All, Bytes, dec_lt,
  dec_le, ℕ_discrete,
}

-- The timer: each call but `async_wait` gives, in their order, the waits that it ends.
pub record Timer : Type 1 where
  pub State : Type 0
  pub async_wait : ℕ → State → State
  pub expires_after : ℕ → State → State × List ℕ
  pub cancel : State → State × List ℕ
  pub cancel_one : State → State × List ℕ
  pub expire : State → State × List ℕ

-- What asio promises: a new time of expiry ends every wait, as `cancel` does; `cancel_one` ends the
-- oldest.
pub record IsLawful (T : Timer) : Type 0 where
  pub waits : T.State → List ℕ
  pub waits-async_wait : (n : ℕ) (t : T.State) → waits (T.async_wait n t) ≡ waits t ++ (n ∷ [])
  pub waits-expires_after :
      (ms : ℕ) (t : T.State)
      → (waits (T.expires_after ms t).0 ≡ []) × ((T.expires_after ms t).1 ≡ waits t)
  pub waits-cancel : (t : T.State) → (waits (T.cancel t).0 ≡ []) × ((T.cancel t).1 ≡ waits t)
  pub waits-cancel_one :
      (t : T.State)
      → (waits (T.cancel_one t).0 ≡ drop 1 (waits t)) × ((T.cancel_one t).1 ≡ take 1 (waits t))
  pub waits-expire : (t : T.State) → (waits (T.expire t).0 ≡ []) × ((T.expire t).1 ≡ waits t)

-- `ETrigeType`
pub data TrigeType : Type 0 where
  time_out : TrigeType
  cancelled : TrigeType

-- `getEventType`: whether the wait was aborted.
unfoldable pub get_event_type : Bool → TrigeType
get_event_type aborted = if aborted then cancelled else time_out

-- The coroutines that a call wakes, with what `async_time_wait` returns to each.
abbrev pub woken : TrigeType → List ℕ → List (ℕ × TrigeType)
woken why [] = []
woken why (n ∷ ns) = (n, why) ∷ woken why ns

pub record CoEvent (T : Timer) : Type 0 where
  pub timer : T.State
  pub milliseconds : ℕ

module _ (T : Timer) where
  -- `async_wait` and `async_time_wait` of a coroutine, up to their wait.
  unfoldable pub async_time_wait : ℕ → CoEvent T → CoEvent T × List (ℕ × TrigeType)
  async_time_wait n e =
      let (t, ended) = T.expires_after e.milliseconds e.timer in
      (record e { timer = T.async_wait n t }, woken (get_event_type true) ended)

  -- `reset` and `trigger_all`
  unfoldable pub trigger_all : CoEvent T → CoEvent T × List (ℕ × TrigeType)
  trigger_all e =
      let (t, ended) = T.cancel e.timer in
      (record e { timer = t }, woken (get_event_type true) ended)

  unfoldable pub trigger : CoEvent T → CoEvent T × List (ℕ × TrigeType)
  trigger e =
      let (t, ended) = T.cancel_one e.timer in
      (record e { timer = t }, woken (get_event_type true) ended)

  -- The time of the timer comes.
  unfoldable pub expired : CoEvent T → CoEvent T × List (ℕ × TrigeType)
  expired e =
      let (t, ended) = T.expire e.timer in
      (record e { timer = t }, woken (get_event_type false) ended)
