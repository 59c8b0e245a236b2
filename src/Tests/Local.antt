-- ===== src/Tests/Local.antt =====
-- A timer as the list of its waits, and coroutines that wait on an event and on a local channel.
use sm.Base.{ℕ, ◌≤◌, ◌≡◌, refl, true, none, List, [], ◌∷◌, ◌++◌, length, take, drop}
use sm.Files.Event.{Timer, IsLawful, CoEvent}
use sm.Files.Event.Waits.{
  Use, waits, triggers, expires, begun, numbers, use_events, outstanding, event_wakes_in_order,
}
use sm.Net.Local.{LocalNetChannel, sends, receives, resumes, local_run}
use sm.Net.Local.Frames.{carried, local_run-sent}
use sm.Net.Local.Started.{Stands, recv_never_waits}

abbrev list_timer : Timer
list_timer = record {
  State = List ℕ;
  async_wait = λ n t. t ++ (n ∷ []);
  expires_after = λ ms t. ([], t);
  cancel = λ t. ([], t);
  cancel_one = λ t. (drop 1 t, take 1 t);
  expire = λ t. ([], t);
}

abbrev list_timer-IsLawful : IsLawful list_timer
list_timer-IsLawful = record {
  waits = λ t. t;
  waits-async_wait = λ n t. refl;
  waits-expires_after = λ ms t. (refl, refl);
  waits-cancel = λ t. (refl, refl);
  waits-cancel_one = λ t. (refl, refl);
  waits-expire = λ t. (refl, refl);
}

abbrev quiet : CoEvent list_timer
quiet = record { timer = []; milliseconds = 3600000 }

-- Three coroutines wait, and one trigger comes between.
abbrev three_waits : List Use
three_waits = waits 4 ∷ waits 5 ∷ triggers ∷ waits 6 ∷ expires ∷ waits 7 ∷ []

event_wakes_in_order_example :
    let (e', awake) = use_events list_timer three_waits quiet in
    (length (outstanding list_timer list_timer-IsLawful e') ≤ 1)
    × (begun three_waits ≡ numbers awake ++ outstanding list_timer list_timer-IsLawful e')
event_wakes_in_order_example =
    event_wakes_in_order list_timer list_timer-IsLawful three_waits quiet refl

abbrev new_channel : LocalNetChannel list_timer
new_channel = record {
  notify_recv = quiet;
  recv_frames = [];
  brun = true;
  ready = [];
  received = [];
}

local_run-sent_example :
    carried list_timer (
      local_run list_timer
        (receives 1 ∷ sends (7 ∷ []) ∷ sends (8 ∷ []) ∷ resumes ∷ receives 2 ∷ [])
        new_channel)
    ≡ (7 ∷ []) ∷ (8 ∷ []) ∷ []
local_run-sent_example =
    local_run-sent list_timer
      (receives 1 ∷ sends (7 ∷ []) ∷ sends (8 ∷ []) ∷ resumes ∷ receives 2 ∷ []) new_channel

-- A channel whose coroutine waits, and that has no texts.
abbrev started : LocalNetChannel list_timer
started = record new_channel { notify_recv = record quiet { timer = 0 ∷ [] } }

recv_never_waits_example :
    Stands list_timer list_timer-IsLawful
      (local_run list_timer (receives 3 ∷ resumes ∷ resumes ∷ []) started)
      []
      (0 ∷ [])
      []
      ((3, none) ∷ [])
recv_never_waits_example =
    recv_never_waits list_timer list_timer-IsLawful 3 started [] [] (refl, refl, refl, refl, refl)
