-- ===== src/Net/Session.antt =====
-- networkinterface/ChannelCombine.h `reqrep` and `startIO`, and the coroutine of MessageRouter.cpp
-- `start` that sends: one channel with the coroutines that wait on it and the router's two queues.
-- A coroutine runs from one wait to the next in one step. The queues take any number of messages;
-- the source's hold ten, and whoever finds one full waits before it goes on.
pub mod Frames
pub mod Refine
pub mod Asks
pub mod Hears
pub mod Run
pub mod Live
pub mod Serve
pub mod Once
use sm.Base.{
  ℕ, zero, suc, ◌+◌, ◌-◌, ◌*◌, ◌/◌, ◌%◌, ◌^◌, ◌≤◌, ◌<◌, ◌≡◌, refl, sym, ap, ap₂, ◌∙◌, fun_ext, ◌≢◌,
  ◌↔◌, ◌⊎◌, inl, inr, Bool, true, false, not, ◌&&◌, ◌||◌, Option, none, some, List, [], ◌∷◌, ◌++◌,
  append-nil, append_assoc, map, arith, ltb, leb, ◌==◌, if◌then◌else◌, ltb→lt, lt→ltb, le→ltb,
  ==→eq, ==_refl, tests, Bool-cases, Option-cases, length, take, drop, length-append, take-append,
  drop-append, drop-append_cons, take-append_at, drop-append_at, take-append_drop, take_of_length,
  drop_of_length, length-drop, length-take, take-append_le, drop-append_le, All, Bytes, dec_lt,
  dec_le, ℕ_discrete,
}
use sm.Base.Map.{find, assign, erase, nat_eq}
use sm.Net.Dealer.{Handler}
use sm.Net.Platform.Manager.{PackUnpackManager}
use sm.Net.Router.{
  Signal, pending, fired, NMessage, Router, lookup, prepare_req_rep, finish_req_rep,
  prepare_app_rep, notify_recv_net_rep,
}
use sm.Net.Channel.{ChannelMode, new_req}
use sm.Net.Manager.{LocalNetManager, send_pack}
use sm.Net.Deal.{Round, continues, returns, undefined_behaviour, aborts, deal_round}
use sm.Conf.Routes.{RoutersTrans}

-- What does not change while a channel runs; `debug` tells whether assertions are compiled in.
pub record Setting : Type 0 where
  pub debug : Bool
  pub sock : ℕ
  pub mode : ChannelMode
  pub mainc : ℕ
  pub platforms : PackUnpackManager
  pub routers : RoutersTrans Handler

-- Where a coroutine of `reqrep` waits: on `_r1` or on `_r2`.
pub data Phase : Type 0 where
  awaits_sent : Phase
  awaits_rep : Phase

-- How `reqrep` ended: with a response, with a null pointer, or by the exception of a receiver that
-- has no sender.
pub data Ret : Type 0 where
  responded : List ℕ → Ret
  unsent : Ret
  threw : Ret

-- `_reqNo`; the coroutines of `reqrep` by their numbers, and what the last one of a number returned;
-- `_dataapp` and `_dataio`; the numbers that `startIO` answers, and its answers.
pub record Session : Type 0 where
  pub router : Router
  pub req_no : ℕ
  pub waiting : List (ℕ × Phase)
  pub done : List (ℕ × Ret)
  pub dataapp : List (ℕ × NMessage)
  pub dataio : List (ℕ × ℕ × NMessage)
  pub serving : List ℕ
  pub replies : List NMessage

-- A step that goes on, or what stops the program.
pub data Outcome : Type 0 where
  runs : Session → Outcome
  asserts : Outcome
  undefined : Outcome
  stops : Outcome

-- `reqrep` up to its first wait. The message is queued also where the number is taken.
unfoldable pub begin_req : Setting → List ℕ → Session → Outcome
begin_req c body s =
    let msgno = new_req c.mode s.req_no in
    let (valid, r) = prepare_req_rep c.sock msgno s.router in
    let queued = record s {
      router = r;
      req_no = msgno;
      dataapp = s.dataapp ++ ((c.sock, (msgno, body)) ∷ []);
    } in
    if valid
    then runs (record queued { waiting = assign msgno awaits_sent s.waiting })
    else (if c.debug then asserts else runs (record queued { done = assign msgno threw s.done }))

-- `assert(FinishReqRepRecver(...))` and the end of `reqrep`.
unfoldable pub finish : Setting → ℕ → Ret → Session → Session
finish c msgno ret s = record s {
  router = if c.debug then (finish_req_rep c.sock msgno s.router).1 else s.router;
  waiting = erase msgno s.waiting;
  done = assign msgno ret s.done;
}

-- A coroutine that waits on `_r1` goes on where the signal was sent.
unfoldable pub resume_sent : Setting → ℕ → Option (Signal Bool) → Session → Session
resume_sent c msgno (some (fired true)) s = record s { waiting = assign msgno awaits_rep s.waiting }
resume_sent c msgno (some (fired false)) s = finish c msgno unsent s
resume_sent c msgno (some pending) s = s
resume_sent c msgno none s = s

unfoldable pub resume_rep : Setting → ℕ → Option (Signal NMessage) → Session → Session
resume_rep c msgno (some (fired vv)) s = finish c msgno (responded vv.1) s
resume_rep c msgno (some pending) s = s
resume_rep c msgno none s = s

-- The rest of `reqrep`, from wait to wait.
unfoldable pub resume : Setting → ℕ → Session → Session
resume c msgno s = elim (find msgno s.waiting) [
  | none ↦ s
  | some awaits_sent ↦ resume_sent c msgno (lookup c.sock msgno s.router.send_complete) s
  | some awaits_rep ↦ resume_rep c msgno (lookup c.sock msgno s.router.net_rep) s
]

-- A round of the coroutine that sends what `_dataapp` holds.
unfoldable pub send_round : LocalNetManager → List (ℕ × NMessage) → Session → Session
send_round m [] s = s
send_round m ((sockno, msg) ∷ rest) s = record s {
  router = (send_pack m sockno msg s.router).1;
  dataapp = rest;
}

-- A message from the network: it is the response that somebody waits for, or a coroutine is started
-- that has it handled and waits for the response.
unfoldable pub receive : Setting → NMessage → Session → Outcome
receive c msg s =
    let (complete, r) = notify_recv_net_rep c.sock msg s.router in
    let (recv_app_rep, r') = prepare_app_rep c.sock msg.0 r in
    if complete
    then runs (record s { router = r })
    else (if recv_app_rep
        then runs (record s {
          router = r';
          dataio = s.dataio ++ ((c.sock, c.mainc, msg) ∷ []);
          serving = msg.0 ∷ s.serving;
        })
        else (if c.debug then asserts else undefined))

-- How the coroutine that handles what `_dataio` holds goes on.
unfoldable pub dealt : List (ℕ × ℕ × NMessage) → Round → Session → Outcome
dealt rest (continues r) s = runs (record s { router = r; dataio = rest })
dealt rest returns s = stops
dealt rest undefined_behaviour s = undefined
dealt rest aborts s = asserts

unfoldable pub deal : Setting → List (ℕ × ℕ × NMessage) → Session → Outcome
deal c [] s = runs s
deal c ((sock, mainc, msg) ∷ rest) s =
    dealt rest (deal_round c.debug c.platforms c.routers sock mainc msg s.router) s

-- Without one number of the coroutines that answer.
unfoldable pub without : ℕ → List ℕ → List ℕ
without msgno [] = []
without msgno (k ∷ ks) = let rest = without msgno ks in if k == msgno then rest else k ∷ rest

-- The end of a coroutine of `startIO`: the response is sent back under its number.
unfoldable pub reply : ℕ → Option (Signal NMessage) → Session → Session
reply msgno (some (fired rep)) s = record s {
  replies = s.replies ++ (rep ∷ []);
  serving = without msgno s.serving;
}
reply msgno (some pending) s = s
reply msgno none s = s

abbrev pub is_serving : ℕ → List ℕ → Bool
is_serving msgno [] = false
is_serving msgno (k ∷ ks) = if k == msgno then true else is_serving msgno ks

-- The steps of the coroutines, in whatever order they are run.
pub data Event : Type 0 where
  begins : List ℕ → Event
  resumes : ℕ → Event
  sends : LocalNetManager → Event
  receives : NMessage → Event
  deals : Event
  answers : ℕ → Event

unfoldable pub step : Setting → Event → Session → Outcome
step c (begins body) s = begin_req c body s
step c (resumes msgno) s = runs (resume c msgno s)
step c (sends m) s = runs (send_round m s.dataapp s)
step c (receives msg) s = receive c msg s
step c deals s = deal c s.dataio s
step c (answers msgno) s =
    if is_serving msgno s.serving
    then runs (reply msgno (lookup c.sock msgno s.router.app_rep) s)
    else runs s

abbrev pub and_then : Outcome → (Session → Outcome) → Outcome
and_then (runs s) f = f s
and_then asserts f = asserts
and_then undefined f = undefined
and_then stops f = stops

unfoldable pub run : Setting → List Event → Session → Outcome
run c [] s = runs s
run c (e ∷ es) s = and_then (step c e s) (run c es)
