-- ===== src/Net/Session/Once.antt =====
-- A message number is answered once in the life of a channel.
use mathlib.Core.Path.{subst}
use sm.Base.{
  ℕ, ◌≡◌, ◌≢◌, refl, ap, ◌∙◌, inl, inr, Bool, true, false, Option, none, some, List, [], ◌∷◌,
  if◌then◌else◌, Option-cases,
}
use sm.Base.Map.{find, nat_eq}
use sm.Net.Session.Run.{session_of}
use sm.Net.Router.{
  NMessage, Router, Signal, pending, fired, has_signal, lookup, can_wait_app_rep, prepare_req_rep,
  prepare_app_rep, notify_recv_net_rep, notify_recv_app_rep, finish_req_rep,
}
use sm.Net.Router.Reach.{
  Step, prepares_req, prepares_app, notifies_sent, notifies_net, notifies_app, finishes, Steps,
  start, after, app_rep_kept,
}
use sm.Net.Router.Lookup.{same_refl, has_signal-place}
use sm.Net.Manager.{LocalNetManager, send_pack}
use sm.Net.Manager.Notice.{channel_of, send_pack-channel_of}
use sm.Net.Deal.{Round, continues, returns, undefined_behaviour, aborts, answer, deal_round}
use sm.Net.Deal.Ends.{round_ends}
use sm.Net.Channel.{new_req}
use sm.Net.Session.{
  Setting, awaits_sent, awaits_rep, Ret, responded, unsent, Session, Outcome, runs, asserts,
  undefined, stops, begin_req, finish, resume_sent, resume_rep, resume, send_round, receive, dealt,
  deal, reply, is_serving, Event, begins, resumes, sends, receives, deals, answers, step, run,
  and_then,
}
use sm.Net.Session.Asks.{Goes, Goes-if}
use sm.Net.Session.Serve.{receive_sorts, refused, taken}

taken_signal :
    (c : Setting) (n : ℕ) (body : List ℕ) (s : Session)
    → has_signal c.sock n (taken c (n, body) s).router.app_rep ≡ true
unfolding has_signal
taken_signal c n body s =
    has_signal-place c.sock n c.sock n pending s.router.app_rep ∙ rw (same_refl c.sock n) refl

refused_again :
    (c : Setting) (msg : NMessage) (s : Session)
    → has_signal c.sock msg.0 s.router.app_rep ≡ true
    → lookup c.sock msg.0 s.router.net_rep ≢ some pending
    → receive c msg s ≡ refused c
unfolding can_wait_app_rep
refused_again c msg s h none_waits =
    let (heard, new, old) = receive_sorts c msg s in
    elim (Option-cases (lookup c.sock msg.0 s.router.net_rep)) [
      | inl e ↦ new e ∙ rw h refl
      | inr (pending, e) ↦ absurd (none_waits e)
      | inr (fired before, e) ↦ old before e ∙ rw h refl
    ]

-- Every step of a session makes calls of the router, or none.
abbrev Calls : Session → Outcome → Type 0
Calls s = Goes (λ s'. Steps s.router s'.router)

single : (r r' : Router) → Step r r' → Steps r r'
single r r' t = after r r r' (start r) t

RoundSteps : Router → Round → Type 0
RoundSteps r (continues r') = Steps r r'
RoundSteps r returns = Unit
RoundSteps r undefined_behaviour = Unit
RoundSteps r aborts = Unit

answer_steps :
    (debug : Bool) (sock : ℕ) (msg : NMessage) (r : Router) → RoundSteps r (answer debug sock msg r)
unfolding answer RoundSteps
answer_steps false sock msg r = start r
answer_steps true sock msg r =
    told (notify_recv_app_rep sock msg r).0 (single r _ (notifies_app sock msg r))
  where
    told :
        (ok : Bool) {r' : Router} → Steps r r' → RoundSteps r (if ok then continues r' else aborts)
    told true s = s
    told false s = tt

send_steps :
    (m : LocalNetManager) (sock : ℕ) (msg : NMessage) (r : Router)
    → Steps r (send_pack m sock msg r).1
send_steps m sock msg r =
    rw (send_pack-channel_of m sock msg r) (elim (Option-cases (channel_of m sock)) [
      | inl h ↦ rw h (start r)
      | inr (channel, h) ↦ rw h (single r _ (notifies_sent sock msg.0 (channel msg) r))
    ])

module _ (c : Setting) where
  finish_steps : (n : ℕ) (ret : Ret) (s : Session) → Steps s.router (finish c n ret s).router
  unfolding finish
  finish_steps n ret s = freed c.debug
    where
      freed :
          (b : Bool) → Steps s.router (if b then (finish_req_rep c.sock n s.router).1 else s.router)
      freed true = single s.router _ (finishes c.sock n s.router)
      freed false = start s.router

  resume_sent_steps :
      (n : ℕ) (o : Option (Signal Bool)) (s : Session) → Steps s.router (resume_sent c n o s).router
  unfolding resume_sent
  resume_sent_steps n (some (fired true)) s = start s.router
  resume_sent_steps n (some (fired false)) s = finish_steps n unsent s
  resume_sent_steps n (some pending) s = start s.router
  resume_sent_steps n none s = start s.router

  resume_rep_steps :
      (n : ℕ) (o : Option (Signal NMessage)) (s : Session)
      → Steps s.router (resume_rep c n o s).router
  unfolding resume_rep
  resume_rep_steps n (some (fired vv)) s = finish_steps n (responded vv.1) s
  resume_rep_steps n (some pending) s = start s.router
  resume_rep_steps n none s = start s.router

  resume_steps : (n : ℕ) (s : Session) → Steps s.router (resume c n s).router
  unfolding resume
  resume_steps n s = elim (Option-cases (find n s.waiting)) [
    | inl w ↦ rw (w, resume) (start s.router)
    | inr (awaits_sent, w) ↦
        rw (w, resume) (resume_sent_steps n (lookup c.sock n s.router.send_complete) s)
    | inr (awaits_rep, w) ↦ rw (w, resume) (resume_rep_steps n (lookup c.sock n s.router.net_rep) s)
  ]

  send_round_steps :
      (m : LocalNetManager) (queue : List (ℕ × NMessage)) (s : Session)
      → Steps s.router (send_round m queue s).router
  unfolding send_round
  send_round_steps m [] s = start s.router
  send_round_steps m ((sockno, msg) ∷ rest) s = send_steps m sockno msg s.router

  dealt-Calls :
      (rest : List (ℕ × ℕ × NMessage)) (o : Round) (s : Session)
      → RoundSteps s.router o
      → Calls s (dealt rest o s)
  unfolding dealt RoundSteps
  dealt-Calls rest (continues r) s steps = steps
  dealt-Calls rest returns s steps = tt
  dealt-Calls rest undefined_behaviour s steps = tt
  dealt-Calls rest aborts s steps = tt

  deal-Calls : (queue : List (ℕ × ℕ × NMessage)) (s : Session) → Calls s (deal c queue s)
  unfolding deal RoundSteps
  deal-Calls [] s = start s.router
  deal-Calls ((sock, mainc, msg) ∷ rest) s =
      dealt-Calls rest (deal_round c.debug c.platforms c.routers sock mainc msg s.router) s (
        round_ends c.debug sock s.router (RoundSteps s.router) (tt, tt, tt) (start s.router)
          (λ m. answer_steps c.debug sock m s.router) c.platforms c.routers mainc msg)

  reply_steps :
      (n : ℕ) (o : Option (Signal NMessage)) (s : Session) → Steps s.router (reply n o s).router
  unfolding reply
  reply_steps n (some (fired rep)) s = start s.router
  reply_steps n (some pending) s = start s.router
  reply_steps n none s = start s.router

  pub step-Calls : (e : Event) (s : Session) → Calls s (step c e s)
  unfolding step begin_req receive
  step-Calls (begins body) s =
      let n = new_req c.mode s.req_no in
      let asked = single s.router _ (prepares_req c.sock n s.router) in
      Goes-if (prepare_req_rep c.sock n s.router).0 _ (runs _) _ asked
        (Goes-if c.debug _ asserts (runs _) tt asked)
  step-Calls (resumes k) s = resume_steps k s
  step-Calls (sends m) s = send_round_steps m s.dataapp s
  step-Calls (receives msg) s =
      let (ok, r) = notify_recv_net_rep c.sock msg s.router in
      let heard = single s.router r (notifies_net c.sock msg s.router) in
      Goes-if ok _ (runs _) _ heard (
        Goes-if (prepare_app_rep c.sock msg.0 r).0 _ (runs _) _
          (after s.router r _ heard (prepares_app c.sock msg.0 r))
          (Goes-if c.debug _ asserts undefined tt tt))
  step-Calls deals s = deal-Calls s.dataio s
  step-Calls (answers k) s =
      Goes-if (is_serving k s.serving) _ (runs _) (runs _)
        (reply_steps k (lookup c.sock k s.router.app_rep) s) (start s.router)

  -- A number for which the application's response was waited for stays so.
  first_kept :
      (n : ℕ) (es : List Event) (s s' : Session) (o : Outcome)
      → Calls s o
      → ((s1 : Session)
          → run c es s1 ≡ runs s'
          → has_signal c.sock n s1.router.app_rep ≡ true
          → has_signal c.sock n s'.router.app_rep ≡ true)
      → and_then o (run c es) ≡ runs s'
      → has_signal c.sock n s.router.app_rep ≡ true
      → has_signal c.sock n s'.router.app_rep ≡ true
  first_kept n es s s' (runs s1) calls rest e h =
      rest s1 e (app_rep_kept c.sock n s.router s1.router calls h)
  first_kept n es s s' asserts calls rest e h = absurd cc
  first_kept n es s s' undefined calls rest e h = absurd cc
  first_kept n es s s' stops calls rest e h = absurd cc

  run_keeps :
      (n : ℕ) (es : List Event) (s s' : Session)
      → run c es s ≡ runs s'
      → has_signal c.sock n s.router.app_rep ≡ true
      → has_signal c.sock n s'.router.app_rep ≡ true
  unfolding run
  run_keeps n [] s s' e h =
      subst (λ s1. has_signal c.sock n s1.router.app_rep ≡ true) (ap (session_of s) e) h
  run_keeps n (ev ∷ es) s s' e h =
      first_kept n es s s' (step c ev s) (step-Calls ev s) (λ s1. run_keeps n es s1 s') e h

-- Once a message was taken on to be answered, another one with its number that comes on the same
-- channel, however much later and whatever happened meanwhile, also that the first was answered,
-- fails an assertion, or uses a null pointer where there are no assertions; unless a signal for the
-- response to a request of the channel's with that number is prepared and not yet sent then.
pub served_once :
    (c : Setting) (n : ℕ) (body body' : List ℕ) (es : List Event) (s s' : Session)
    → run c es (taken c (n, body) s) ≡ runs s'
    → lookup c.sock n s'.router.net_rep ≢ some pending
    → receive c (n, body') s' ≡ refused c
served_once c n body body' es s s' e none_waits =
    refused_again c (n, body') s'
      (run_keeps c n es (taken c (n, body) s) s' e (taken_signal c n body s)) none_waits
