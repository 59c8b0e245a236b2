-- ===== src/Net/Session/Serve.antt =====
-- A peer's request, from the network to its response.
use sm.Base.{
  ℕ, ◌^◌, ◌<◌, ◌≡◌, refl, ◌∙◌, inl, inr, true, false, none, some, List, [], ◌∷◌, ◌++◌,
  if◌then◌else◌, ==_refl, Bool-cases,
}
use sm.Base.Map.{find, nat_eq}
use sm.Utils.Endian.{be32}
use sm.Net.Dealer.{Handler}
use sm.Net.Platform.{main_ass}
use sm.Net.Platform.Manager.{clone_pack}
use sm.Net.Router.{
  pending, fired, NMessage, Router, lookup, send_signal, place, notify_recv_net_rep,
  prepare_app_rep, can_wait_app_rep, prepare_signal_recv_app_rep, has_signal,
}
use sm.Net.Router.Life.{send_pending, send_fired, send_none, lookup-place_self}
use sm.Net.Deal.{continues, deal_round}
use sm.Net.Deal.Reply.{deal_round_replies}
use sm.Conf.Routes.{get_router_trans_by_main_c}
use sm.Net.Session.{
  Setting, Session, Outcome, runs, asserts, undefined, receive, deal, dealt, reply, without, Event,
  receives, deals, answers, step, run,
}

-- The session in which a message waits to be handled.
abbrev pub taken : Setting → NMessage → Session → Session
taken c msg s = record s {
  router = record s.router { app_rep = place c.sock msg.0 pending s.router.app_rep };
  dataio = s.dataio ++ ((c.sock, c.mainc, msg) ∷ []);
  serving = msg.0 ∷ s.serving;
}

abbrev pub refused : Setting → Outcome
refused c = if c.debug then asserts else undefined

unheard :
    (c : Setting) (msg : NMessage) (s : Session)
    → send_signal c.sock msg.0 msg s.router.net_rep ≡ (false, s.router.net_rep)
    → receive c msg s
      ≡ (if can_wait_app_rep c.sock msg.0 s.router then runs (taken c msg s) else refused c)
unfolding receive notify_recv_net_rep prepare_app_rep prepare_signal_recv_app_rep can_wait_app_rep
unheard c msg s h = rw h (elim (Bool-cases (has_signal c.sock msg.0 s.router.app_rep)) [
  | inl k ↦ rw k refl
  | inr k ↦ rw k refl
])

-- A message from the network goes to the request of its number that waits for a response, if there is
-- one. Otherwise it is queued for the application, where no message with its number was before; where
-- one was, answered or not, an assertion fails, or a null pointer is used.
pub receive_sorts :
    (c : Setting) (msg : NMessage) (s : Session)
    → (lookup c.sock msg.0 s.router.net_rep ≡ some pending
        → receive c msg s
          ≡ runs (record s {
            router = record s.router { net_rep = place c.sock msg.0 (fired msg) s.router.net_rep };
          }))
      × (lookup c.sock msg.0 s.router.net_rep ≡ none
          → receive c msg s
            ≡ (if can_wait_app_rep c.sock msg.0 s.router then runs (taken c msg s) else refused c))
      × ((old : NMessage)
          → lookup c.sock msg.0 s.router.net_rep ≡ some (fired old)
          → receive c msg s
            ≡ (if can_wait_app_rep c.sock msg.0 s.router then runs (taken c msg s) else refused c))
unfolding receive notify_recv_net_rep
receive_sorts c msg s = (
  λ h. rw (send_pending c.sock msg.0 msg s.router.net_rep h) refl,
  λ h. unheard c msg s (send_none c.sock msg.0 msg s.router.net_rep h),
  λ old h. unheard c msg s (send_fired c.sock msg.0 msg old s.router.net_rep h),
)

taken_on :
    (c : Setting) (n : ℕ) (body : List ℕ) (s : Session)
    → lookup c.sock n s.router.net_rep ≡ none
    → can_wait_app_rep c.sock n s.router ≡ true
    → receive c (n, body) s ≡ runs (taken c (n, body) s)
taken_on c n body s h k = (receive_sorts c (n, body) s).1 h ∙ rw k refl

dealing :
    (c : Setting) (sock mainc : ℕ) (msg : NMessage) (rest : List (ℕ × ℕ × NMessage)) (s : Session)
    (r' : Router)
    → deal_round c.debug c.platforms c.routers sock mainc msg s.router ≡ continues r'
    → deal c ((sock, mainc, msg) ∷ rest) s ≡ runs (record s { router = r'; dataio = rest })
unfolding deal dealt
dealing c sock mainc msg rest s r' e = rw e refl

answering :
    (c : Setting) (n : ℕ) (ks : List ℕ) (rep : NMessage) (s : Session)
    → s.serving ≡ n ∷ ks
    → lookup c.sock n s.router.app_rep ≡ some (fired rep)
    → step c (answers n) s
      ≡ runs (record s { replies = s.replies ++ (rep ∷ []); serving = without n s.serving })
unfolding step reply
answering c n ks rep s e h = rw (h, e, ==_refl n) refl

run_three :
    (c : Setting) (e1 e2 e3 : Event) (s s1 s2 s3 : Session)
    → step c e1 s ≡ runs s1
    → step c e2 s1 ≡ runs s2
    → step c e3 s2 ≡ runs s3
    → run c (e1 ∷ e2 ∷ e3 ∷ []) s ≡ runs s3
unfolding run
run_three c e1 e2 e3 s s1 s2 s3 h1 h2 h3 = rw (h1, h2, h3) refl

-- A peer's request whose head names two commands that have a handler is answered: when nothing else
-- waits to be handled and its number is new, then receiving it, handling it and answering it sends
-- the handler's text behind the same head, under the same number. The build has its assertions, the
-- platform has such heads, and the handler does not throw.
pub serves_peer :
    (c : Setting) (s : Session) (funcs : List (ℕ × Handler)) (handler : Handler)
    (prototype_ass mainc ass n : ℕ) (req rep : List ℕ)
    → c.debug ≡ true
    → mainc < 2 ^ 32
    → ass < 2 ^ 32
    → clone_pack c.platforms c.mainc ≡ some (main_ass c.mainc prototype_ass)
    → get_router_trans_by_main_c mainc c.routers ≡ some funcs
    → find ass funcs ≡ some handler
    → handler req ≡ some rep
    → s.dataio ≡ []
    → lookup c.sock n s.router.net_rep ≡ none
    → can_wait_app_rep c.sock n s.router ≡ true
    → (s' : Session) × (run c
          (receives (n, (be32 mainc ++ be32 ass) ++ req) ∷ deals ∷ answers n ∷ [])
          s
        ≡ runs s')
      × (s'.replies ≡ s.replies ++ ((n, (be32 mainc ++ be32 ass) ++ rep) ∷ []))
      × (s'.dataio ≡ [])
unfolding step
serves_peer c s funcs handler prototype_ass mainc ass n req rep d hm ha known routed there done idle
      new free =
    let msg : NMessage = (n, (be32 mainc ++ be32 ass) ++ req) in
    let t : Session = record (taken c msg s) { dataio = (c.sock, c.mainc, msg) ∷ [] } in
    let (r', e, fired_now) =
      deal_round_replies c.platforms c.routers funcs handler c.sock c.mainc prototype_ass mainc ass
        n req rep t.router hm ha known routed there done
        (lookup-place_self c.sock n pending s.router.app_rep) in
    let t' : Session = record t { router = r'; dataio = [] } in
    let reply_msg : NMessage = (n, (be32 mainc ++ be32 ass) ++ rep) in
    let t'' : Session = record t' {
      replies = s.replies ++ (reply_msg ∷ []);
      serving = without n (n ∷ s.serving);
    } in
    (
      t'',
      run_three c (receives msg) deals (answers n) s t t' t''
          (taken_on c n msg.1 s new free ∙ rw idle refl)
          (dealing c c.sock c.mainc msg [] t r' (rw d e))
          (answering c n s.serving reply_msg t' refl fired_now),
      refl,
      refl,
    )
