-- ===== src/Net/Session/Hears.antt =====
-- What a request hears in each step of a session.
use sm.Base.{
  ℕ, ◌≡◌, refl, sym, ◌∙◌, inl, inr, Bool, Option, none, some, List, [], ◌∷◌, ◌==◌, if◌then◌else◌,
  ==→eq, Bool-cases,
}
use sm.Base.Map.{find, nat_eq}
use sm.Net.Router.{
  Signal, pending, fired, NMessage, lookup, send_signal, prepare_app_rep, notify_recv_net_rep,
}
use sm.Net.Router.Lookup.{same, same→eq}
use sm.Net.Manager.{Channel, LocalNetManager, send_pack}
use sm.Net.Manager.Notice.{channel_of}
use sm.Net.Deal.{Round, continues, returns, undefined_behaviour, aborts, deal_round}
use sm.Net.Session.{
  Setting, Phase, Ret, Session, runs, asserts, undefined, send_round, receive, dealt, deal, reply,
  Event, begins, resumes, sends, receives, deals, answers, step, is_serving,
}
use sm.Net.Session.Refine.{view, seen, advance, answered, other, input, told_by, sending}
use sm.Net.Session.Frames.{
  tell, told_of, Apart, round-Apart, prepare_app_rep_apart, send_signal_self, send_signal_other,
  send_pack_told, send_pack_untold, send_pack_net_rep,
}
use sm.Net.Session.Asks.{Goes, Goes-if, same_sock, begin_lem, resume_lem}

advance-answered :
    (msg : NMessage) (w : Option Phase) (d : Option Ret) (is_sent : Option (Signal Bool))
    (rep : Option (Signal NMessage))
    → advance (answered msg) (seen w d is_sent rep) ≡ seen w d is_sent (tell msg rep)
unfolding advance
advance-answered msg (some phase) d is_sent rep = refl
advance-answered msg none (some ret) is_sent rep = refl
advance-answered msg none none is_sent rep = refl

advance_told :
    (o : Option Channel) (msg : NMessage) (w : Option Phase) (d : Option Ret)
    (is_sent : Option (Signal Bool)) (rep : Option (Signal NMessage))
    → advance (told_by o msg) (seen w d is_sent rep) ≡ seen w d (told_of o msg is_sent) rep
unfolding advance
advance_told none msg w d is_sent rep = refl
advance_told (some channel) msg (some phase) d is_sent rep = refl
advance_told (some channel) msg none (some ret) is_sent rep = refl
advance_told (some channel) msg none none is_sent rep = refl

module _ (c : Setting) (n : ℕ) where
  send_lem :
      (m : LocalNetManager) (queue : List (ℕ × NMessage)) (s : Session)
      → view c n (send_round m queue s) ≡ advance (sending c n m queue) (view c n s)
  unfolding send_round view advance
  send_lem m [] s = refl
  send_lem m ((sockno, msg) ∷ rest) s = elim (Bool-cases (same sockno msg.0 c.sock n)) [
    | inl h ↦ rw h (sent_to sockno msg (same→eq sockno msg.0 c.sock n h))
    | inr h ↦
        rw
          (
            h,
            send_pack_untold m sockno msg c.sock n s.router h,
            send_pack_net_rep m sockno msg s.router,
          )
          refl
  ]
    where
      sent_to :
          (sockno : ℕ) (msg : NMessage)
          → (sockno ≡ c.sock) × (msg.0 ≡ n)
          → seen
              (find n s.waiting)
              (find n s.done)
              (lookup c.sock n (send_pack m sockno msg s.router).1.send_complete)
              (lookup c.sock n (send_pack m sockno msg s.router).1.net_rep)
            ≡ advance (told_by (channel_of m sockno) msg) (view c n s)
      sent_to sockno msg (e, e') =
          rw (e, ← e')
            (rw (send_pack_told m c.sock msg s.router, send_pack_net_rep m c.sock msg s.router)
              (sym (
                advance_told (channel_of m c.sock) msg (find msg.0 s.waiting) (find msg.0 s.done)
                  (lookup c.sock msg.0 s.router.send_complete)
                  (lookup c.sock msg.0 s.router.net_rep))))

  heard :
      (msg : NMessage) (s : Session)
      → seen
          (find n s.waiting)
          (find n s.done)
          (lookup c.sock n s.router.send_complete)
          (lookup c.sock n (send_signal c.sock msg.0 msg s.router.net_rep).1)
        ≡ advance (if msg.0 == n then answered msg else other) (view c n s)
  unfolding view advance
  heard msg s = elim (Bool-cases (msg.0 == n)) [
    | inl h ↦
        rw (h, ← ==→eq msg.0 n h)
          (rw (send_signal_self c.sock msg.0 msg s.router.net_rep) (
            sym (
              advance-answered msg (find msg.0 s.waiting) (find msg.0 s.done)
                (lookup c.sock msg.0 s.router.send_complete)
                (lookup c.sock msg.0 s.router.net_rep))))
    | inr h ↦
        rw
          (
            h,
            send_signal_other c.sock msg.0 c.sock n msg s.router.net_rep
                (same_sock c.sock msg.0 n ∙ h),
          )
          refl
  ]

  receive_lem :
      (msg : NMessage) (s : Session)
      → Goes
          (λ s'. view c n s' ≡ advance (input c n (receives msg) s) (view c n s))
          (receive c msg s)
  unfolding receive input notify_recv_net_rep view
  receive_lem msg s =
      let (ok, r) = notify_recv_net_rep c.sock msg s.router in
      let (e, e') = prepare_app_rep_apart c.sock msg.0 r in
      Goes-if ok _ (runs _) _ (heard msg s) (
        Goes-if (prepare_app_rep c.sock msg.0 r).0 _ (runs _) _ (rw (e, e') (heard msg s))
          (Goes-if c.debug _ asserts undefined tt tt))

  deal_lem :
      (queue : List (ℕ × ℕ × NMessage)) (s : Session)
      → Goes (λ s'. view c n s' ≡ view c n s) (deal c queue s)
  unfolding deal dealt view
  deal_lem [] s = refl
  deal_lem ((sock, mainc, msg) ∷ rest) s =
      dealt_lem (deal_round c.debug c.platforms c.routers sock mainc msg s.router)
        (round-Apart c.debug c.platforms c.routers sock mainc msg s.router)
    where
      dealt_lem :
          (o : Round) → Apart s.router o → Goes (λ s'. view c n s' ≡ view c n s) (dealt rest o s)
      dealt_lem (continues r) (e, e') = rw (e, e') refl
      dealt_lem returns _ = tt
      dealt_lem undefined_behaviour _ = tt
      dealt_lem aborts _ = tt

  reply_lem :
      (k : ℕ) (o : Option (Signal NMessage)) (s : Session) → view c n (reply k o s) ≡ view c n s
  unfolding reply view
  reply_lem k (some (fired rep)) s = refl
  reply_lem k (some pending) s = refl
  reply_lem k none s = refl

  pub step_lem :
      (e : Event) (s : Session)
      → Goes (λ s'. view c n s' ≡ advance (input c n e s) (view c n s)) (step c e s)
  unfolding step input advance
  step_lem (begins body) s = begin_lem c n body s
  step_lem (resumes k) s =
      resume_lem c n k s
      ∙ elim (Bool-cases (k == n)) [ inl h ↦ rw (h, ==→eq k n h) refl | inr h ↦ rw h refl ]
  step_lem (sends m) s = send_lem m s.dataapp s
  step_lem (receives msg) s = receive_lem msg s
  step_lem deals s = deal_lem s.dataio s
  step_lem (answers k) s =
      Goes-if (is_serving k s.serving) _ (runs _) (runs _)
        (reply_lem k (lookup c.sock k s.router.app_rep) s) refl
