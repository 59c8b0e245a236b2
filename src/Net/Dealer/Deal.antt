-- ===== src/Net/Dealer/Deal.antt =====
-- `dealmsg`: which handler serves a message, and what is sent back.
use sm.Base.{ℕ, ◌^◌, ◌<◌, ◌≡◌, sym, ap, ◌∙◌, Option, none, some, List, [], ◌∷◌, ◌++◌, arith, length}
use sm.Base.Map.{find, nat_eq}
use sm.Utils.Packet.{uppackmaincmd3_seq}
use sm.Utils.Packet.Overloads.{uppackmaincmd3_seq_short}
use sm.Net.Dealer.{
  Handler, Routes, replied, no_reply, undefined_behaviour, MainSub, NoMain, locals, unpack,
  unpack_view, pack_ass, call_handler, serve, dealmsg, pack_no_main, dealmsg_no_main, call_checked,
}
use sm.Net.Dealer.Body.{unpack-pack_ass, unpack_view-pack_ass, unpack-pack_bare}

-- The dealer after a request.
abbrev pub after_request : MainSub → ℕ → ℕ → MainSub
after_request d seqnum assc = record d { assc = assc; seqnumreq = seqnum }

dealmsg-pack_ass :
    (funcs : Routes) (d : MainSub) (seqnum assc : ℕ) (msg : List ℕ)
    → d.mainc < 2 ^ 16
    → seqnum < 2 ^ 32
    → assc < 2 ^ 16
    → length msg < 2 ^ 32
    → dealmsg funcs d (pack_ass d seqnum msg assc)
      ≡ (serve funcs (after_request d seqnum assc) (some (msg ++ msg)), after_request d seqnum assc)
unfolding dealmsg
dealmsg-pack_ass funcs d seqnum assc msg hm hs ha hl =
    rw (unpack-pack_ass d seqnum d.seqnumreq assc msg hm hs ha hl, dealmsg)

serve_missing :
    (funcs : Routes) (d : MainSub) (req : Option (List ℕ))
    → find d.assc funcs ≡ none
    → serve funcs d req ≡ no_reply
unfolding serve
serve_missing funcs d req missing = rw (missing, serve)

serve_found :
    (funcs : Routes) (d : MainSub) (handler : Handler) (req : Option (List ℕ))
    → find d.assc funcs ≡ some handler
    → serve funcs d req ≡ call_handler handler req (λ rep. pack_ass d d.seqnumreq rep d.assc)
unfolding serve
serve_found funcs d handler req there = rw (there, serve)

reply_received :
    (client d : MainSub) (old seqnum assc : ℕ) (rep : List ℕ)
    → client.mainc ≡ d.mainc
    → d.mainc < 2 ^ 16
    → seqnum < 2 ^ 32
    → assc < 2 ^ 16
    → length rep < 2 ^ 32
    → unpack_view client old (pack_ass d seqnum rep assc)
      ≡ (some rep, record client { assc = assc }, seqnum)
unfolding pack_ass
reply_received client d old seqnum assc rep same hm hs ha hl =
    rw (← same) (unpack_view-pack_ass client seqnum old assc rep (omega arith) hs ha hl)

-- A request of a dealer's main command is served by the handler of its assistant command, which
-- gets the body twice over. The reply carries the sequence number, the main and the assistant
-- command of the request, and a client that unpacks it as a view has the handler's response with
-- that number. An empty response, and a command without a handler, are no reply; a handler that
-- threw leaves a null pointer that is used.
pub dealmsg_replies :
    (funcs : Routes) (d : MainSub) (seqnum assc : ℕ) (msg : List ℕ)
    → d.mainc < 2 ^ 16
    → seqnum < 2 ^ 32
    → assc < 2 ^ 16
    → length msg < 2 ^ 32
    → let dealt = (dealmsg funcs d (pack_ass d seqnum msg assc)).0 in
      (find assc funcs ≡ none → dealt ≡ no_reply)
      × ((handler : Handler)
          → find assc funcs ≡ some handler
          → (handler (msg ++ msg) ≡ none → dealt ≡ undefined_behaviour)
            × (handler (msg ++ msg) ≡ some [] → dealt ≡ no_reply)
            × ((b : ℕ) (rep : List ℕ)
                → handler (msg ++ msg) ≡ some (b ∷ rep)
                → length (b ∷ rep) < 2 ^ 32
                → (dealt ≡ replied (pack_ass d seqnum (b ∷ rep) assc))
                  × ((client : MainSub) (old : ℕ)
                      → client.mainc ≡ d.mainc
                      → unpack_view client old (pack_ass d seqnum (b ∷ rep) assc)
                        ≡ (some (b ∷ rep), record client { assc = assc }, seqnum))))
unfolding pack_ass
dealmsg_replies funcs d seqnum assc msg hm hs ha hl =
    rw (dealmsg-pack_ass funcs d seqnum assc msg hm hs ha hl) (
      serve_missing funcs (after_request d seqnum assc) (some (msg ++ msg)),
      λ handler there.
          let served =
            serve_found funcs (after_request d seqnum assc) handler (some (msg ++ msg)) there in
          (
            (λ threw. served ∙ rw (call_handler, threw)),
            (λ empty. served ∙ rw (call_handler, empty)),
            λ b rep e fits. (
              served ∙ rw (call_handler, e),
              λ client old same.
                  reply_received client d old seqnum assc (b ∷ rep) same hm hs ha fits,
            ),
          ),
    )

unpack_short :
    (d : MainSub) (old : ℕ) (msg : List ℕ)
    → length msg < 12
    → unpack d old msg ≡ (none, d, old, (uppackmaincmd3_seq (locals old) msg).2)
unfolding unpack
unpack_short d old msg short = rw (uppackmaincmd3_seq_short (locals old) msg short, unpack)

-- A request that is too short for a head is served all the same, by the handler of the assistant
-- command of the request before: its null pointer is used.
dealmsg_malformed :
    (funcs : Routes) (d : MainSub) (handler : Handler) (msg : List ℕ)
    → find d.assc funcs ≡ some handler
    → length msg < 12
    → (dealmsg funcs d msg).0 ≡ undefined_behaviour
unfolding dealmsg
dealmsg_malformed funcs d handler msg there short =
    rw (unpack_short d d.seqnumreq msg short, dealmsg) (serve_found funcs d handler none there)

-- `PackDealerNoMain` does not keep the assistant command that it unpacks: which handler serves a
-- message, and what it answers, is the same whatever assistant command the message carries.
dealmsg_no_main_ignores_assc :
    (funcs : Routes) (d : NoMain) (msg : List ℕ) (assc assc' : ℕ)
    → assc < 2 ^ 16
    → assc' < 2 ^ 16
    → length msg < 2 ^ 32
    → dealmsg_no_main funcs d (pack_no_main msg assc)
      ≡ dealmsg_no_main funcs d (pack_no_main msg assc')
unfolding dealmsg_no_main
dealmsg_no_main_ignores_assc funcs d msg assc assc' ha ha' hl =
    ap
      (λ req. elim (find d.assc funcs) [
        | none ↦ no_reply
        | some handler ↦ call_checked handler req (λ rep. pack_no_main rep d.assc)
      ])
      (ap (λ r. r.0)
        ((unpack-pack_bare d msg assc hl ha).1 ∙ sym (unpack-pack_bare d msg assc' hl ha').1))
