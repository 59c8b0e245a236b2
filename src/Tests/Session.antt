-- ===== src/Tests/Session.antt =====
-- A channel with one request of its own and one of its peer's.
use sm.Base.{◌≡◌, refl, true, none, some, List, [], ◌∷◌, ◌++◌, arith, if◌then◌else◌}
use sm.Base.Map.{find, assign, erase, contains, nat_eq}
use sm.Utils.Endian.{be32}
use sm.Net.Dealer.{Handler}
use sm.Net.Platform.{main_ass, clone}
use sm.Net.Platform.Manager.{clone_pack}
use sm.Net.Router.{
  NMessage, pending, fired, lookup, place, send_signal, has_signal, notify_send_net_complete,
  notify_recv_net_rep, can_wait_app_rep, remove, finish_req_rep,
}
use sm.Net.Router.Reach.{empty_router}
use sm.Net.Channel.{initiative}
use sm.Net.Manager.{Channel, LocalNetManager, send_on, send_pack}
use sm.Conf.Routes.{get_router_trans_by_main_c}
use sm.Net.Session.{begins, begin_req, reply}
use sm.Net.Channel.{new_req}
use sm.Net.Router.{
  prepare_req_rep, can_req_rep, prepare_signal_send_complete, prepare_signal_recv_net_rep,
  prepare_app_rep, prepare_signal_recv_app_rep,
}
use sm.Net.Session.Once.{served_once}
use sm.Net.Session.{
  Setting, awaits_sent, responded, Session, runs, resumes, sends, receives, deals, answers, Event,
  step, run, send_round, resume, resume_sent, finish, receive, resume, resume_sent, resume_rep,
  finish, send_round,
}
use sm.Net.Session.Refine.{view, input, ended}
use sm.Net.Session.Run.{inputs, advances, view-run}
use sm.Net.Session.Live.{reqrep_completes, responded_only_heard, first_told, first_answer}
use sm.Net.Session.Serve.{receive_sorts, serves_peer, taken, refused}

abbrev echoes : Handler
echoes req = some req

abbrev setting : Setting
setting = record {
  debug = true;
  sock = 3;
  mode = initiative;
  mainc = 4;
  platforms = (4, main_ass 4 0) ∷ [];
  routers = some ((4, (6, echoes) ∷ []) ∷ []);
}

abbrev sends_all : Channel
sends_all msg = true

abbrev manager : LocalNetManager
manager = record { channels_tcp = (3, sends_all) ∷ []; channels_rep = []; channels_req = [] }

abbrev idle : Session
idle = record {
  router = empty_router;
  req_no = 0;
  waiting = [];
  done = [];
  dataapp = [];
  dataio = [];
  serving = [];
  replies = [];
}

-- The session behind `begins`, and behind the sending and the response.
abbrev begun : Session
begun = record idle {
  router = record {
    send_complete = (3, (1, pending) ∷ []) ∷ [];
    net_rep = (3, (1, pending) ∷ []) ∷ [];
    app_rep = [];
  };
  req_no = 1;
  waiting = (1, awaits_sent) ∷ [];
  dataapp = (3, (1, 7 ∷ [])) ∷ [];
}

begins_runs : step setting (begins (7 ∷ [])) idle ≡ runs begun
unfolding step begin_req new_req prepare_req_rep can_req_rep has_signal contains find
    prepare_signal_send_complete prepare_signal_recv_net_rep place assign
begins_runs = refl

abbrev response : NMessage
response = (1, 8 ∷ 9 ∷ [])

abbrev heard : Session
heard = record begun {
  router = record {
    send_complete = (3, (1, fired true) ∷ []) ∷ [];
    net_rep = (3, (1, fired response) ∷ []) ∷ [];
    app_rep = [];
  };
  dataapp = [];
}

abbrev completed : Session
completed = record heard {
  router = record { send_complete = (3, []) ∷ []; net_rep = (3, []) ∷ []; app_rep = [] };
  waiting = [];
  done = (1, responded (8 ∷ 9 ∷ [])) ∷ [];
}

abbrev hearing : List Event
hearing = sends manager ∷ receives response ∷ []

abbrev going_on : List Event
going_on = resumes 1 ∷ resumes 1 ∷ []

hearing_runs : run setting hearing begun ≡ runs heard
unfolding run step send_round send_pack send_on notify_send_net_complete receive notify_recv_net_rep
    send_signal lookup find place assign
hearing_runs = refl

going_on_runs : run setting going_on heard ≡ runs completed
unfolding run step resume resume_sent resume_rep lookup finish finish_req_rep remove find assign
    erase
going_on_runs = refl

view-run_example :
    view setting 1 heard ≡ advances (inputs setting 1 hearing begun) (view setting 1 begun)
view-run_example = view-run setting 1 hearing begun heard hearing_runs

reqrep_completes_example : view setting 1 completed ≡ ended (responded (8 ∷ 9 ∷ []))
unfolding view inputs input find lookup run step send_round send_pack send_on
    notify_send_net_complete receive notify_recv_net_rep send_signal place assign resume resume_sent
reqrep_completes_example =
    reqrep_completes setting 1 hearing going_on begun heard completed response refl hearing_runs
      going_on_runs refl refl refl refl (omega arith)

responded_only_heard_example :
    let xs = inputs setting 1 (hearing ++ going_on) begun in
    (first_told xs none ≡ some true)
    × (msg : NMessage) × (first_answer xs none ≡ some msg)
    × (msg.1 ≡ 8 ∷ 9 ∷ [])
unfolding view inputs input find lookup run step send_round send_pack send_on
    notify_send_net_complete receive notify_recv_net_rep send_signal place assign resume resume_sent
    resume_rep finish finish_req_rep remove erase
responded_only_heard_example =
    responded_only_heard setting 1 (hearing ++ going_on) begun completed (8 ∷ 9 ∷ []) refl refl refl
      refl

served_once_example :
    receive setting (5, 8 ∷ []) (taken setting (5, 7 ∷ []) begun) ≡ refused setting
unfolding run step reply lookup find resume resume_sent place assign prepare_app_rep
    can_wait_app_rep has_signal contains prepare_signal_recv_app_rep
served_once_example =
    served_once setting 5 (7 ∷ []) (8 ∷ []) (answers 5 ∷ resumes 1 ∷ []) begun
      (taken setting (5, 7 ∷ []) begun) refl cc

receive_sorts_example :
    let msg : NMessage = (1, []) in
    (lookup 3 1 begun.router.net_rep ≡ some pending
      → receive setting msg begun
        ≡ runs (record begun {
          router = record begun.router { net_rep = place 3 1 (fired msg) begun.router.net_rep };
        }))
    × (lookup 3 1 begun.router.net_rep ≡ none
        → receive setting msg begun ≡ (
            if can_wait_app_rep 3 1 begun.router
            then runs (taken setting msg begun)
            else refused setting))
    × ((old : NMessage)
        → lookup 3 1 begun.router.net_rep ≡ some (fired old)
        → receive setting msg begun ≡ (
            if can_wait_app_rep 3 1 begun.router
            then runs (taken setting msg begun)
            else refused setting))
receive_sorts_example = receive_sorts setting (1, []) begun

serves_peer_example :
    let msg : NMessage = (5, (be32 4 ++ be32 6) ++ (1 ∷ [])) in
    (s' : Session) × (run setting (receives msg ∷ deals ∷ answers 5 ∷ []) begun ≡ runs s')
    × (s'.replies ≡ msg ∷ [])
    × (s'.dataio ≡ [])
unfolding lookup find clone_pack clone get_router_trans_by_main_c can_wait_app_rep has_signal
    contains
serves_peer_example =
    serves_peer setting begun ((6, echoes) ∷ []) echoes 0 4 6 5 (1 ∷ []) (1 ∷ []) refl (omega arith)
      (omega arith) refl refl refl refl refl refl refl
