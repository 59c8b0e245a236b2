-- ===== src/Net/Nng/Context.antt =====
-- networkinterface/nngs/AsynRepImpl.cpp: the states of an answering context of NNG. What the
-- library's functions return, and the messages it gives, are parameters; the assertions of `sendPack`
-- are taken as compiled out, that of `recvPack` is tested where `debug` says so.
use sm.Base.{
  ℕ, Bool, true, false, not, ◌&&◌, Option, none, some, List, [], ◌∷◌, ◌++◌, ◌==◌, if◌then◌else◌,
}
use sm.Net.Router.{NMessage}
use sm.Net.Nng.{rep_recv_pack}

pub data NngStatus : Type 0 where
  init : NngStatus
  recv : NngStatus
  wait : NngStatus
  send : NngStatus
  aio_error : NngStatus

-- `_nStatus`, `_req`, `_rep` and what `_msgs` holds.
pub record AsynRepImpl : Type 0 where
  pub status : NngStatus
  pub req : Option (List ℕ)
  pub rep : Option (List ℕ)
  pub msgs : List (List ℕ)

unfoldable pub new_context : AsynRepImpl
new_context = record { status = init; req = none; rep = none; msgs = [] }

unfoldable pub clean_req_rep_cache : AsynRepImpl → AsynRepImpl
clean_req_rep_cache r = record r { req = none; rep = none }

-- `rep_callback` by the status, with the result of the input and the message that came.
unfoldable pub called_back : NngStatus → ℕ → List ℕ → AsynRepImpl → AsynRepImpl
called_back init nop msg r = record (clean_req_rep_cache r) { status = recv }
called_back recv nop msg r =
    if nop == 0
    then record r { status = wait; req = some msg; msgs = r.msgs ++ (msg ∷ []) }
    else record r { status = aio_error }
called_back wait nop msg r = r
called_back send nop msg r = r
called_back aio_error nop msg r = r

unfoldable pub rep_callback : ℕ → List ℕ → AsynRepImpl → AsynRepImpl
rep_callback nop msg r = called_back r.status nop msg r

-- `sendPack`, with whether a message is made, takes the bytes, and whether the output begins.
unfoldable pub rep_send_pack : Bool → Bool → Bool → List ℕ → AsynRepImpl → Bool × AsynRepImpl
rep_send_pack false appended begins src r = (false, record r { rep = none })
rep_send_pack true false begins src r = (false, record r { rep = some [] })
rep_send_pack true true false src r = (false, record r { status = aio_error; rep = some src })
rep_send_pack true true true src r = (true, record r { rep = some src })

abbrev pub is_init : NngStatus → Bool
is_init init = true
is_init recv = false
is_init wait = false
is_init send = false
is_init aio_error = false

pub data Given : Type 0 where
  waits : Given
  gives : NMessage → AsynRepImpl → Given
  asserts : Given

abbrev pub first_msg : List (List ℕ) → AsynRepImpl → Given
first_msg [] r = waits
first_msg (msg ∷ msgs) r = gives (rep_recv_pack msg) (record r { msgs = msgs })

-- `recvPack`
unfoldable pub context_recv : Bool → AsynRepImpl → Given
context_recv debug r = if debug && not (is_init r.status) then asserts else first_msg r.msgs r
