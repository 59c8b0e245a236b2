-- ===== src/Net/Nng.antt =====
-- networkinterface/nngs/ReqImpl.cpp, and `recvPack` of AsynRepImpl.cpp: messages over sockets of the
-- NNG library. What the library's functions return, and the bytes they give, are parameters.
pub mod Request
pub mod Context
pub mod Once
use sm.Base.{
  ℕ, zero, suc, ◌+◌, ◌-◌, ◌*◌, ◌/◌, ◌%◌, ◌^◌, ◌≤◌, ◌<◌, ◌≡◌, refl, sym, ap, ap₂, ◌∙◌, fun_ext, ◌≢◌,
  ◌↔◌, ◌⊎◌, inl, inr, Bool, true, false, not, ◌&&◌, ◌||◌, Option, none, some, List, [], ◌∷◌, ◌++◌,
  append-nil, append_assoc, map, arith, ltb, leb, ◌==◌, if◌then◌else◌, ltb→lt, lt→ltb, le→ltb,
  ==→eq, ==_refl, tests, Bool-cases, Option-cases, length, take, drop, length-append, take-append,
  drop-append, drop-append_cons, take-append_at, drop-append_at, take-append_drop, take_of_length,
  drop_of_length, length-drop, length-take, take-append_le, drop-append_le, All, Bytes, dec_lt,
  dec_le, ℕ_discrete,
}
use sm.Net.Router.{NMessage}
use sm.Net.Manager.{Channel}

-- `ReqImpl::sendPack`: what `nng_send` returns is compared with the length of the message.
unfoldable pub req_send_pack : (List ℕ → ℕ) → Channel
req_send_pack nng_send msg = nng_send msg.1 == length msg.1

-- `ReqImpl::recvPack`: what `nng_recv` returns is asserted to be positive; the number is zero. The
-- assertion that fails gives `none`.
unfoldable pub req_recv_pack : Bool → ℕ → List ℕ → Option NMessage
req_recv_pack debug nnop bytes = if debug && not (ltb 0 nnop) then none else some (0, bytes)

-- `AsynRepImpl::recvPack`: the number of every message is zero.
unfoldable pub rep_recv_pack : List ℕ → NMessage
rep_recv_pack bytes = (0, bytes)
