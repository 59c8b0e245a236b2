-- ===== src/Net/Channel.antt =====
-- networkinterface/ChannelCombine.h: the numbers of the requests of a channel.
pub mod Numbers
use sm.Base.{
  ℕ, zero, suc, ◌+◌, ◌-◌, ◌*◌, ◌/◌, ◌%◌, ◌^◌, ◌≤◌, ◌<◌, ◌≡◌, refl, sym, ap, ap₂, ◌∙◌, fun_ext, ◌≢◌,
  ◌↔◌, ◌⊎◌, inl, inr, Bool, true, false, not, ◌&&◌, ◌||◌, Option, none, some, List, [], ◌∷◌, ◌++◌,
  append-nil, append_assoc, map, arith, ltb, leb, ◌==◌, if◌then◌else◌, ltb→lt, lt→ltb, le→ltb,
  ==→eq, ==_refl, tests, Bool-cases, Option-cases, length, take, drop, length-append, take-append,
  drop-append, drop-append_cons, take-append_at, drop-append_at, take-append_drop, take_of_length,
  drop_of_length, length-drop, length-take, take-append_le, drop-append_le, All, Bytes, dec_lt,
  dec_le, ℕ_discrete,
}

pub data ChannelMode : Type 0 where
  initiative : ChannelMode
  passive : ChannelMode

-- `std::numeric_limits<uint32_t>::max()` and half of it.
abbrev pub uint32_max : ℕ
uint32_max = 0xffffffff

abbrev pub half : ℕ
half = uint32_max / 2

-- The constructor's `_reqNo`.
unfoldable pub first_req : ChannelMode → ℕ
first_req initiative = 0
first_req passive = half

-- `newReq`: what it returns is also the new `_reqNo`.
unfoldable pub new_req : ChannelMode → ℕ → ℕ
new_req initiative req_no =
    let next = (req_no + 1) % 2 ^ 32 in if leb uint32_max next then 0 else next
new_req passive req_no = let next = (req_no + 1) % 2 ^ 32 in if leb next half then half else next

-- The number of the n-th request of a channel; that of the 0-th is what the constructor sets.
unfoldable pub requests : ChannelMode → ℕ → ℕ
requests mode zero = first_req mode
requests mode (suc n) = new_req mode (requests mode n)
