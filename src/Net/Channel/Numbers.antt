-- ===== src/Net/Channel/Numbers.antt =====
-- Which numbers the requests of the two kinds of channels get.
use sm.Base.{ℕ, zero, suc, ◌+◌, ◌%◌, ◌^◌, ◌<◌, ◌≡◌, refl, ◌≢◌, arith}
use sm.Net.Channel.{
  ChannelMode, initiative, passive, uint32_max, half, first_req, new_req, requests,
}

-- The least number of a mode, and how many numbers it has.
abbrev pub base : ChannelMode → ℕ
base initiative = 0
base passive = half

abbrev pub period : ChannelMode → ℕ
period initiative = uint32_max
period passive = half + 2

-- The n-th request of a channel: the numbers go up from the least one of the mode, one by one, and
-- start again behind the last one. An initiative channel has those from 0 to 2 ^ 32 - 2, and a passive one
-- those from 2 ^ 31 - 1 to 2 ^ 32 - 1.
requests_cycle : (mode : ChannelMode) (n : ℕ) → requests mode n ≡ base mode + n % period mode
unfolding requests first_req new_req
requests_cycle initiative zero = refl
requests_cycle passive zero = refl
requests_cycle initiative (suc n) = ground (arith, requests_cycle initiative n)
requests_cycle passive (suc n) = ground (arith, requests_cycle passive n)

-- A channel gives no number again before it has given all the numbers of its mode.
requests_distinct :
    (mode : ChannelMode) (i j : ℕ) → i < j → j < i + period mode → requests mode i ≢ requests mode j
requests_distinct initiative i j lt near e =
    let ei = requests_cycle initiative i in let ej = requests_cycle initiative j in omega arith
requests_distinct passive i j lt near e =
    let ei = requests_cycle passive i in let ej = requests_cycle passive j in omega arith

-- For every k below 2 ^ 31, the request of an initiative channel that comes 2 ^ 31 - 1 behind its
-- k-th has the number of the k-th request of a passive channel.
requests_overlap : (k : ℕ) → k < 2 ^ 31 → requests initiative (half + k) ≡ requests passive k
requests_overlap k h =
    let ei = requests_cycle initiative (half + k) in
    let ej = requests_cycle passive k in omega arith
