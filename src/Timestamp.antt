-- ===== src/Timestamp.antt =====
-- libkngin/include/kngin/core/base/timestamp.h: instants and spans in milliseconds. A `time_t` is an
-- integer: its overflow is undefined in C++ and left out here.
pub mod Laws
mod Tests
use libkngin.Base.{ℕ, suc, ◌+◌, ◌-◌, ◌*◌, ◌/◌, ◌%◌, ◌^◌, Bool, not, if◌then◌else◌, ltb}
use libkngin.Base.Int.{ℤ, pos, negsuc, pos_part, neg_part, sub_ℕ, ◌+ℤ◌, ◌-ℤ◌, ltb_ℤ, eqb_ℤ, min_ℤ}

pub record Timestamp : Type 0 where
  pub ms : ℤ

-- `struct timespec` and `struct timeval`: seconds and a part of one.
pub record Timespec : Type 0 where
  pub sec : ℤ
  pub nsec : ℤ

pub record Timeval : Type 0 where
  pub sec : ℤ
  pub usec : ℤ

-- `-n`
abbrev pub neg : ℕ → ℤ
neg n = sub_ℕ 0 n

-- Division in C++ rounds towards 0, and the remainder has the sign of the dividend.
unfoldable pub quot : ℤ → ℕ → ℤ
quot (pos n) k = pos (n / k)
quot (negsuc n) k = neg (suc n / k)

unfoldable pub rem : ℤ → ℕ → ℤ
rem (pos n) k = pos (n % k)
rem (negsuc n) k = neg (suc n % k)

unfoldable pub scale : ℕ → ℤ → ℤ
scale k (pos n) = pos (k * n)
scale k (negsuc n) = neg (k * suc n)

-- The constructors.
abbrev pub timestamp : ℤ → Timestamp
timestamp ms = record { ms = ms }

unfoldable pub from_timeval : Timeval → Timestamp
unfolding quot scale
from_timeval tv = timestamp (scale 1000 tv.sec +ℤ quot tv.usec 1000)

unfoldable pub from_timespec : Timespec → Timestamp
unfolding quot scale
from_timespec ts = timestamp (scale 1000 ts.sec +ℤ quot ts.nsec 1000000)

-- `+`, `-`, `+=` and `-=`, and the order.
unfoldable pub plus : Timestamp → Timestamp → Timestamp
plus a b = timestamp (a.ms +ℤ b.ms)

unfoldable pub minus : Timestamp → Timestamp → Timestamp
minus a b = timestamp (a.ms -ℤ b.ms)

abbrev pub equal : Timestamp → Timestamp → Bool
equal a b = eqb_ℤ b.ms a.ms

abbrev pub less : Timestamp → Timestamp → Bool
less a b = ltb_ℤ a.ms b.ms

abbrev pub greater_equal : Timestamp → Timestamp → Bool
greater_equal a b = not (ltb_ℤ a.ms b.ms)

-- `operator bool ()`
abbrev pub to_bool : Timestamp → Bool
to_bool a = not (eqb_ℤ a.ms (pos 0))

-- The value on `w` bits, as two's complement.
unfoldable pub wrap : ℕ → ℤ → ℕ
wrap w (pos n) = n % 2 ^ w
wrap w (negsuc n) = 2 ^ w - 1 - n % 2 ^ w

-- The 32 bits read as a signed number.
unfoldable pub signed : ℕ → ℕ → ℤ
signed w n = if ltb n (2 ^ (w - 1)) then pos n else neg (2 ^ w - n)

-- `value_int ()` and `value_uint ()`.
unfoldable pub value_int : Timestamp → ℤ
unfolding wrap signed
value_int a = signed 32 (wrap 32 (min_ℤ a.ms (pos (2 ^ 31 - 1))))

unfoldable pub value_uint : Timestamp → ℕ
unfolding wrap
value_uint a = wrap 32 (min_ℤ a.ms (pos (2 ^ 32 - 1)))

unfoldable pub to_timeval : Timestamp → Timeval
unfolding quot rem scale
to_timeval a = record { sec = quot a.ms 1000; usec = scale 1000 (rem a.ms 1000) }

unfoldable pub to_timespec : Timestamp → Timespec
unfolding quot rem scale
to_timespec a = record { sec = quot a.ms 1000; nsec = scale 1000000 (rem a.ms 1000) }

-- `infinite ()`: UINT64_MAX as a `time_t`.
unfoldable pub infinite : Timestamp
unfolding signed
infinite = timestamp (signed 64 (2 ^ 64 - 1))

-- `zero`, `diff (t1, t2)` and `abs_diff (t1, t2)`.
abbrev pub zero_time : Timestamp
zero_time = timestamp (pos 0)

unfoldable pub diff : Timestamp → Timestamp → Timestamp
unfolding minus
diff a b = minus a b

unfoldable pub abs_diff : Timestamp → Timestamp → Timestamp
abs_diff a b = let d = a.ms -ℤ b.ms in timestamp (pos (pos_part d + neg_part d))

-- `timediff (tvl, tvr)` for both representations.
unfoldable pub timediff_timeval : Timeval → Timeval → Timestamp
unfolding from_timeval
timediff_timeval a b = timestamp ((from_timeval a).ms -ℤ (from_timeval b).ms)

unfoldable pub timediff_timespec : Timespec → Timespec → Timestamp
unfolding from_timespec
timediff_timespec a b = timestamp ((from_timespec a).ms -ℤ (from_timespec b).ms)
