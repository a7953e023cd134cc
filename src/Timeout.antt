-- ===== src/Timeout.antt =====
-- libkngin/include/kngin/core/base/timeout.h: the next expiry of a timer and its period. `now` is
-- what `timestamp::monotonic ()` returns.
pub mod Laws
mod Tests
use libkngin.Base.{Bool, if◌then◌else◌}
use libkngin.Timestamp.{Timestamp, plus, diff, less, greater_equal, to_bool, zero_time}

pub record Timeout : Type 0 where
  pub next : Timestamp
  pub interval : Timestamp

abbrev pub null_timeout : Timeout
null_timeout = record { next = zero_time; interval = zero_time }

-- `timeout (initval, interval)`, and what `reset (initval, interval)` leaves.
abbrev pub timeout : Timestamp → Timestamp → Timeout
timeout next interval = record { next = next; interval = interval }

unfoldable pub update : Timeout → Timeout
update t = record t { next = plus t.next t.interval }

unfoldable pub clear : Timeout → Timeout
clear t = record { next = zero_time; interval = zero_time }

unfoldable pub timed_out : Timeout → Timestamp → Bool
timed_out t now = greater_equal now t.next

unfoldable pub remaining : Timeout → Timestamp → Timestamp
remaining t now = let d = diff t.next now in if less zero_time d then d else zero_time

abbrev pub persist : Timeout → Bool
persist t = to_bool t.interval
