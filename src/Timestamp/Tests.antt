-- ===== src/Timestamp/Tests.antt =====
-- Runs of the conversions.
use libkngin.Base.{◌≡◌, refl}
use libkngin.Base.Int.{negsuc}
use libkngin.Timestamp.{Timestamp, timestamp, to_timespec}

-- A millisecond and a half second before 1970.
abbrev before : Timestamp
before = timestamp (negsuc 1500)

to_timespec_run : to_timespec before ≡ record { sec = negsuc 0; nsec = negsuc 500999999 }
unfolding to_timespec
to_timespec_run = refl
