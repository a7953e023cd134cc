-- ===== src/Timeout/Tests.antt =====
-- Runs of a timer that is due at 100 and then every 20 milliseconds.
use libkngin.Base.Int.{pos}
use libkngin.Timestamp.{timestamp}
use libkngin.Timeout.{Timeout, timeout}

abbrev timer : Timeout
timer = timeout (timestamp (pos 100)) (timestamp (pos 20))
