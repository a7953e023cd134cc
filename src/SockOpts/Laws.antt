-- ===== src/SockOpts/Laws.antt =====
-- What the setters and getters of options ask of the system.
use libkngin.Base.Int.{ℤ}
use libkngin.Base.Result.{Result, ok, throw, system_error}
use libkngin.Socket.{Socket, Answer, returned, refused}
use libkngin.SockOpts.{SockoptVal, SockoptsInfo}
use libkngin.SockOpts.Opt.{Opt}

module _ {K : Type 0} (getsockopt : ℤ → SockoptsInfo → K → Answer SockoptVal)
    (setsockopt : ℤ → SockoptsInfo → SockoptVal → K → Answer (Unit {0}) × K) where
  -- A setter throws when the system refuses its call.
  abbrev pub told : Answer (Unit {0}) × K → Result (Unit {0}) × K
  told (returned v, k) = (ok tt, k)
  told (refused e, k) = (throw system_error, k)
