-- ===== src/Rmutex.antt =====
-- libkngin/detail/core/base/impl/posix_rmutex.h in a build with assertions: the recursive mutex and
-- the count of locks that its destructor checks. What each function of pthread returns is an argument,
-- 0 or an error number, and `ebusy` is EBUSY. A call is one step: the count is atomic, and a thread
-- that changes it between the two halves of another's call adds to it all the same.
pub mod Laws
mod Tests
use libkngin.Base.{ℕ, ◌+◌, ◌-◌, ◌%◌, ◌^◌, Bool, not, ◌&&◌, ◌||◌, ◌==◌, if◌then◌else◌}
use libkngin.Base.Result.{Result, ok, throw, system_error}
use libkngin.Base.Run.{Run, done, fault}

-- `stack_`, a `size_t`.
pub record Rmutex : Type 0 where
  pub stack : ℕ

-- The constructor, by what `pthread_mutexattr_init` and `pthread_mutex_init` return.
unfoldable pub posix_rmutex : ℕ → ℕ → Result Rmutex
posix_rmutex attr_ec ec =
    if (attr_ec == 0) && (ec == 0) then ok (record { stack = 0 }) else throw system_error

unfoldable pub destroy : Rmutex → Run (Unit {0})
destroy m = if m.stack == 0 then done tt else fault

-- `stack_++` and `stack_--`
abbrev pub count_up : Rmutex → Rmutex
count_up m = record { stack = (m.stack + 1) % 2 ^ 64 }

abbrev pub count_down : Rmutex → Rmutex
count_down m = record { stack = (m.stack + (2 ^ 64 - 1)) % 2 ^ 64 }

unfoldable pub lock : ℕ → Rmutex → Result (Unit {0}) × Rmutex
lock ec m = if ec == 0 then (ok tt, count_up m) else (throw system_error, m)

unfoldable pub unlock : ℕ → Rmutex → Result (Unit {0}) × Rmutex
unlock ec m = if ec == 0 then (ok tt, count_down m) else (throw system_error, m)

unfoldable pub try_lock : ℕ → ℕ → Rmutex → Result Bool × Rmutex
try_lock ebusy ec m =
    if (ec == 0) || (ec == ebusy)
    then (ok (not (ec == ebusy)), count_up m)
    else (throw system_error, m)
