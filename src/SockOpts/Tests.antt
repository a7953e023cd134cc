-- ===== src/SockOpts/Tests.antt =====
-- A system that keeps every option of every socket as it was set last.
use mathlib.Core.Logic.{ite}
use libkngin.Base.{◌≡◌, refl, true, false}
use libkngin.Base.Int.{ℤ, pos}
use libkngin.Base.Result.{ok}
use libkngin.Socket.{Socket, Answer, returned}
use libkngin.SockOpts.{
  SockoptVal, i_val, linger_val, set_value, Level, OptName, SockoptsInfo, opts_entry,
}
use libkngin.SockOpts.Opt.{linger, entry_of}
use libkngin.SockOpts.Access.{set}

Level-discrete : Discrete Level
Level-discrete = hlevel

OptName-discrete : Discrete OptName
OptName-discrete = hlevel

SockoptsInfo-discrete : Discrete SockoptsInfo
SockoptsInfo-discrete = hlevel

abbrev Kept : Type 0
Kept = SockoptsInfo → SockoptVal

abbrev get_kept : ℤ → SockoptsInfo → Kept → Answer SockoptVal
get_kept h i k = returned (k i)

abbrev set_kept : ℤ → SockoptsInfo → SockoptVal → Kept → Answer (Unit {0}) × Kept
set_kept h i val k = (returned tt, λ j. ite (SockoptsInfo-discrete j i) val (k j))

abbrev socket : Socket
socket = record { handle = pos 5; shut = false; ipv6 = false }

abbrev unset : Kept
unset i = i_val (pos 0)

-- `set_linger (s, true, 5)`
abbrev lingering : Kept
lingering = (set_kept (pos 5) (opts_entry (entry_of linger)) (linger_val (pos 1) (pos 5)) unset).1

lingers_test : set get_kept set_kept linger socket (true, pos 5) unset ≡ (ok tt, lingering)
unfolding set_value
lingers_test = refl
