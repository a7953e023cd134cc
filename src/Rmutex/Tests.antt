-- ===== src/Rmutex/Tests.antt =====
-- A mutex that is taken twice and given back twice, and found busy by another thread meanwhile.
use libkngin.Base.{◌≡◌, refl, List, [], ◌∷◌, arith}
use libkngin.Base.Run.{fault}
use libkngin.Rmutex.{destroy}
use libkngin.Rmutex.Laws.{Call, locks, unlocks, tries, calls, destroy-calls}

abbrev contended : List Call
contended = locks 0 ∷ tries 16 ∷ tries 0 ∷ unlocks 0 ∷ unlocks 0 ∷ []

destroy-calls_example : destroy (calls 16 contended (record { stack = 0 })) ≡ fault
destroy-calls_example = destroy-calls 16 refl contended refl (omega arith)
