-- ===== src/Rmutex/Laws.antt =====
-- What the count of a recursive mutex has become when the calls on it are over.
use libkngin.Base.{ℕ, ◌+◌, ◌%◌, ◌^◌, ◌<◌, ◌≡◌, ap, false, List, [], ◌∷◌, ◌==◌, if◌then◌else◌, arith}
use libkngin.Base.Run.{done, fault}
use libkngin.Rmutex.{Rmutex, destroy, lock, unlock, try_lock}

-- A call, with what its function of pthread returns.
pub data Call : Type 0 where
  locks : ℕ → Call
  unlocks : ℕ → Call
  tries : ℕ → Call

module _ (ebusy : ℕ) where
  abbrev pub after_call : Call → Rmutex → Rmutex
  after_call (locks ec) m = (lock ec m).1
  after_call (unlocks ec) m = (unlock ec m).1
  after_call (tries ec) m = (try_lock ebusy ec m).1

  abbrev pub calls : List Call → Rmutex → Rmutex
  calls [] m = m
  calls (c ∷ cs) m = calls cs (after_call c m)

  -- The calls that have taken the mutex, that have given it back, and that have found it busy.
  abbrev pub taken : List Call → ℕ
  taken [] = 0
  taken (locks ec ∷ cs) = (if ec == 0 then 1 else 0) + taken cs
  taken (unlocks ec ∷ cs) = taken cs
  taken (tries ec ∷ cs) = (if ec == 0 then 1 else 0) + taken cs

  abbrev pub given_back : List Call → ℕ
  given_back [] = 0
  given_back (locks ec ∷ cs) = given_back cs
  given_back (unlocks ec ∷ cs) = (if ec == 0 then 1 else 0) + given_back cs
  given_back (tries ec ∷ cs) = given_back cs

  abbrev pub busy : List Call → ℕ
  busy [] = 0
  busy (tries ec ∷ cs) = (if ec == ebusy then 1 else 0) + busy cs
  busy (locks ec ∷ cs) = busy cs
  busy (unlocks ec ∷ cs) = busy cs

  calls-stack :
      (ebusy == 0) ≡ false
      → (cs : List Call) (m : Rmutex)
      → ((calls cs m).stack + given_back cs) % 2 ^ 64 ≡ (m.stack + taken cs + busy cs) % 2 ^ 64
  unfolding lock unlock try_lock
  calls-stack b [] m = omega arith
  calls-stack b (locks ec ∷ cs) m = ground (arith, calls-stack b cs (after_call (locks ec) m))
  calls-stack b (unlocks ec ∷ cs) m = ground (arith, calls-stack b cs (after_call (unlocks ec) m))
  calls-stack b (tries ec ∷ cs) m = ground (arith, calls-stack b cs (after_call (tries ec) m))

  calls-bound : (cs : List Call) (m : Rmutex) → m.stack < 2 ^ 64 → (calls cs m).stack < 2 ^ 64
  unfolding lock unlock try_lock
  calls-bound [] m h = h
  calls-bound (locks ec ∷ cs) m h = calls-bound cs (after_call (locks ec) m) (ground arith)
  calls-bound (unlocks ec ∷ cs) m h = calls-bound cs (after_call (unlocks ec) m) (ground arith)
  calls-bound (tries ec ∷ cs) m h = calls-bound cs (after_call (tries ec) m) (ground arith)

  -- When a new mutex has been given back as often as it has been taken, its destructor passes its
  -- assertion if no `try_lock` has found it busy, and fails it if some have, fewer than `2 ^ 64`.
  pub destroy-calls :
      (ebusy == 0) ≡ false
      → (cs : List Call) → taken cs ≡ given_back cs
      → busy cs < 2 ^ 64
      → destroy (calls cs (record { stack = 0 })) ≡ (if busy cs == 0 then done tt else fault)
  unfolding destroy
  destroy-calls b cs same few =
      let start : Rmutex = record { stack = 0 } in
      let count : (calls cs start).stack ≡ busy cs =
        omega (arith, calls-stack b cs start, calls-bound cs start (omega arith)) in
      ap (λ (n : ℕ). if n == 0 then done tt else fault) count
