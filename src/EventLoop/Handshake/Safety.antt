-- ===== src/EventLoop/Handshake/Safety.antt =====
-- What holds in every state that `run` and `stop` of libkngin/detail/core/event/event_loop.cpp reach.
use libkngin.Base.{
  ℕ, ◌+◌, ◌≡◌, refl, ◌<◌, ◌⊎◌, inl, inr, Bool, true, false, Option, none, some, arith,
  if◌then◌else◌,
}
use libkngin.EventLoop.Handshake.{LoopAt, StopAt, Shake, begun, Step, Reach}

-- The rest of the state: `looping`, `inited`, `destroyed` and `cleared`.
abbrev View : Type 0
View = Bool × Bool × ℕ × Bool

-- Where the two threads can be at once, and the rest of the state then, of a run that has not thrown, by
-- `stop`.
expected : LoopAt → StopAt → Bool → Option View
expected LoopAt.turning StopAt.before false = some (true, true, 0, false)
expected LoopAt.turning StopAt.told true = some (true, true, 0, false)
expected LoopAt.turning StopAt.stop_waits true = some (true, true, 0, false)
expected LoopAt.leaving StopAt.told true = some (false, true, 0, false)
expected LoopAt.leaving StopAt.stop_waits true = some (false, true, 0, false)
expected LoopAt.loop_waits StopAt.told true = some (false, true, 0, false)
expected LoopAt.loop_waits StopAt.stop_waits true = some (false, true, 0, false)
expected LoopAt.loop_elected StopAt.clearing true = some (false, true, 0, false)
expected LoopAt.loop_elected StopAt.returned true = some (false, true, 0, true)
expected LoopAt.ended StopAt.stop_elected true = some (false, true, 0, false)
expected LoopAt.ended StopAt.clearing true = some (false, false, 1, false)
expected LoopAt.ended StopAt.returned true = some (false, false, 1, true)
expected l t b = none

-- The same of a run that has thrown.
thrown : LoopAt → StopAt → Bool → Option View
thrown LoopAt.failing StopAt.before false = some (false, true, 0, false)
thrown LoopAt.failing StopAt.returned false = some (false, true, 0, false)
thrown LoopAt.failing StopAt.told true = some (false, true, 0, false)
thrown LoopAt.failing StopAt.stop_waits true = some (false, true, 0, false)
thrown LoopAt.ended StopAt.before false = some (false, false, 1, false)
thrown LoopAt.ended StopAt.returned false = some (false, false, 1, false)
thrown LoopAt.ended StopAt.told true = some (false, false, 1, false)
thrown LoopAt.ended StopAt.stop_waits true = some (false, false, 1, false)
thrown LoopAt.ended StopAt.clearing true = some (false, false, 1, false)
thrown LoopAt.ended StopAt.returned true = some (false, false, 1, true)
thrown l t b = none

abbrev pub view : Shake → View
view s = (s.looping, s.inited, s.destroyed, s.cleared)

abbrev IsSafe : Shake → Type 0
IsSafe s =
    (if s.threw then thrown s.loop_at s.stop_at s.stop else expected s.loop_at s.stop_at s.stop)
    ≡ some (view s)

Step-IsSafe : (s t : Shake) → Step s t → IsSafe s → IsSafe t
unfolding expected thrown
Step-IsSafe s t (Step.loop_leaves l p e) h = ground arith
Step-IsSafe s t (Step.loop_throws l e) h = ground arith
Step-IsSafe s t (Step.loop_gives_up l p e) h = ground arith
Step-IsSafe s t (Step.loop_skips l p e) h = ground arith
Step-IsSafe s t (Step.loop_arrives l p e) h = ground arith
Step-IsSafe s t (Step.loop_passes l p e) h = ground arith
Step-IsSafe s t (Step.loop_destroys l e) h = ground arith
Step-IsSafe s t (Step.stop_ignored l p e) h = ground arith
Step-IsSafe s t (Step.stop_tells l p e) h = ground arith
Step-IsSafe s t (Step.stop_arrives l p e) h = ground arith
Step-IsSafe s t (Step.stop_passes l p e) h = ground arith
Step-IsSafe s t (Step.stop_destroys l e) h = ground arith
Step-IsSafe s t (Step.stop_clears l e) h = ground arith
Step-IsSafe s t (Step.elects_loop l p e) h = ground arith
Step-IsSafe s t (Step.elects_stop l p e) h = ground arith

Reach-IsSafe : (s : Shake) → Reach begun s → IsSafe s
unfolding expected thrown
Reach-IsSafe s Reach.here = refl
Reach-IsSafe s (Reach.next {t} r st) = Step-IsSafe t s st (Reach-IsSafe t r)

-- In every state that a run and one `stop` from another thread reach, either the barrier is
-- initialised and has not been destroyed, or it has been destroyed exactly once, and then the loop has
-- ended, and unless it has thrown no thread waits at the barrier or will; and the queues are cleared
-- only behind the last turn of the loop.
pub Reach-safe :
    (s : Shake)
    → Reach begun s
    → (((s.destroyed ≡ 0) × (s.inited ≡ true))
        ⊎ ((s.destroyed ≡ 1)
            × (s.inited ≡ false)
            × (s.loop_at ≡ LoopAt.ended)
            × ((s.threw ≡ true) ⊎ ((s.stop_at ≡ StopAt.clearing) ⊎ (s.stop_at ≡ StopAt.returned)))))
      × ((s.cleared ≡ false) ⊎ ((s.loop_at ≡ LoopAt.ended) ⊎ (s.loop_at ≡ LoopAt.loop_elected)))
unfolding expected thrown
Reach-safe s r = let h = Reach-IsSafe s r in ground arith

-- How many steps a thread has left at most.
abbrev pub loop_left : LoopAt → ℕ
loop_left LoopAt.turning = 4
loop_left LoopAt.leaving = 3
loop_left LoopAt.failing = 1
loop_left LoopAt.loop_waits = 2
loop_left LoopAt.loop_elected = 1
loop_left LoopAt.ended = 0

abbrev pub stop_left : StopAt → ℕ
stop_left StopAt.before = 5
stop_left StopAt.told = 4
stop_left StopAt.stop_waits = 3
stop_left StopAt.stop_elected = 2
stop_left StopAt.clearing = 1
stop_left StopAt.returned = 0

abbrev pub left : Shake → ℕ
left s = loop_left s.loop_at + stop_left s.stop_at

-- Each step of either thread leaves fewer steps: no order of the steps goes on forever.
pub Step-left : (s t : Shake) → Step s t → left t < left s
Step-left s t (Step.loop_leaves l p e) = ground arith
Step-left s t (Step.loop_throws l e) = ground arith
Step-left s t (Step.loop_gives_up l p e) = ground arith
Step-left s t (Step.loop_skips l p e) = ground arith
Step-left s t (Step.loop_arrives l p e) = ground arith
Step-left s t (Step.loop_passes l p e) = ground arith
Step-left s t (Step.loop_destroys l e) = ground arith
Step-left s t (Step.stop_ignored l p e) = ground arith
Step-left s t (Step.stop_tells l p e) = ground arith
Step-left s t (Step.stop_arrives l p e) = ground arith
Step-left s t (Step.stop_passes l p e) = ground arith
Step-left s t (Step.stop_destroys l e) = ground arith
Step-left s t (Step.stop_clears l e) = ground arith
Step-left s t (Step.elects_loop l p e) = ground arith
Step-left s t (Step.elects_stop l p e) = ground arith

-- Both threads are through, and have cleaned up.
abbrev pub IsOver : Shake → Type 0
IsOver s =
    (s.loop_at ≡ LoopAt.ended)
    × (s.stop_at ≡ StopAt.returned)
    × (s.destroyed ≡ 1)
    × (s.cleared ≡ true)

-- `stop` waits at the barrier that the end of a loop that has thrown has destroyed.
abbrev pub IsStuck : Shake → Type 0
IsStuck s =
    (s.threw ≡ true)
    × (s.loop_at ≡ LoopAt.ended)
    × (s.stop_at ≡ StopAt.stop_waits)
    × (s.destroyed ≡ 1)

-- A thread can go on, or both are through, or `stop` is stuck.
abbrev pub GoesOn : Shake → Type 0
GoesOn s = IsOver s ⊎ (((t : Shake) × Step s t) ⊎ IsStuck s)

module _ (s : Shake) (h : IsSafe s) (told : s.stop ≡ true) where
  waits-progress : (l : LoopAt) → s.loop_at ≡ l → s.stop_at ≡ StopAt.stop_waits → GoesOn s
  unfolding expected thrown
  waits-progress LoopAt.turning e f = inr (inl (_, Step.loop_leaves e told refl))
  waits-progress LoopAt.leaving e f = inr (inl (_, Step.loop_arrives e (ground arith) refl))
  waits-progress LoopAt.failing e f = inr (inl (_, Step.loop_gives_up e (ground arith) refl))
  waits-progress LoopAt.loop_waits e f = inr (inl (_, Step.elects_loop e f refl))
  waits-progress LoopAt.loop_elected e f = absurd (ground arith)
  waits-progress LoopAt.ended e f = inr (inr (ground arith, e, f, ground arith))

  returned-progress : (l : LoopAt) → s.loop_at ≡ l → s.stop_at ≡ StopAt.returned → GoesOn s
  unfolding expected thrown
  returned-progress LoopAt.turning e f = absurd (ground arith)
  returned-progress LoopAt.leaving e f = absurd (ground arith)
  returned-progress LoopAt.failing e f = absurd (ground arith)
  returned-progress LoopAt.loop_waits e f = absurd (ground arith)
  returned-progress LoopAt.loop_elected e f = inr (inl (_, Step.loop_destroys e refl))
  returned-progress LoopAt.ended e f = inl (e, f, ground arith, ground arith)

  -- A `stop` that the destroyed barrier lets through, or that arrives at it.
  arrives-progress : (b : Bool) → s.inited ≡ b → s.stop_at ≡ StopAt.told → GoesOn s
  arrives-progress true e f = inr (inl (_, Step.stop_arrives f e refl))
  arrives-progress false e f = inr (inl (_, Step.stop_passes f e refl))

  told-progress : (c : StopAt) → s.stop_at ≡ c → GoesOn s
  unfolding expected thrown
  told-progress StopAt.before f = absurd (ground arith)
  told-progress StopAt.told f = arrives-progress s.inited refl f
  told-progress StopAt.stop_waits f = waits-progress s.loop_at refl f
  told-progress StopAt.stop_elected f = inr (inl (_, Step.stop_destroys f refl))
  told-progress StopAt.clearing f = inr (inl (_, Step.stop_clears f refl))
  told-progress StopAt.returned f = returned-progress s.loop_at refl f

-- In every state that the two threads reach with `stop_` set, one of them can go on, or both are through,
-- the barrier has been destroyed once and the queues are cleared, or the loop has thrown and has
-- destroyed the barrier at which `stop` waits. A loop that does not throw and `stop` do not block each
-- other.
pub Reach-progress : (s : Shake) → Reach begun s → s.stop ≡ true → GoesOn s
Reach-progress s r told = told-progress s (Reach-IsSafe s r) told s.stop_at refl
