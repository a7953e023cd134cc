-- ===== src/EventLoop/Handshake.antt =====
-- How `run` and one `stop` from another thread meet at the barrier, in
-- libkngin/detail/core/event/event_loop.cpp: the steps of both threads in any order.
pub mod Safety
use libkngin.Base.{ℕ, suc, ◌+◌, ◌≡◌, Bool, true, false}

-- Where the thread of `run` is: in its `while` loop, behind `looping_ = false` with `is_throw` cleared or
-- still set, waiting at the barrier, elected by it, and behind `fail`.
pub data LoopAt : Type 0 where
  turning : LoopAt
  leaving : LoopAt
  failing : LoopAt
  loop_waits : LoopAt
  loop_elected : LoopAt
  ended : LoopAt

-- Where the other thread is: before `stop`, behind `stop_ = true`, waiting at the barrier, elected by
-- it, about to clear the queues, and behind `stop`.
pub data StopAt : Type 0 where
  before : StopAt
  told : StopAt
  stop_waits : StopAt
  stop_elected : StopAt
  clearing : StopAt
  returned : StopAt

-- `looping_`, `stop_`, whether the barrier is initialised, how often it has been destroyed, whether the
-- queues have been cleared, and whether the loop has thrown.
pub record Shake : Type 0 where
  pub loop_at : LoopAt
  pub stop_at : StopAt
  pub looping : Bool
  pub stop : Bool
  pub inited : Bool
  pub destroyed : ℕ
  pub cleared : Bool
  pub threw : Bool

-- A run that has begun.
abbrev pub begun : Shake
begun = record {
  loop_at = LoopAt.turning;
  stop_at = StopAt.before;
  looping = true;
  stop = false;
  inited = true;
  destroyed = 0;
  cleared = false;
  threw = false;
}

pub data Step (s : Shake) (t : Shake) : Type 0 where
  -- `while (!stop_)`, and the first line of `fail`
  loop_leaves :
      s.loop_at ≡ LoopAt.turning
      → s.stop ≡ true
      → t ≡ record s { loop_at = LoopAt.leaving; looping = false }
      → Step s t
  -- An exception in the `while` loop, and the branch of `fail` that it leads to. What becomes of a
  -- thread that waits at a barrier that is destroyed is not defined: here it goes on waiting.
  loop_throws :
      s.loop_at ≡ LoopAt.turning
      → t ≡ record s { loop_at = LoopAt.failing; looping = false; threw = true }
      → Step s t
  loop_gives_up :
      s.loop_at ≡ LoopAt.failing
      → s.inited ≡ true
      → t ≡ record s { loop_at = LoopAt.ended; inited = false; destroyed = s.destroyed + 1 }
      → Step s t
  loop_skips :
      s.loop_at ≡ LoopAt.failing
      → s.inited ≡ false
      → t ≡ record s { loop_at = LoopAt.ended }
      → Step s t
  -- `stop_barrier_.wait ()`, which returns false at once when the barrier is destroyed
  loop_arrives :
      s.loop_at ≡ LoopAt.leaving
      → s.inited ≡ true
      → t ≡ record s { loop_at = LoopAt.loop_waits }
      → Step s t
  loop_passes :
      s.loop_at ≡ LoopAt.leaving
      → s.inited ≡ false
      → t ≡ record s { loop_at = LoopAt.ended }
      → Step s t
  loop_destroys :
      s.loop_at ≡ LoopAt.loop_elected
      → t ≡ record s { loop_at = LoopAt.ended; inited = false; destroyed = s.destroyed + 1 }
      → Step s t
  -- `if (looping_)`
  stop_ignored :
      s.stop_at ≡ StopAt.before
      → s.looping ≡ false
      → t ≡ record s { stop_at = StopAt.returned }
      → Step s t
  stop_tells :
      s.stop_at ≡ StopAt.before
      → s.looping ≡ true
      → t ≡ record s { stop_at = StopAt.told; stop = true }
      → Step s t
  stop_arrives :
      s.stop_at ≡ StopAt.told
      → s.inited ≡ true
      → t ≡ record s { stop_at = StopAt.stop_waits }
      → Step s t
  stop_passes :
      s.stop_at ≡ StopAt.told
      → s.inited ≡ false
      → t ≡ record s { stop_at = StopAt.clearing }
      → Step s t
  stop_destroys :
      s.stop_at ≡ StopAt.stop_elected
      → t ≡ record s { stop_at = StopAt.clearing; inited = false; destroyed = s.destroyed + 1 }
      → Step s t
  stop_clears :
      s.stop_at ≡ StopAt.clearing
      → t ≡ record s { stop_at = StopAt.returned; cleared = true }
      → Step s t
  -- Both threads have arrived: the barrier lets them go, and elects one.
  elects_loop :
      s.loop_at ≡ LoopAt.loop_waits
      → s.stop_at ≡ StopAt.stop_waits
      → t ≡ record s { loop_at = LoopAt.loop_elected; stop_at = StopAt.clearing }
      → Step s t
  elects_stop :
      s.loop_at ≡ LoopAt.loop_waits
      → s.stop_at ≡ StopAt.stop_waits
      → t ≡ record s { loop_at = LoopAt.ended; stop_at = StopAt.stop_elected }
      → Step s t

pub data Reach (s : Shake) : Shake → Type 0 where
  here : Reach s s
  next : {t u : Shake} → Reach s t → Step t u → Reach s u
