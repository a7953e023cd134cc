-- ===== src/EventLoop/TimerTests.antt =====
-- A loop with one periodic timer and a new one, a `stop`, and the steps of a run that is stopped.
use mathlib.Core.List.{not-mem-nil}
use libkngin.Base.{
  ℕ, ◌+◌, ◌≡◌, refl, true, false, not, List, [], ◌∷◌, some, ◌⊎◌, if◌then◌else◌, mem, arith,
}
use libkngin.Base.Int.{pos}
use libkngin.Base.Run.{done}
use libkngin.PriorityQueue.Sorted.{sorted_ops, sorted_laws}
use libkngin.Timestamp.{Timestamp, timestamp, less, plus}
use libkngin.TimerQueue.{Timer, Timers}
use libkngin.TimerQueue.Cancel.{calls_for}
use libkngin.TimerQueue.Round.{IsValid}
use libkngin.EventLoop.{Loop}
use libkngin.EventLoop.Timed.{Rest, Readings, run_after, run_every, process_timers, stop}
use libkngin.EventLoop.Timers.{run_after-process_timers, run_every-process_timers}
use libkngin.EventLoop.Handshake.{LoopAt, StopAt, Shake, begun, Step, Reach}
use libkngin.EventLoop.Handshake.Safety.{IsOver, IsStuck, Reach-safe, Reach-progress}

abbrev ms : ℕ → Timestamp
ms n = timestamp (pos n)

abbrev timers_at : ℕ → Timer
timers_at p = record {
  timeout = record { next = ms 500; interval = ms 50 };
  handler = some 7;
  closed = false;
}

abbrev timers : Timers (List ℕ)
timers = record { at = timers_at; heap = 1 ∷ []; calls = [] }

abbrev loop : Loop (Rest (List ℕ))
loop = record {
  rest = record { timerq = timers; ready = []; wakeups = 0; barrier = true };
  tasks = 4 ∷ [];
  stop = false;
  looping = true;
  actived = [];
  processing = 0;
  registed = λ e. false;
  removed = [];
  ran = [];
}

timers-IsValid : IsValid sorted_ops sorted_laws timers
timers-IsValid = record { heap = ((λ z m. absurd (not-mem-nil m)), tt); distinct = (refl, tt) }

abbrev clock : Readings
clock = record { at_wait = ms 100; at_ready = ms 130; at_handlers = ms 131 }

abbrev quiet : ℕ → ℕ → Timestamp → Timers (List ℕ) → Timers (List ℕ)
quiet h p now ts = ts

run_after-process_timers_example :
    (l2 : Loop (Rest (List ℕ))) × (process_timers sorted_ops quiet 3 clock
        (run_after sorted_ops false 2 (ms 100) (ms 20) (some 8) loop)
      ≡ done l2)
    × IsValid sorted_ops sorted_laws l2.rest.timerq
    × (calls_for 2 l2.rest.timerq.calls
        ≡ 0 + (if less (ms 130) (plus (ms 100) (ms 20)) then 0 else 1))
    × ((l2.rest.timerq.at 2).closed ≡ not (less (ms 130) (plus (ms 100) (ms 20))))
    × (mem 2 l2.rest.timerq.heap ≡ less (ms 130) (plus (ms 100) (ms 20)))
run_after-process_timers_example =
    run_after-process_timers sorted_ops sorted_laws quiet clock (λ h p ts. refl) false 3 2 8
      (ms 100) (ms 20) loop timers-IsValid refl (omega arith)

run_every-process_timers_example :
    (l2 : Loop (Rest (List ℕ))) × (process_timers sorted_ops quiet 3 clock
        (run_every sorted_ops false 2 (ms 100) (ms 20) (some 8) loop)
      ≡ done l2)
    × IsValid sorted_ops sorted_laws l2.rest.timerq
    × (calls_for 2 l2.rest.timerq.calls
        ≡ 0 + (if less (ms 130) (plus (ms 100) (ms 20)) then 0 else 1))
    × ((l2.rest.timerq.at 2).closed ≡ false)
    × ((l2.rest.timerq.at 2).timeout.next ≡ (
        if less (ms 130) (plus (ms 100) (ms 20))
        then plus (ms 100) (ms 20)
        else plus (plus (ms 100) (ms 20)) (ms 20)))
    × (mem 2 l2.rest.timerq.heap ≡ true)
run_every-process_timers_example =
    run_every-process_timers sorted_ops sorted_laws quiet clock (λ h p ts. refl) false 3 2 8
      (ms 100) (ms 20) loop refl timers-IsValid refl (omega arith)

-- The other thread has told the loop to stop.
abbrev asked : Shake
asked = record begun { stop_at = StopAt.told; stop = true }

asked-Reach : Reach begun asked
asked-Reach = Reach.next Reach.here (Step.stop_tells refl refl refl)

Reach-safe_example :
    (((asked.destroyed ≡ 0) × (asked.inited ≡ true))
      ⊎ ((asked.destroyed ≡ 1)
          × (asked.inited ≡ false)
          × (asked.loop_at ≡ LoopAt.ended)
          × ((asked.threw ≡ true)
              ⊎ ((asked.stop_at ≡ StopAt.clearing) ⊎ (asked.stop_at ≡ StopAt.returned)))))
    × ((asked.cleared ≡ false)
        ⊎ ((asked.loop_at ≡ LoopAt.ended) ⊎ (asked.loop_at ≡ LoopAt.loop_elected)))
Reach-safe_example = Reach-safe asked asked-Reach

Reach-progress_example : IsOver asked ⊎ (((t : Shake) × Step asked t) ⊎ IsStuck asked)
Reach-progress_example = Reach-progress asked asked-Reach refl

-- A loop that throws while `stop` waits at the barrier destroys it.
abbrev stuck : Shake
stuck = record begun {
  loop_at = LoopAt.ended;
  stop_at = StopAt.stop_waits;
  looping = false;
  stop = true;
  inited = false;
  destroyed = 1;
  threw = true;
}

stop_stuck : Reach begun stuck × IsStuck stuck
stop_stuck = (
  Reach.next
      (Reach.next (Reach.next asked-Reach (Step.stop_arrives refl refl refl))
        (Step.loop_throws refl refl))
      (Step.loop_gives_up refl refl refl),
  (refl, refl, refl, refl),
)

-- `stop` may return while the loop's thread, which the barrier has elected, has still to destroy it.
stop_returns_early : Reach begun (record begun {
  loop_at = LoopAt.loop_elected;
  stop_at = StopAt.returned;
  looping = false;
  stop = true;
  cleared = true;
})
stop_returns_early =
    Reach.next
      (Reach.next
        (Reach.next
          (Reach.next (Reach.next asked-Reach (Step.loop_leaves refl refl refl))
            (Step.loop_arrives refl refl refl))
          (Step.stop_arrives refl refl refl))
        (Step.elects_loop refl refl refl))
      (Step.stop_clears refl refl)
