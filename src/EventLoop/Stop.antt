-- ===== src/EventLoop/Stop.antt =====
-- The end of a run of libkngin/detail/core/event/event_loop.cpp: `stop`, and what `run` does behind it.
use libkngin.Base.{
  ℕ, suc, ◌+◌, ◌≡◌, refl, ap, ◌∙◌, Bool, true, false, not, ◌&&◌, ◌||◌, Option, inl, inr,
  if◌then◌else◌, Bool-cases,
}
use libkngin.Base.Run.{Run, done, ◌>>=◌}
use libkngin.PriorityQueue.{Ops}
use libkngin.Timestamp.{Timestamp}
use libkngin.TimerQueue.{Timers}
use libkngin.EventLoop.{Loop}
use libkngin.EventLoop.Timed.{Rest, Readings, with_barrier, await, stop, rounds, fail, run}

-- What `signal_stop` leaves of a loop that runs.
record IsSignalled {Q : Type 0} (inside serial : Bool) (l l1 : Loop (Rest Q)) : Type 0 where
  stopped : l1.stop ≡ true
  looping : l1.looping ≡ true
  timerq : l1.rest.timerq ≡ l.rest.timerq
  wakeups : l1.rest.wakeups ≡ l.rest.wakeups + (if inside then 0 else 1)
  barrier : l1.rest.barrier ≡ (l.rest.barrier && not (inside || serial))

module _ {Q : Type 0} (ops : Ops Q) (run_task : ℕ → Loop (Rest Q) → Loop (Rest Q))
    (on_events : ℕ → ℕ → Loop (Rest Q) → Run (Bool × Loop (Rest Q)))
    (deletes : ℕ → Loop (Rest Q) → Bool) (run_handler : ℕ → ℕ → Timestamp → Timers Q → Timers Q)
    (reactor_wait : Timestamp → Loop (Rest Q) → Option (Loop (Rest Q))) (max : Timestamp)
    (clock : ℕ → Readings) where
  rounds-stopped :
      (fuel : ℕ) (l : Loop (Rest Q))
      → l.stop ≡ true
      → rounds ops run_task on_events deletes run_handler reactor_wait (suc fuel) max clock l
        ≡ done (false, l)
  unfolding rounds
  rounds-stopped fuel l e = rw (e, rounds) refl

  -- A loop that has been told to stop cannot be run again: `run` returns at once, with nothing done but
  -- the barrier set up, and left so unless the barrier elects this thread.
  pub run-stopped :
      (fuel : ℕ) (serial : Bool) (l : Loop (Rest Q))
      → l.stop ≡ true
      → run ops run_task on_events deletes run_handler reactor_wait (suc fuel) max clock serial l
        ≡ done (with_barrier (not serial) (record l { looping = false }))
  unfolding run fail await
  run-stopped fuel serial l e =
      let start : Loop (Rest Q) = with_barrier true (record l { looping = true }) in
      let finish : Run (Bool × Loop (Rest Q)) → Run (Loop (Rest Q)) =
        λ m. m >>= (λ r. done (fail serial r.0 r.1)) in
      ap finish (rounds-stopped fuel start e)
      ∙ (elim (Bool-cases serial) [ inl s ↦ rw s refl | inr s ↦ rw s refl ])
