-- ===== src/EventLoop/Timed.antt =====
-- libkngin/detail/core/event/event_loop.cpp: the timers of a loop, its wakeups, and the end of a run.
-- `now` is what `timestamp::monotonic ()` returns, and `inside` whether the caller is the loop's own
-- thread. The loops of the timer queue are given fuel for their heap.
use libkngin.Base.{
  ℕ, zero, suc, ◌+◌, Bool, true, false, not, ◌&&◌, List, [], Option, none, some, ◌==◌,
  if◌then◌else◌,
}
use libkngin.Base.Int.{pos}
use libkngin.Base.Run.{Run, done, out_of_fuel, ◌>>=◌}
use libkngin.PriorityQueue.{Ops}
use libkngin.Timestamp.{Timestamp, timestamp, plus, minus, zero_time}
use libkngin.TimerQueue.{
  Timers, insert, remove, clear_heap, min_delay, get_ready_timers, process_ready_timers,
}
use libkngin.EventLoop.{Loop, process_tasks, process_events}

-- `timerq_`, `ready_timers_`, the calls of the reactor's `wakeup`, and whether `stop_barrier_` is
-- initialised.
pub record Rest (Q : Type 0) : Type 0 where
  pub timerq : Timers Q
  pub ready : List ℕ
  pub wakeups : ℕ
  pub barrier : Bool

abbrev pub with_timers : {Q : Type 0} → Timers Q → Loop (Rest Q) → Loop (Rest Q)
with_timers ts l = record l { rest = record (l.rest) { timerq = ts } }

abbrev pub with_barrier : {Q : Type 0} → Bool → Loop (Rest Q) → Loop (Rest Q)
with_barrier b l = record l { rest = record (l.rest) { barrier = b } }

-- `KNGIN_EVENT_LOOP_DEFAULT_DELAY`
abbrev pub default_delay : Timestamp
default_delay = timestamp (pos 30_000)

unfoldable pub wakeup : {Q : Type 0} → Bool → Loop (Rest Q) → Loop (Rest Q)
wakeup inside l =
    if l.looping && not inside
    then record l { rest = record (l.rest) { wakeups = l.rest.wakeups + 1 } }
    else l

-- `if (stop_barrier_.wait ()) stop_barrier_.destroy ()`
unfoldable pub await : {Q : Type 0} → Bool → Loop (Rest Q) → Loop (Rest Q)
await serial l = if l.rest.barrier && serial then with_barrier false l else l

-- The first part of `stop`, up to the end of the run: the loop's own thread destroys the barrier, and
-- any other wakes the loop and waits for it.
unfoldable pub signal_stop : {Q : Type 0} → Bool → Bool → Loop (Rest Q) → Loop (Rest Q)
unfolding wakeup await
signal_stop inside serial l =
    let l1 = record l { stop = true } in
    if inside then with_barrier false l1 else await serial (wakeup inside l1)

-- `fail`, at the end of `run`, with `serial` for `wait` of the barrier.
unfoldable pub fail : {Q : Type 0} → Bool → Bool → Loop (Rest Q) → Loop (Rest Q)
unfolding await
fail serial is_throw l =
    let l1 = record l { looping = false } in
    if is_throw then with_barrier false l1 else await serial l1

module _ {Q : Type 0} (ops : Ops Q) (inside : Bool) where
  -- `p` is the address of the new timer.
  unfoldable pub run_after : ℕ → Timestamp → Timestamp → Option ℕ → Loop (Rest Q) → Loop (Rest Q)
  unfolding wakeup
  run_after p now delay handler l =
      wakeup inside (with_timers (insert ops p (plus now delay) zero_time handler l.rest.timerq) l)

  unfoldable pub run_every : ℕ → Timestamp → Timestamp → Option ℕ → Loop (Rest Q) → Loop (Rest Q)
  unfolding wakeup
  run_every p now interval handler l =
      wakeup inside
        (with_timers (insert ops p (plus now interval) interval handler l.rest.timerq) l)

  -- `clock` is what `timestamp::realtime ()` returns.
  unfoldable pub run_at :
      ℕ → Timestamp → Timestamp → Timestamp → Option ℕ → Loop (Rest Q) → Loop (Rest Q)
  unfolding wakeup
  run_at p now clock realtime handler l = wakeup inside (
      with_timers (insert ops p (plus (minus realtime clock) now) zero_time handler l.rest.timerq)
        l)

  -- Both `cancel`; the timer is none when it has been freed, or the pointer is null.
  unfoldable pub cancel : ℕ → Option ℕ → Loop (Rest Q) → Run (Loop (Rest Q))
  unfolding wakeup
  cancel temp none l = done l
  cancel temp (some p) l = do
    ts ← remove ops temp p l.rest.timerq
    done (wakeup inside (with_timers ts l))

  -- `stop`; `serial` is what `wait` of the barrier returns when it is initialised.
  unfoldable pub stop : ℕ → Bool → Loop (Rest Q) → Run (Loop (Rest Q))
  unfolding signal_stop
  stop fuel serial l = if not l.looping then done l else do
    ts ← clear_heap ops fuel (signal_stop inside serial l).rest.timerq
    done (record (with_timers ts (signal_stop inside serial l)) { tasks = [] })

-- The clock in a round of the loop: how `run` reads it for the delay, for the timers that are ready,
-- and for their handlers.
pub record Readings : Type 0 where
  pub at_wait : Timestamp
  pub at_ready : Timestamp
  pub at_handlers : Timestamp

unfoldable pub process_timers :
    {Q : Type 0} (ops : Ops Q)
    → (ℕ → ℕ → Timestamp → Timers Q → Timers Q)
    → ℕ
    → Readings
    → Loop (Rest Q)
    → Run (Loop (Rest Q))
process_timers ops run_handler fuel clock l = do
  (list, ts) ← get_ready_timers ops fuel clock.at_ready l.rest.timerq
  let ts' = process_ready_timers ops run_handler list clock.at_handlers ts
  done (record l { rest = record (l.rest) { timerq = ts'; ready = list } })

-- `reactor_wait` is what the reactor, and other threads in the meantime, do to the loop, or none if
-- it throws; `serial` is what `wait` of the barrier returns in `fail`.
module _ {Q : Type 0} (ops : Ops Q) (run_task : ℕ → Loop (Rest Q) → Loop (Rest Q))
    (on_events : ℕ → ℕ → Loop (Rest Q) → Run (Bool × Loop (Rest Q)))
    (deletes : ℕ → Loop (Rest Q) → Bool) (run_handler : ℕ → ℕ → Timestamp → Timers Q → Timers Q)
    (reactor_wait : Timestamp → Loop (Rest Q) → Option (Loop (Rest Q))) where
  -- `process_events` as a whole.
  unfoldable pub process_all : ℕ → Readings → Loop (Rest Q) → Run (Loop (Rest Q))
  unfolding process_timers
  process_all fuel clock l =
      process_events run_task on_events deletes l
      >>= (λ x. process_timers ops run_handler fuel clock x)

  unfoldable pub wait : Timestamp → Timestamp → Loop (Rest Q) → Option (Loop (Rest Q))
  wait max now l =
      let delay =
        if ops.size l.rest.timerq.heap == 0
        then default_delay
        else min_delay ops max now l.rest.timerq in
      reactor_wait delay l

  -- The `while` loop of `run`, with `is_throw` of its end. `clock` is indexed by the fuel left.
  unfoldable pub rounds :
      ℕ → Timestamp → (ℕ → Readings) → Loop (Rest Q) → Run (Bool × Loop (Rest Q))
  unfolding process_all wait
  rounds zero max clock l = out_of_fuel
  rounds (suc fuel) max clock l =
      let l1 = process_tasks run_task on_events deletes l in
      let go : Loop (Rest Q) → Run (Bool × Loop (Rest Q)) = λ l2.
        process_all (ops.size l2.rest.timerq.heap + 1) (clock fuel) l2
        >>= (λ l3. rounds fuel max clock l3) in
      let waited : Run (Bool × Loop (Rest Q)) = elim (wait max (clock fuel).at_wait l1) [
        | none ↦ done (true, l1)
        | some l2 ↦ let rest = go l2 in if l2.stop then done (false, l2) else rest
      ] in
      if l.stop then done (false, l) else (if l1.stop then done (false, l1) else waited)

  unfoldable pub run : ℕ → Timestamp → (ℕ → Readings) → Bool → Loop (Rest Q) → Run (Loop (Rest Q))
  unfolding rounds fail
  run fuel max clock serial l = do
    (is_throw, l') ← rounds fuel max clock (with_barrier true (record l { looping = true }))
    done (fail serial is_throw l')
