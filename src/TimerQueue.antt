-- ===== src/TimerQueue.antt =====
-- libkngin/detail/core/event/timer_queue.cpp, timer_queue.h, impl/monotonic_timer.cpp and
-- impl/monotonic_timer.h: timers ordered by their expiry. The build is the one without
-- `KNGIN_USE_TIMERFD_TIMER`; an assertion that fails is a fault. `now` is what
-- `timestamp::monotonic ()` returns.
pub mod Order
pub mod Ready
pub mod Renew
pub mod Process
pub mod Round
pub mod Fire
pub mod Clear
pub mod Delay
pub mod Cancel
mod Tests
use libkngin.Base.{
  ℕ, zero, suc, ◌+◌, Bool, true, false, not, List, [], ◌∷◌, ◌++◌, Option, none, some, ◌==◌,
  if◌then◌else◌,
}
use libkngin.Base.Run.{Run, done, fault, out_of_fuel, ◌>>=◌}
use libkngin.PriorityQueue.{Ops}
use libkngin.Timestamp.{Timestamp, timestamp, less, zero_time}
use libkngin.Timeout.{Timeout, timeout, update, clear, remaining, persist}

-- `handler_` is the number of a function, or null.
pub record Timer : Type 0 where
  pub timeout : Timeout
  pub handler : Option ℕ
  pub closed : Bool

unfoldable pub monotonic_timer : Option ℕ → Timestamp → Timestamp → Timer
monotonic_timer handler initval interval = record {
  timeout = timeout initval interval;
  handler = handler;
  closed = false;
}

unfoldable pub set_time : Timestamp → Timestamp → Timer → Timer
set_time initval interval t = record t { timeout = timeout initval interval; closed = false }

unfoldable pub close : Timer → Timer
unfolding clear
close t = record t { timeout = clear t.timeout; closed = true }

-- The timers by address, the heap of their addresses, and the calls of handlers: of which timer, and
-- the instant that the handler is given.
pub record Timers (Q : Type 0) : Type 0 where
  pub at : ℕ → Timer
  pub heap : Q
  pub calls : List (ℕ × Timestamp)

abbrev pub put : ℕ → Timer → (ℕ → Timer) → ℕ → Timer
put p t at q = if q == p then t else at q

-- `timer_less`
unfoldable pub timer_less : (ℕ → Timer) → ℕ → ℕ → Bool
timer_less at first second = less (at second).timeout.next (at first).timeout.next

module _ {Q : Type 0} (ops : Ops Q) where
  -- `p` is the address that `make_shared` returns.
  unfoldable pub insert : ℕ → Timestamp → Timestamp → Option ℕ → Timers Q → Timers Q
  unfolding monotonic_timer timer_less
  insert p initval interval handler ts =
      let at = put p (monotonic_timer handler initval interval) ts.at in
      record ts { at = at; heap = ops.push (timer_less at) p ts.heap }

  -- `temp` is the address of the `static` timer in `sort`.
  module _ (temp : ℕ) where
    unfoldable pub sort : Timers Q → Run (Timers Q)
    unfolding timer_less
    sort ts =
        if (ts.at temp).closed
        then done (record ts { heap = ops.push (timer_less ts.at) temp ts.heap })
        else fault

    unfoldable pub remove : ℕ → Timers Q → Run (Timers Q)
    unfolding close sort
    remove p ts = sort (record ts { at = put p (close (ts.at p)) ts.at })

  -- `while (heap_.size ()) heap_.pop ()`
  unfoldable pub clear_heap : ℕ → Timers Q → Run (Timers Q)
  unfolding timer_less
  clear_heap zero ts = out_of_fuel
  clear_heap (suc fuel) ts =
      let rest = clear_heap fuel (record ts { heap = ops.pop (timer_less ts.at) ts.heap }) in
      if ops.size ts.heap == 0 then done ts else rest

  -- `timestamp::max` is `max`.
  unfoldable pub min_delay : Timestamp → Timestamp → Timers Q → Timestamp
  unfolding remaining
  min_delay max now ts =
      if ops.size ts.heap == 0
      then max
      else elim (ops.top ts.heap) [ none ↦ max | some p ↦ remaining (ts.at p).timeout now ]

  -- The `while` loop of `get_ready_timers`: the list, and the heap that is left.
  unfoldable pub get_ready : ℕ → (ℕ → Timer) → Timestamp → Q → List ℕ → Run (List ℕ × Q)
  unfolding timer_less
  get_ready zero at now q list = out_of_fuel
  get_ready (suc fuel) at now q list =
      if ops.size q == 0 then done (list, q) else elim (ops.top q) [
        | none ↦ fault
        | some p ↦
            let list' = if (at p).closed then list else list ++ p ∷ [] in
            let rest = get_ready fuel at now (ops.pop (timer_less at) q) list' in
            if less now (at p).timeout.next then done (list, q) else rest
      ]

  unfoldable pub get_ready_timers : ℕ → Timestamp → Timers Q → Run (List ℕ × Timers Q)
  unfolding get_ready
  get_ready_timers fuel now ts = do
    (list, q) ← get_ready fuel ts.at now ts.heap []
    done (list, record ts { heap = q })

  -- `run_handler` is what a handler does, whose exceptions are caught.
  module _ (run_handler : ℕ → ℕ → Timestamp → Timers Q → Timers Q) where
    unfoldable pub on_events : ℕ → Timestamp → Timers Q → Timers Q
    on_events p now ts = elim (ts.at p).handler [
      | none ↦ ts
      | some h ↦ run_handler h p now (record ts { calls = ts.calls ++ (p, now) ∷ [] })
    ]

    -- What follows the handler.
    unfoldable pub requeue : ℕ → Timers Q → Timers Q
    unfolding timer_less close
    requeue p ts =
        let t = ts.at p in
        let at = put p (record t { timeout = update t.timeout }) ts.at in
        if t.closed
        then ts
        else if persist t.timeout
        then record ts { at = at; heap = ops.push (timer_less at) p ts.heap }
        else record ts { at = put p (close t) ts.at }

    unfoldable pub process_timer : ℕ → Timestamp → Timers Q → Timers Q
    unfolding on_events requeue
    process_timer p now ts = if (ts.at p).closed then ts else requeue p (on_events p now ts)

    unfoldable pub process_ready_timers : List ℕ → Timestamp → Timers Q → Timers Q
    unfolding process_timer
    process_ready_timers [] now ts = ts
    process_ready_timers (p ∷ ps) now ts = process_ready_timers ps now (process_timer p now ts)
