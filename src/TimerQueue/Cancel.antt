-- ===== src/TimerQueue/Cancel.antt =====
-- `remove` of libkngin/detail/core/event/timer_queue.cpp, and the calls of the handler of a timer.
use libkngin.Base.{
  ℕ, ◌+◌, ◌≡◌, ap, ◌∙◌, Bool, false, List, [], ◌∷◌, ◌++◌, none, arith, ◌==◌, if◌then◌else◌,
}
use libkngin.Base.Run.{done, fault}
use libkngin.PriorityQueue.{Ops}
use libkngin.Timestamp.{Timestamp, zero_time}
use libkngin.TimerQueue.{Timer, Timers, put, monotonic_timer, close, timer_less, sort, remove}

-- The calls of the handler of a timer.
abbrev pub calls_for : ℕ → List (ℕ × Timestamp) → ℕ
calls_for p [] = 0
calls_for p ((q, now) ∷ cs) = (if q == p then 1 else 0) + calls_for p cs

pub calls_for-append :
    (p : ℕ) (xs ys : List (ℕ × Timestamp))
    → calls_for p (xs ++ ys) ≡ calls_for p xs + calls_for p ys
calls_for-append p [] ys = omega arith
calls_for-append p ((q, now) ∷ cs) ys = omega (arith, calls_for-append p cs ys)

module _ {Q : Type 0} (ops : Ops Q) where
  sort-fault : (temp : ℕ) (ts : Timers Q) → (ts.at temp).closed ≡ false → sort ops temp ts ≡ fault
  unfolding sort
  sort-fault temp ts c =
      ap
        (λ (b : Bool).
          if b then done (record ts { heap = ops.push (timer_less ts.at) temp ts.heap }) else fault)
        c

  -- While the static timer of `sort` is as its constructor leaves it, with null arguments, `remove`
  -- of any other timer fails the assertion of `sort`.
  pub remove-fault :
      (temp p : ℕ) (ts : Timers Q)
      → (temp == p) ≡ false
      → ts.at temp ≡ monotonic_timer none zero_time zero_time
      → remove ops temp p ts ≡ fault
  unfolding remove monotonic_timer
  remove-fault temp p ts n e =
      sort-fault temp (record ts { at = put p (close (ts.at p)) ts.at })
        (ap (λ (b : Bool). (if b then close (ts.at p) else ts.at temp).closed) n
          ∙ ap (λ (t : Timer). t.closed) e)
