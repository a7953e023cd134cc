-- ===== src/EventLoop/Timers.antt =====
-- Timers of libkngin/detail/core/event/event_loop.cpp, from `run_after` and `run_every` to the round
-- of timers that calls their handlers.
use mathlib.Core.Path.{ap₂}
use libkngin.Base.{
  ℕ, ◌+◌, ◌<◌, ◌≡◌, refl, ap, ◌∙◌, Bool, true, false, not, ◌&&◌, ◌||◌, List, Option, some, inl, inr,
  arith, if◌then◌else◌, length, Bool-cases, ==_iff, mem, ◌||◌,
}
use libkngin.Base.Permutations.{length-Perm, mem-Perm}
use libkngin.Base.Run.{Run, done, ◌>>=◌}
use libkngin.PriorityQueue.{Ops, Laws}
use libkngin.Timestamp.{Timestamp, less, plus, to_bool, zero_time}
use libkngin.Timeout.{persist, update}
use libkngin.TimerQueue.{
  Timer, Timers, monotonic_timer, close, insert, get_ready_timers, process_ready_timers,
}
use libkngin.TimerQueue.Cancel.{calls_for}
use libkngin.TimerQueue.Renew.{renewed}
use libkngin.TimerQueue.Round.{IsValid, insert_lem}
use libkngin.TimerQueue.Fire.{round-fires}
use libkngin.EventLoop.{Loop}
use libkngin.EventLoop.Timed.{
  Rest, Readings, with_timers, wakeup, run_after, run_every, process_timers,
}

wakeup-timerq :
    {Q : Type 0} (inside : Bool) (l : Loop (Rest Q)) → (wakeup inside l).rest.timerq ≡ l.rest.timerq
unfolding wakeup
wakeup-timerq inside l = elim (Bool-cases (l.looping && not inside)) [
  | inl e ↦ rw e refl
  | inr e ↦ rw e refl
]

insert-calls :
    {Q : Type 0} (ops : Ops Q) (p : ℕ) (initval interval : Timestamp) (handler : Option ℕ)
    (ts : Timers Q)
    → (insert ops p initval interval handler ts).calls ≡ ts.calls
unfolding insert
insert-calls ops p initval interval handler ts = refl

monotonic_timer-closed :
    (h : Option ℕ) (initval interval : Timestamp)
    → (monotonic_timer h initval interval).closed ≡ false
unfolding monotonic_timer
monotonic_timer-closed h initval interval = refl

monotonic_timer-handler :
    (h : Option ℕ) (initval interval : Timestamp) → (monotonic_timer h initval interval).handler ≡ h
unfolding monotonic_timer
monotonic_timer-handler h initval interval = refl

module _ {Q : Type 0} (ops : Ops Q) (laws : Laws Q ops)
    (run_handler : ℕ → ℕ → Timestamp → Timers Q → Timers Q) (clock : Readings)
    (quiet : (h p : ℕ) (ts : Timers Q) → run_handler h p clock.at_handlers ts ≡ ts) where
  -- What a round of timers has done to a timer that expires at `next`, as `t` has been set.
  record IsFired (p : ℕ) (t : Timer) (ts ts2 : Timers Q) : Type 0 where
    calls :
        calls_for p ts2.calls
        ≡ calls_for p ts.calls + (if less clock.at_ready t.timeout.next then 0 else 1)
    at : ts2.at p ≡ (if less clock.at_ready t.timeout.next then t else renewed t)
    member : mem p (laws.items ts2.heap) ≡ (less clock.at_ready t.timeout.next || persist t.timeout)

  process_timers-insert :
      (fuel p h : ℕ) (initval interval : Timestamp) (l : Loop (Rest Q)) (l1 : Loop (Rest Q))
      → l1.rest.timerq ≡ insert ops p initval interval (some h) l.rest.timerq
      → IsValid ops laws l.rest.timerq
      → mem p (laws.items l.rest.timerq.heap) ≡ false
      → length (laws.items l.rest.timerq.heap) + 1 < fuel
      → (l2 : Loop (Rest Q)) × (process_timers ops run_handler fuel clock l1 ≡ done l2)
        × IsValid ops laws l2.rest.timerq
        × IsFired p (monotonic_timer (some h) initval interval) l.rest.timerq l2.rest.timerq
  unfolding process_timers
  process_timers-insert fuel p h initval interval l l1 e v n f =
      let ts = insert ops p initval interval (some h) l.rest.timerq in
      let t = monotonic_timer (some h) initval interval in
      let (v1, items, at) = insert_lem ops laws p initval interval (some h) l.rest.timerq v n in
      let same : ts.at p ≡ t =
        at p ∙ ap (λ (b : Bool). if b then t else l.rest.timerq.at p) ((==_iff p p).1 refl) in
      let inserted : ts.calls ≡ l.rest.timerq.calls =
        insert-calls ops p initval interval (some h) l.rest.timerq in
      let (list, ts1, ts2, got, processed, v2, calls, at2, member) =
        round-fires ops laws run_handler clock.at_ready clock.at_handlers quiet fuel ts p h v1
          (omega (arith, length-Perm items)) (mem-Perm p items ∙ ground arith)
          (ap (λ (x : Timer). x.closed) same ∙ monotonic_timer-closed (some h) initval interval)
          (ap (λ (x : Timer). x.handler) same
            ∙ monotonic_timer-handler (some h) initval interval) in
      let next : Timer → Bool = λ x. less clock.at_ready x.timeout.next in
      let run : Timers Q → Run (Loop (Rest Q)) = λ x.
        get_ready_timers ops fuel clock.at_ready x >>= (λ r. done (record l1 {
          rest = record (l1.rest) {
            timerq = process_ready_timers ops run_handler r.0 clock.at_handlers r.1;
            ready = r.0;
          };
        })) in
      (
        record l1 { rest = record (l1.rest) { timerq = ts2; ready = list } },
        ap run e
            ∙ ap
                (λ (r : Run (List ℕ × Timers Q)). r >>= (λ r. done (record l1 {
                  rest = record (l1.rest) {
                    timerq = process_ready_timers ops run_handler r.0 clock.at_handlers r.1;
                    ready = r.0;
                  };
                })))
                got
            ∙ ap
                (λ (x : Timers Q).
                  done (record l1 { rest = record (l1.rest) { timerq = x; ready = list } }))
                processed,
        v2,
        record {
          calls =
              calls
              ∙ ap₂ (λ (n : ℕ) (x : Timer). n + (if next x then 0 else 1))
                  (ap (calls_for p) inserted) same;
          at = at2 ∙ ap (λ (x : Timer). if next x then x else renewed x) same;
          member = member ∙ ap (λ (x : Timer). next x || persist x.timeout) same;
        },
      )

  -- A round of timers behind `run_after`, of a timer that is new to a valid queue, with handlers
  -- that leave the queue alone, returns with enough fuel and keeps the queue valid: if the round
  -- reads the clock before `now + delay`, the handler of the timer is not called, and the timer
  -- stays open and in the heap; otherwise the handler is called once, and the timer is closed and
  -- out of the heap.
  pub run_after-process_timers :
      (inside : Bool) (fuel p h : ℕ) (now delay : Timestamp) (l : Loop (Rest Q))
      → IsValid ops laws l.rest.timerq
      → mem p (laws.items l.rest.timerq.heap) ≡ false
      → length (laws.items l.rest.timerq.heap) + 1 < fuel
      → (l2 : Loop (Rest Q)) × (process_timers ops run_handler fuel clock
            (run_after ops inside p now delay (some h) l)
          ≡ done l2)
        × IsValid ops laws l2.rest.timerq
        × (calls_for p l2.rest.timerq.calls
            ≡ calls_for p l.rest.timerq.calls
              + (if less clock.at_ready (plus now delay) then 0 else 1))
        × ((l2.rest.timerq.at p).closed ≡ not (less clock.at_ready (plus now delay)))
        × (mem p (laws.items l2.rest.timerq.heap) ≡ less clock.at_ready (plus now delay))
  unfolding run_after monotonic_timer renewed close
  run_after-process_timers inside fuel p h now delay l v n f =
      let ts = insert ops p (plus now delay) zero_time (some h) l.rest.timerq in
      let (l2, e, v2, r) =
        process_timers-insert fuel p h (plus now delay) zero_time l
          (wakeup inside (with_timers ts l)) (wakeup-timerq inside (with_timers ts l)) v n f in
      (
        l2,
        e,
        v2,
        r.calls,
        ap (λ (t : Timer). t.closed) r.at ∙ ground arith,
        r.member ∙ ground arith,
      )

  -- A round of timers behind `run_every` with a period that is not 0, of a timer that is new to a
  -- valid queue, with handlers that leave the queue alone, returns with enough fuel and keeps the queue
  -- valid: the handler of the timer is called once unless the round reads the clock before
  -- `now + interval`, the timer stays open and in the heap, and when its handler has been called, its
  -- next expiry is one period behind the one that has passed.
  pub run_every-process_timers :
      (inside : Bool) (fuel p h : ℕ) (now interval : Timestamp) (l : Loop (Rest Q))
      → to_bool interval ≡ true
      → IsValid ops laws l.rest.timerq
      → mem p (laws.items l.rest.timerq.heap) ≡ false
      → length (laws.items l.rest.timerq.heap) + 1 < fuel
      → (l2 : Loop (Rest Q)) × (process_timers ops run_handler fuel clock
            (run_every ops inside p now interval (some h) l)
          ≡ done l2)
        × IsValid ops laws l2.rest.timerq
        × (calls_for p l2.rest.timerq.calls
            ≡ calls_for p l.rest.timerq.calls
              + (if less clock.at_ready (plus now interval) then 0 else 1))
        × ((l2.rest.timerq.at p).closed ≡ false)
        × ((l2.rest.timerq.at p).timeout.next ≡ (
            if less clock.at_ready (plus now interval)
            then plus now interval
            else plus (plus now interval) interval))
        × (mem p (laws.items l2.rest.timerq.heap) ≡ true)
  unfolding run_every monotonic_timer renewed update
  run_every-process_timers inside fuel p h now interval l i v n f =
      let ts = insert ops p (plus now interval) interval (some h) l.rest.timerq in
      let (l2, e, v2, r) =
        process_timers-insert fuel p h (plus now interval) interval l
          (wakeup inside (with_timers ts l)) (wakeup-timerq inside (with_timers ts l)) v n f in
      (
        l2,
        e,
        v2,
        r.calls,
        ap (λ (t : Timer). t.closed) r.at ∙ ground arith,
        ap (λ (t : Timer). t.timeout.next) r.at ∙ ground arith,
        r.member ∙ ground arith,
      )
