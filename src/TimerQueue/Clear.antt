-- ===== src/TimerQueue/Clear.antt =====
-- `clear` of libkngin/detail/core/event/timer_queue.cpp.
use libkngin.Base.{ℕ, zero, suc, ◌<◌, ◌≡◌, refl, ◌∙◌, false, [], inl, inr, arith, ◌==◌, length}
use libkngin.Base.Permutations.{length-Perm}
use libkngin.Base.Run.{done}
use libkngin.PriorityQueue.{Ops, Laws}
use libkngin.TimerQueue.{Timers, timer_less, clear_heap}
use libkngin.TimerQueue.Order.{timer_less-IsWeakOrder}
use libkngin.TimerQueue.Ready.{empty-or-top}

module _ {Q : Type 0} (ops : Ops Q) (laws : Laws Q ops) where
  clear_heap-empty :
      (fuel : ℕ) (ts : Timers Q) → ops.size ts.heap ≡ 0 → clear_heap ops (suc fuel) ts ≡ done ts
  unfolding clear_heap
  clear_heap-empty fuel ts e = rw e refl

  clear_heap-pop :
      (fuel : ℕ) (ts : Timers Q)
      → (ops.size ts.heap == 0) ≡ false
      → clear_heap ops (suc fuel) ts
        ≡ clear_heap ops fuel (record ts { heap = ops.pop (timer_less ts.at) ts.heap })
  unfolding clear_heap
  clear_heap-pop fuel ts e = rw e refl

  -- With fuel for more rounds than the ordered heap has timers, `clear` returns with an empty heap,
  -- and changes nothing else.
  pub clear_heap_lem :
      (fuel : ℕ) (ts : Timers Q)
      → laws.IsHeap (timer_less ts.at) ts.heap
      → length (laws.items ts.heap) < fuel
      → (q' : Q) × (clear_heap ops fuel ts ≡ done (record ts { heap = q' })) × (laws.items q' ≡ [])
  clear_heap_lem zero ts h f = absurd (omega arith)
  clear_heap_lem (suc fuel) ts h f = elim (empty-or-top ops laws ts.heap) [
    | inl (e, n) ↦ (ts.heap, clear_heap-empty fuel ts e, n)
    | inr (p, e, t) ↦
        let w = timer_less-IsWeakOrder ts.at in
        let popped = laws.pop_lem (timer_less ts.at) w ts.heap p h t in
        let (q', r, n) =
          clear_heap_lem fuel (record ts { heap = ops.pop (timer_less ts.at) ts.heap }) popped.0
            (omega (arith, length-Perm popped.1)) in
        (q', clear_heap-pop fuel ts e ∙ r, n)
  ]
