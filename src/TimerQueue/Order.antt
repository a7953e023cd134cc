-- ===== src/TimerQueue/Order.antt =====
-- The order of timers by their expiry, `timer_less` of libkngin/detail/core/event/timer_queue.h.
use mathlib.Core.Bool.{false≢true}
use mathlib.Core.Path.{ap₂}
use mathlib.Core.List.{Mem}
use libkngin.Base.{
  ℕ, ◌≡◌, refl, sym, ◌∙◌, ap, false, inl, inr, List, mem, ==_iff, ◌==◌, Bool-cases, arith,
}
use libkngin.Base.Permutations.{mem_of-Mem}
use libkngin.Base.Int.{ℤ, ◌≤ℤ◌}
use libkngin.PriorityQueue.{IsWeakOrder, Ops, Laws}
use libkngin.Timestamp.{Timestamp, less}
use libkngin.TimerQueue.{Timer, put, timer_less}

pub timer_less-IsWeakOrder : (at : ℕ → Timer) → IsWeakOrder (timer_less at)
unfolding timer_less
timer_less-IsWeakOrder at = record {
  asym = λ x y h. ground arith;
  neg_trans = λ x y z h k. ground arith;
}

-- The instants at which timers expire.
abbrev pub next_of : (ℕ → Timer) → ℕ → ℤ
next_of at p = (at p).timeout.next.ms

pub not-timer_less :
    (at : ℕ → Timer) (p q : ℕ) → timer_less at p q ≡ false → next_of at p ≤ℤ next_of at q
unfolding timer_less
not-timer_less at p q h = ground arith

pub not-less : (now t : Timestamp) → less now t ≡ false → t.ms ≤ℤ now.ms
not-less now t h = ground arith

put-other :
    (p x : ℕ) (t : Timer) (at : ℕ → Timer) (l : List ℕ)
    → mem p l ≡ false
    → Mem x l
    → put p t at x ≡ at x
put-other p x t at l n m =
    let differ : (x == p) ≡ false = elim (Bool-cases (x == p)) [
      | inl e ↦
          let same : x ≡ p = (==_iff x p).0 e in
          absurd (false≢true (sym n ∙ ap (λ (y : ℕ). mem y l) (sym same) ∙ mem_of-Mem x m))
      | inr e ↦ e
    ] in
    rw differ refl

module _ {Q : Type 0} (ops : Ops Q) (laws : Laws Q ops) where
  -- A timer that is not in the heap may change.
  pub put-IsHeap :
      (p : ℕ) (t : Timer) (at : ℕ → Timer) (q : Q)
      → mem p (laws.items q) ≡ false
      → laws.IsHeap (timer_less at) q
      → laws.IsHeap (timer_less (put p t at)) q
  unfolding timer_less
  put-IsHeap p t at q n h =
      laws.agree (timer_less at) (timer_less (put p t at)) q
        (λ x y m k.
          ap₂ (λ (a b : Timer). less b.timeout.next a.timeout.next)
            (sym (put-other p x t at (laws.items q) n m))
            (sym (put-other p y t at (laws.items q) n k)))
        h
