-- ===== src/TimerQueue/Delay.antt =====
-- `min_delay` of libkngin/detail/core/event/timer_queue.cpp, which the loop waits for, against the
-- timers that are taken when that time has passed.
use mathlib.Core.Path.{subst, ap₂}
use mathlib.Core.List.{Mem, mem-cons_self}
use mathlib.Core.List.Perm
use libkngin.Base.{
  ℕ, ◌<◌, ◌≡◌, refl, sym, ap, ◌∙◌, false, List, [], ◌∷◌, some, inl, inr, arith, ◌==◌, length,
}
use libkngin.Base.Int.{ℤ, pos, negsuc, sub_ℕ, ltb_ℤ, ◌+ℤ◌}
use libkngin.Base.Run.{done}
use libkngin.PriorityQueue.{Ops, Laws}
use libkngin.Timestamp.{Timestamp, timestamp, less, plus, zero_time}
use libkngin.Timeout.{Timeout, timed_out, remaining}
use libkngin.Timeout.Laws.{remaining-timed_out, shift-order}
use libkngin.TimerQueue.{Timers, timer_less, min_delay, get_ready_timers}
use libkngin.TimerQueue.Order.{timer_less-IsWeakOrder}
use libkngin.TimerQueue.Ready.{open_of, IsSplit, empty-or-top, get_ready_timers_lem}

add_zero : (a : ℤ) → (a +ℤ pos 0) ≡ a
unfolding ◌+ℤ◌
add_zero (pos n) = ground arith
add_zero (negsuc n) = ground arith

add_comm : (a b : ℤ) → (a +ℤ b) ≡ (b +ℤ a)
unfolding ◌+ℤ◌
add_comm a b = ap₂ sub_ℕ (omega arith) (omega arith)

plus-zero : (a : Timestamp) → plus a zero_time ≡ a
unfolding plus
plus-zero a = ap timestamp (add_zero a.ms)

-- When the time that remains has passed, the timeout has expired.
expires : (t : Timeout) (now : Timestamp) → less (plus now (remaining t now)) t.next ≡ false
unfolding timed_out
expires t now = elim (remaining-timed_out t now) [
  | inl (e, z) ↦ rw (z, plus-zero) (ground arith)
  | inr (e, l, n) ↦ rw n (ground arith)
]

remaining_mono :
    (t u : Timeout) (now : Timestamp)
    → less u.next t.next ≡ false
    → less (remaining u now) (remaining t now) ≡ false
unfolding timed_out plus
remaining_mono t u now h = elim (remaining-timed_out t now) [
  | inl (e, z) ↦ elim (remaining-timed_out u now) [
    | inl (f, y) ↦ rw (z, y) refl
    | inr (f, l, n) ↦ rw z (ground arith)
  ]
  | inr (e, l, n) ↦ elim (remaining-timed_out u now) [
    | inl (f, y) ↦ absurd (ground arith)
    | inr (f, k, m) ↦
        shift-order (remaining u now).ms (remaining t now).ms now.ms
        ∙ ap₂ ltb_ℤ (add_comm (remaining u now).ms now.ms) (add_comm (remaining t now).ms now.ms)
        ∙ ap₂ less m n
        ∙ h
  ]
]

module _ {Q : Type 0} (ops : Ops Q) (laws : Laws Q ops) where
  min_delay-top :
      (max now : Timestamp) (ts : Timers Q) (p : ℕ)
      → (ops.size ts.heap == 0) ≡ false
      → ops.top ts.heap ≡ some p
      → min_delay ops max now ts ≡ remaining (ts.at p).timeout now
  unfolding min_delay
  min_delay-top max now ts p e t = rw (e, t, min_delay) refl

  -- Of an ordered heap that is not empty, `min_delay` is the least of the times that remain to its
  -- timers, and it is the time of one of them, which expires when that time has passed.
  pub min_delay_lem :
      (max now : Timestamp) (ts : Timers Q) (x : ℕ) (xs : List ℕ)
      → laws.IsHeap (timer_less ts.at) ts.heap
      → laws.items ts.heap ≡ x ∷ xs
      → (p : ℕ) × (ops.top ts.heap ≡ some p)
        × (min_delay ops max now ts ≡ remaining (ts.at p).timeout now)
        × (less (plus now (min_delay ops max now ts)) (ts.at p).timeout.next ≡ false)
        × ((q : ℕ)
            → Mem q (laws.items ts.heap)
            → less (remaining (ts.at q).timeout now) (min_delay ops max now ts) ≡ false)
  unfolding timer_less
  min_delay_lem max now ts x xs h e = elim (empty-or-top ops laws ts.heap) [
    | inl (s, n) ↦ absurd (omega (arith, ap length (sym n ∙ e)))
    | inr (p, s, t) ↦
        let d = min_delay-top max now ts p s t in
        (
          p,
          t,
          d,
          ap (λ (y : Timestamp). less (plus now y) (ts.at p).timeout.next) d
              ∙ expires (ts.at p).timeout now,
          λ q m.
              ap (λ (y : Timestamp). less (remaining (ts.at q).timeout now) y) d
              ∙ remaining_mono (ts.at p).timeout (ts.at q).timeout now (
                  laws.top-greatest (timer_less ts.at) (timer_less-IsWeakOrder ts.at) ts.heap p q h
                    t m),
        )
  ]

  late-again :
      (ts : Timers Q) (p : ℕ) (t now : Timestamp)
      → less now t ≡ false
      → less t (ts.at p).timeout.next ≡ false
      → less now (ts.at p).timeout.next ≡ false
  late-again ts p t now h k = ground arith

  due-some :
      (now : Timestamp) (ts : Timers Q) (p : ℕ) (due : List ℕ) (q' : Q)
      → ops.top ts.heap ≡ some p
      → less now (ts.at p).timeout.next ≡ false
      → Mem p (laws.items ts.heap)
      → IsSplit ops laws ts.at now ts.heap due q'
      → (x : ℕ) × (xs : List ℕ) × (due ≡ x ∷ xs)
  due-some now ts p [] q' t l m s = cc (l, s.late p ((Perm.mem_iff s.same).1 m))
  due-some now ts p (x ∷ xs) q' t l m s = (x, xs, refl)

  -- When at least `min_delay` has passed since it was asked for, `get_ready_timers` takes some timer
  -- from the heap, which was ordered and not empty.
  pub get_ready-min_delay :
      (max now later : Timestamp) (ts : Timers Q) (x : ℕ) (xs : List ℕ) (fuel : ℕ)
      → laws.IsHeap (timer_less ts.at) ts.heap
      → laws.items ts.heap ≡ x ∷ xs
      → less later (plus now (min_delay ops max now ts)) ≡ false
      → length (laws.items ts.heap) < fuel
      → (p : ℕ) × (due : List ℕ) × (q' : Q) × (get_ready_timers ops fuel later ts
          ≡ done (open_of ts.at (p ∷ due), record ts { heap = q' }))
        × IsSplit ops laws ts.at later ts.heap (p ∷ due) q'
  get_ready-min_delay max now later ts x xs fuel h e l f =
      let (p, t, d, k, least) = min_delay_lem max now ts x xs h e in
      let (due, q', r, s) = get_ready_timers_lem ops laws fuel later ts h f in
      let top : Mem p (laws.items ts.heap) =
        (Perm.mem_iff
            (laws.pop_lem (timer_less ts.at) (timer_less-IsWeakOrder ts.at) ts.heap p h t).1).0
          mem-cons_self in
      let late = late-again ts p (plus now (min_delay ops max now ts)) later l k in
      let (y, ys, same) = due-some later ts p due q' t late top s in
      (
        y,
        ys,
        q',
        r ∙ ap (λ (z : List ℕ). done (open_of ts.at z, record ts { heap = q' })) same,
        subst (λ z. IsSplit ops laws ts.at later ts.heap z q') same s,
      )
