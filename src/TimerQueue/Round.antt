-- ===== src/TimerQueue/Round.antt =====
-- A round of timers, `get_ready_timers` and then `process_ready_timers` of
-- libkngin/detail/core/event/timer_queue.cpp, and the invariant of the queue.
use mathlib.Core.List.{Perm}
use mathlib.Core.List.Perm
use libkngin.Base.{
  ℕ, ◌<◌, ◌≡◌, refl, ap, true, false, not, ◌&&◌, List, [], ◌∷◌, Option, inl, inr, arith, ◌==◌,
  if◌then◌else◌, length, Bool-cases, ==_iff, mem, Distinct,
}
use libkngin.Base.Permutations.{Distinct-Perm, Distinct-parts, Distinct-append}
use libkngin.Base.Run.{done}
use libkngin.PriorityQueue.{Ops, Laws}
use libkngin.Timestamp.{Timestamp}
use libkngin.TimerQueue.{
  Timer, Timers, put, monotonic_timer, timer_less, insert, get_ready_timers, process_ready_timers,
}
use libkngin.TimerQueue.Order.{timer_less-IsWeakOrder, put-IsHeap}
use libkngin.TimerQueue.Ready.{open_of, IsSplit, get_ready_timers_lem}
use libkngin.TimerQueue.Renew.{all_back, IsProcessed}
use libkngin.TimerQueue.Process.{process_ready_timers_lem}

pub mem-open_of :
    (at : ℕ → Timer) (q : ℕ) (l : List ℕ) → mem q (open_of at l) ≡ (mem q l && not (at q).closed)
mem-open_of at q [] = refl
mem-open_of at q (p ∷ l) = elim (Bool-cases (p == q)) [
  | inl e ↦
      let c : (at p).closed ≡ (at q).closed = ap (λ (x : ℕ). (at x).closed) ((==_iff p q).0 e) in
      ground (arith, mem-open_of at q l)
  | inr e ↦ ground (arith, mem-open_of at q l)
]

pub Distinct-open_of : (at : ℕ → Timer) (l : List ℕ) → Distinct l → Distinct (open_of at l)
Distinct-open_of at [] d = tt
Distinct-open_of at (p ∷ l) d =
    let m = mem-open_of at p l in let r = Distinct-open_of at l d.1 in ground arith

mem-all_back :
    (at : ℕ → Timer) (q : ℕ) (l : List ℕ) → mem q l ≡ false → mem q (all_back at l) ≡ false
mem-all_back at q [] n = refl
mem-all_back at q (p ∷ l) n = ground (arith, mem-all_back at q l)

mem_of-all_back :
    (at : ℕ → Timer) (q : ℕ) (l : List ℕ) → mem q (all_back at l) ≡ true → mem q l ≡ true
mem_of-all_back at q l h = elim (Bool-cases (mem q l)) [
  | inl e ↦ e
  | inr e ↦ cc (h, mem-all_back at q l e)
]

Distinct-all_back : (at : ℕ → Timer) (l : List ℕ) → Distinct l → Distinct (all_back at l)
Distinct-all_back at [] d = tt
Distinct-all_back at (p ∷ l) d =
    let m = mem-all_back at p l d.0 in let r = Distinct-all_back at l d.1 in ground arith

module _ {Q : Type 0} (ops : Ops Q) (laws : Laws Q ops) where
  -- The heap is ordered by expiry, and holds no timer twice.
  pub record IsValid (ts : Timers Q) : Type 0 where
    pub heap : laws.IsHeap (timer_less ts.at) ts.heap
    pub distinct : Distinct (laws.items ts.heap)

  -- `insert` of a timer that is not in the heap adds that timer, as its constructor makes it, to the
  -- heap of a valid queue, leaves every other timer as it is, and the queue stays valid.
  pub insert_lem :
      (p : ℕ) (initval interval : Timestamp) (handler : Option ℕ) (ts : Timers Q)
      → IsValid ts
      → mem p (laws.items ts.heap) ≡ false
      → IsValid (insert ops p initval interval handler ts)
        × Perm (laws.items (insert ops p initval interval handler ts).heap) (p ∷ laws.items ts.heap)
        × ((q : ℕ)
            → (insert ops p initval interval handler ts).at q
              ≡ (if q == p then monotonic_timer handler initval interval else ts.at q))
  unfolding insert
  insert_lem p initval interval handler ts v n =
      let t = monotonic_timer handler initval interval in
      let at = put p t ts.at in
      let pushed =
        laws.push_lem (timer_less at) (timer_less-IsWeakOrder at) ts.heap p
          (put-IsHeap ops laws p t ts.at ts.heap n v.heap) in
      (
        record { heap = pushed.0; distinct = Distinct-Perm (Perm.symm pushed.1) (n, v.distinct) },
        pushed.1,
        λ q. refl,
      )

  module _ (run_handler : ℕ → ℕ → Timestamp → Timers Q → Timers Q) (now now' : Timestamp)
      (quiet : (h p : ℕ) (ts : Timers Q) → run_handler h p now' ts ≡ ts) where
    -- With handlers that leave the queue alone, a round of a valid queue splits the heap into the
    -- timers that are due and those that are not, calls and renews the due ones that are open in the
    -- order of their expiry, and leaves a valid queue.
    pub round_lem :
        (fuel : ℕ) (ts : Timers Q)
        → IsValid ts
        → length (laws.items ts.heap) < fuel
        → (due : List ℕ) × (q' : Q) × (ts' : Timers Q) × (get_ready_timers ops fuel now ts
            ≡ done (open_of ts.at due, record ts { heap = q' }))
          × (process_ready_timers ops run_handler (open_of ts.at due) now' (record ts { heap = q' })
              ≡ ts')
          × IsSplit ops laws ts.at now ts.heap due q'
          × IsProcessed ops laws now' (open_of ts.at due) (record ts { heap = q' }) ts'
          × IsValid ts'
    round_lem fuel ts v f =
        let (due, q', e, s) = get_ready_timers_lem ops laws fuel now ts v.heap f in
        let (d, rest, apart) =
          Distinct-parts due (laws.items q') (Distinct-Perm (Perm.symm s.same) v.distinct) in
        let list = open_of ts.at due in
        let listed : (q : ℕ) → mem q list ≡ true → mem q due ≡ true =
          λ q m. ground (arith, mem-open_of ts.at q due) in
        let r =
          process_ready_timers_lem ops laws run_handler now' quiet list (record ts { heap = q' })
            (Distinct-open_of ts.at due d) s.heap (λ q m. apart q (listed q m)) in
        (
          due,
          q',
          process_ready_timers ops run_handler list now' (record ts { heap = q' }),
          e,
          refl,
          s,
          r,
          record {
            heap = r.heap;
            distinct = Distinct-Perm (Perm.symm r.items) (
                Distinct-append (all_back ts.at list) (laws.items q')
                  (Distinct-all_back ts.at list (Distinct-open_of ts.at due d)) rest
                  (λ q m. apart q (listed q (mem_of-all_back ts.at q list m))));
          },
        )
