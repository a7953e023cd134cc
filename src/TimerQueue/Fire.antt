-- ===== src/TimerQueue/Fire.antt =====
-- What a round of timers does to one open timer, in libkngin/detail/core/event/timer_queue.cpp.
use mathlib.Core.List.Perm
use libkngin.Base.{
  ℕ, ◌+◌, ◌<◌, ◌≡◌, refl, sym, ap, ◌∙◌, true, false, not, ◌&&◌, ◌||◌, List, [], ◌∷◌, some, inl, inr,
  arith, ◌==◌, if◌then◌else◌, length, Bool-cases, Option-cases, mem-append, ==_iff, mem, Distinct,
}
use libkngin.Base.Permutations.{mem-Perm, Mem_of-mem, Distinct-Perm, Distinct-parts}
use libkngin.Base.Run.{done}
use libkngin.PriorityQueue.{Ops, Laws}
use libkngin.Timestamp.{Timestamp, less}
use libkngin.Timeout.{persist}
use libkngin.TimerQueue.{Timer, Timers, get_ready_timers, process_ready_timers}
use libkngin.TimerQueue.Ready.{open_of, IsSplit}
use libkngin.TimerQueue.Renew.{renewed, call_of, calls_of, back_of, all_back}
use libkngin.TimerQueue.Cancel.{calls_for, calls_for-append}
use libkngin.TimerQueue.Round.{mem-open_of, Distinct-open_of, IsValid, round_lem}

calls_for-other :
    (at : ℕ → Timer) (p x : ℕ) (now : Timestamp)
    → (x == p) ≡ false
    → calls_for p (call_of at x now) ≡ 0
calls_for-other at p x now n = elim (Bool-cases (at x).closed) [
  | inl c ↦ rw c refl
  | inr c ↦ elim (Option-cases (at x).handler) [
    | inl e ↦ rw (c, e) refl
    | inr (h, e) ↦ rw (c, e, n) refl
  ]
]

module _ (at : ℕ → Timer) (p h : ℕ) (now : Timestamp) (opened : (at p).closed ≡ false)
    (handled : (at p).handler ≡ some h) where
  calls_for_self : calls_for p (call_of at p now) ≡ 1
  calls_for_self = rw (opened, handled, (==_iff p p).1 refl) refl

  calls_for-calls_of :
      (l : List ℕ) → Distinct l → calls_for p (calls_of at l now) ≡ (if mem p l then 1 else 0)
  calls_for-calls_of [] d = refl
  calls_for-calls_of (x ∷ l) d =
      calls_for-append p (call_of at x now) (calls_of at l now) ∙ (elim (Bool-cases (x == p)) [
        | inl e ↦
            let same : x ≡ p = (==_iff x p).0 e in
            let out : mem p l ≡ false = ap (λ (y : ℕ). mem y l) (sym same) ∙ d.0 in
            let one = ap (λ (y : ℕ). calls_for p (call_of at y now)) same ∙ calls_for_self in
            ground (arith, calls_for-calls_of l d.1)
        | inr e ↦ ground (arith, calls_for-other at p x now e, calls_for-calls_of l d.1)
      ])

  mem-all_back : (l : List ℕ) → mem p (all_back at l) ≡ (mem p l && persist (at p).timeout)
  mem-all_back [] = refl
  mem-all_back (x ∷ l) = elim (Bool-cases (x == p)) [
    | inl e ↦
        let same = (==_iff x p).0 e in
        let self : mem p (back_of at p) ≡ persist (at p).timeout = ground arith in
        let one = ap (λ (y : ℕ). mem p (back_of at y)) same ∙ self in
        ground (arith, mem-append p (back_of at x) (all_back at l), mem-all_back l)
    | inr e ↦
        let other : mem p (back_of at x) ≡ false = ground arith in
        ground (arith, mem-append p (back_of at x) (all_back at l), mem-all_back l)
  ]

module _ {Q : Type 0} (ops : Ops Q) (laws : Laws Q ops) where
  -- A timer of the heap is among the due ones if it is due, and stays in the heap if not.
  split-mem :
      (at : ℕ → Timer) (now : Timestamp) (q q' : Q) (due : List ℕ) (p : ℕ)
      → IsSplit ops laws at now q due q'
      → Distinct (laws.items q)
      → mem p (laws.items q) ≡ true
      → (mem p due ≡ not (less now (at p).timeout.next))
        × (mem p (laws.items q') ≡ less now (at p).timeout.next)
  split-mem at now q q' due p s d m =
      let parts = Distinct-parts due (laws.items q') (Distinct-Perm (Perm.symm s.same) d) in
      let both : (mem p due || mem p (laws.items q')) ≡ true =
        sym (mem-append p due (laws.items q')) ∙ mem-Perm p s.same ∙ m in
      elim (Bool-cases (mem p due)) [
        | inl e ↦
            let early = s.early p (Mem_of-mem p due e) in
            (e ∙ ap not (sym early), parts.2 p e ∙ sym early)
        | inr e ↦
            let rest : mem p (laws.items q') ≡ true = ground arith in
            let late = s.late p (Mem_of-mem p (laws.items q') rest) in
            (e ∙ ap not (sym late), rest ∙ sym late)
      ]

  -- What a round does to an open timer `p` with a handler, which is in the heap of a valid queue: if
  -- it is due, its handler is called once and it is renewed; otherwise nothing happens to it. It is
  -- in the heap behind the round exactly if it was not due or is periodic.
  pub round-fires :
      (run_handler : ℕ → ℕ → Timestamp → Timers Q → Timers Q) (now now' : Timestamp)
      → ((h p : ℕ) (ts : Timers Q) → run_handler h p now' ts ≡ ts)
      → (fuel : ℕ) (ts : Timers Q) (p h : ℕ) → IsValid ops laws ts
      → length (laws.items ts.heap) < fuel
      → mem p (laws.items ts.heap) ≡ true
      → (ts.at p).closed ≡ false
      → (ts.at p).handler ≡ some h
      → (list : List ℕ) × (ts1 ts2 : Timers Q) × (get_ready_timers ops fuel now ts
          ≡ done (list, ts1))
        × (process_ready_timers ops run_handler list now' ts1 ≡ ts2)
        × IsValid ops laws ts2
        × (calls_for p ts2.calls
            ≡ calls_for p ts.calls + (if less now (ts.at p).timeout.next then 0 else 1))
        × (ts2.at p ≡ (if less now (ts.at p).timeout.next then ts.at p else renewed (ts.at p)))
        × (mem p (laws.items ts2.heap)
            ≡ (less now (ts.at p).timeout.next || persist (ts.at p).timeout))
  round-fires run_handler now now' quiet fuel ts p h v f m c e =
      let (due, q', ts2, got, processed, s, r, v2) =
        round_lem ops laws run_handler now now' quiet fuel ts v f in
      let list = open_of ts.at due in
      let (in_due, in_rest) = split-mem ts.at now ts.heap q' due p s v.distinct m in
      let d = Distinct-parts due (laws.items q') (Distinct-Perm (Perm.symm s.same) v.distinct) in
      let listed : mem p list ≡ not (less now (ts.at p).timeout.next) =
        mem-open_of ts.at p due ∙ ground arith in
      let once = calls_for-calls_of ts.at p h now' c e list (Distinct-open_of ts.at due d.0) in
      let back = mem-all_back ts.at p h now' c e list in
      (
        list,
        record ts { heap = q' },
        ts2,
        got,
        processed,
        v2,
        ap (calls_for p) r.calls
            ∙ calls_for-append p ts.calls (calls_of ts.at list now')
            ∙ ground arith,
        r.at p ∙ ground arith,
        mem-Perm p r.items ∙ mem-append p (all_back ts.at list) (laws.items q') ∙ ground arith,
      )
