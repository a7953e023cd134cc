-- ===== src/TimerQueue/Process.antt =====
-- What `process_ready_timers` of libkngin/detail/core/event/timer_queue.cpp does to the timers of
-- its list, with handlers that leave the queue alone.
use mathlib.Core.Bool.{false≢true}
use mathlib.Core.Path.{subst}
use mathlib.Core.List.{Perm}
use mathlib.Core.List.Perm
use libkngin.Base.{
  ℕ, ◌≡◌, refl, sym, ap, ◌∙◌, true, false, List, [], ◌∷◌, ◌++◌, inl, inr, ==_iff, arith, ◌==◌,
  Bool-cases, Option-cases, append-nil, mem, Distinct,
}
use libkngin.Base.Permutations.{mem-Perm}
use libkngin.PriorityQueue.{Ops, Laws}
use libkngin.Timestamp.{Timestamp}
use libkngin.Timeout.{persist}
use libkngin.TimerQueue.{
  Timers, put, timer_less, on_events, requeue, process_timer, process_ready_timers,
}
use libkngin.TimerQueue.Order.{timer_less-IsWeakOrder, put-IsHeap}
use libkngin.TimerQueue.Renew.{
  renewed, renewed-closed, call_of, back_of-persist, back_of-once, IsStep, IsProcessed, mem-back,
  chain,
}

module _ {Q : Type 0} (ops : Ops Q) (laws : Laws Q ops)
    (run_handler : ℕ → ℕ → Timestamp → Timers Q → Timers Q) (now : Timestamp)
    (quiet : (h p : ℕ) (ts : Timers Q) → run_handler h p now ts ≡ ts) where
  called : ℕ → Timers Q → Timers Q
  called p ts = record ts { calls = ts.calls ++ call_of ts.at p now }

  on_events-called :
      (p : ℕ) (ts : Timers Q)
      → (ts.at p).closed ≡ false
      → on_events ops run_handler p now ts ≡ called p ts
  unfolding on_events called
  on_events-called p ts c = elim (Option-cases (ts.at p).handler) [
    | inl e ↦ rw (e, on_events, c, append-nil) refl
    | inr (h, e) ↦
        rw (e, on_events, c) (quiet h p (record ts { calls = ts.calls ++ (p, now) ∷ [] }))
  ]

  -- The three cases of a timer.
  module _ (p : ℕ) (ts : Timers Q) where
    process-closed : (ts.at p).closed ≡ true → process_timer ops run_handler p now ts ≡ ts
    unfolding process_timer
    process-closed c = rw c refl

    abbrev put_back : Timers Q
    put_back =
        let at = put p (renewed (ts.at p)) ts.at in
        record (called p ts) { at = at; heap = ops.push (timer_less at) p ts.heap }

    process-open :
        (ts.at p).closed ≡ false
        → process_timer ops run_handler p now ts ≡ requeue ops run_handler p (called p ts)
    unfolding process_timer
    process-open c =
        rw c (ap (λ (x : Timers Q). requeue ops run_handler p x) (on_events-called p ts c))

    process-persist :
        (ts.at p).closed ≡ false
        → persist (ts.at p).timeout ≡ true
        → process_timer ops run_handler p now ts ≡ put_back
    unfolding requeue called renewed
    process-persist c e = process-open c ∙ rw (c, e) refl

    process-once :
        (ts.at p).closed ≡ false
        → persist (ts.at p).timeout ≡ false
        → process_timer ops run_handler p now ts
          ≡ record (called p ts) { at = put p (renewed (ts.at p)) ts.at }
    unfolding requeue called renewed
    process-once c e = process-open c ∙ rw (c, e) refl

  process_timer-IsStep :
      (p : ℕ) (ts : Timers Q)
      → laws.IsHeap (timer_less ts.at) ts.heap
      → mem p (laws.items ts.heap) ≡ false
      → IsStep ops laws now p ts (process_timer ops run_handler p now ts)
  unfolding called
  process_timer-IsStep p ts h n = elim (Bool-cases (ts.at p).closed) [
    | inl c ↦ subst (IsStep ops laws now p ts) (sym (process-closed p ts c)) (record {
      at = λ q. elim (Bool-cases (q == p)) [
        | inl e ↦
            let same : q ≡ p = (==_iff q p).0 e in rw (e, same) (sym (renewed-closed (ts.at p) c))
        | inr e ↦ rw e refl
      ];
      calls = rw (c, append-nil) refl;
      items = rw c (Perm.refl _);
      heap = h;
    })
    | inr c ↦ elim (Bool-cases (persist (ts.at p).timeout)) [
      | inl e ↦
          let at' = put p (renewed (ts.at p)) ts.at in
          let pushed =
            laws.push_lem (timer_less at') (timer_less-IsWeakOrder at') ts.heap p
              (put-IsHeap ops laws p (renewed (ts.at p)) ts.at ts.heap n h) in
          subst (IsStep ops laws now p ts) (sym (process-persist p ts c e)) (record {
            at = λ q. refl;
            calls = refl;
            items =
                subst
                  (λ (l : List ℕ).
                    Perm (laws.items (ops.push (timer_less at') p ts.heap))
                      (l ++ laws.items ts.heap))
                  (sym (back_of-persist ts.at p c e)) pushed.1;
            heap = pushed.0;
          })
      | inr e ↦ subst (IsStep ops laws now p ts) (sym (process-once p ts c e)) (record {
        at = λ q. refl;
        calls = refl;
        items =
            subst (λ (l : List ℕ). Perm (laws.items ts.heap) (l ++ laws.items ts.heap))
              (sym (back_of-once ts.at p c e)) (Perm.refl _);
        heap = put-IsHeap ops laws p (renewed (ts.at p)) ts.at ts.heap n h;
      })
    ]
  ]

  not-in-back :
      (p : ℕ) (ps : List ℕ) (ts ts1 : Timers Q)
      → mem p ps ≡ false
      → IsStep ops laws now p ts ts1
      → ((q : ℕ) → mem q (p ∷ ps) ≡ true → mem q (laws.items ts.heap) ≡ false)
      → (q : ℕ) → mem q ps ≡ true
      → mem q (laws.items ts1.heap) ≡ false
  not-in-back p ps ts ts1 n s h q m = elim (Bool-cases (q == p)) [
    | inl e ↦
        let same : q ≡ p = (==_iff q p).0 e in
        absurd (false≢true (sym n ∙ ap (λ (x : ℕ). mem x ps) (sym same) ∙ m))
    | inr e ↦ mem-Perm q s.items ∙ mem-back ts.at p q (laws.items ts.heap) e ∙ h q (ground arith)
  ]

  -- Of different timers that are not in the ordered heap, `process_ready_timers` calls the handler
  -- of each that is open, once and in their order, with `now`; a periodic one expires a period after
  -- its old expiry and goes back to the heap, each other one is closed; no other timer changes, and
  -- the heap is left ordered, by the new expiries, with these timers and what it held. The handlers
  -- leave the queue alone.
  pub process_ready_timers_lem :
      (ps : List ℕ) (ts : Timers Q)
      → Distinct ps
      → laws.IsHeap (timer_less ts.at) ts.heap
      → ((q : ℕ) → mem q ps ≡ true → mem q (laws.items ts.heap) ≡ false)
      → IsProcessed ops laws now ps ts (process_ready_timers ops run_handler ps now ts)
  unfolding process_ready_timers
  process_ready_timers_lem [] ts d h out = record {
    at = λ q. refl;
    calls = sym (append-nil ts.calls);
    items = Perm.refl _;
    heap = h;
  }
  process_ready_timers_lem (p ∷ ps) ts d h out =
      let ts1 = process_timer ops run_handler p now ts in
      let s = process_timer-IsStep p ts h (out p (ground arith)) in
      chain ops laws now p ps ts ts1 (process_ready_timers ops run_handler ps now ts1) d.0 s
        (process_ready_timers_lem ps ts1 d.1 s.heap (not-in-back p ps ts ts1 d.0 s out))
