-- ===== src/TimerQueue/Ready.antt =====
-- Which timers `get_ready_timers` of libkngin/detail/core/event/timer_queue.cpp takes from the heap.
use mathlib.Core.List.{Mem, Perm, Pairwise, not-mem-nil, mem-cons_of_mem, mem-append_left}
use mathlib.Core.Path.{subst}
use mathlib.Core.List.Perm
use libkngin.Base.{
  ℕ, zero, suc, ◌<◌, ◌≡◌, refl, sym, ap, ◌∙◌, true, false, List, [], ◌∷◌, ◌++◌, some, inl, inr, ◌⊎◌,
  arith, ◌==◌, if◌then◌else◌, length, Bool-cases, append-nil, append_assoc,
}
use libkngin.Base.Permutations.{length-Perm, forall-cons}
use libkngin.Base.Run.{done}
use libkngin.PriorityQueue.{Ops, Laws}
use libkngin.Timestamp.{Timestamp, less}
use libkngin.TimerQueue.{Timer, Timers, timer_less, get_ready, get_ready_timers}
use libkngin.TimerQueue.Order.{timer_less-IsWeakOrder}

-- The timers of a list that are not closed.
abbrev pub open_of : (ℕ → Timer) → List ℕ → List ℕ
open_of at [] = []
open_of at (p ∷ ps) = let rest = open_of at ps in if (at p).closed then rest else p ∷ rest

-- No timer of the list expires after one that stands behind it.
abbrev pub IsAscending : (ℕ → Timer) → List ℕ → Type 0
IsAscending at = Pairwise (λ p q. timer_less at p q ≡ false)

module _ {Q : Type 0} (ops : Ops Q) (laws : Laws Q ops) where
  -- The heap is split into the timers that are due, with those that are open listed in the order of
  -- their expiry, and the heap of those that are not due.
  pub record IsSplit (at : ℕ → Timer) (now : Timestamp) (q : Q) (due : List ℕ) (q' : Q)
      : Type 0 where
    pub same : Perm (due ++ laws.items q') (laws.items q)
    pub early : (p : ℕ) → Mem p due → less now (at p).timeout.next ≡ false
    pub late : (p : ℕ) → Mem p (laws.items q') → less now (at p).timeout.next ≡ true
    pub ascending : IsAscending at due
    pub heap : laws.IsHeap (timer_less at) q'

  pub empty-or-top :
      (q : Q)
      → ((ops.size q ≡ 0) × (laws.items q ≡ []))
        ⊎ ((p : ℕ) × ((ops.size q == 0) ≡ false) × (ops.top q ≡ some p))
  empty-or-top q = go (laws.items q) refl
    where
      go :
          (l : List ℕ)
          → laws.items q ≡ l
          → ((ops.size q ≡ 0) × (laws.items q ≡ []))
            ⊎ ((p : ℕ) × ((ops.size q == 0) ≡ false) × (ops.top q ≡ some p))
      go [] e = inl (laws.size_lem q ∙ ap length e, e)
      go (x ∷ xs) e =
          let (p, t) = laws.top_lem q x xs e in
          let size : ops.size q ≡ suc (length xs) = laws.size_lem q ∙ ap length e in
          inr (p, ground arith, t)

  module _ (at : ℕ → Timer) (now : Timestamp) where
    late-top :
        (q : Q) (p : ℕ)
        → laws.IsHeap (timer_less at) q
        → ops.top q ≡ some p
        → less now (at p).timeout.next ≡ true
        → (r : ℕ) → Mem r (laws.items q)
        → less now (at r).timeout.next ≡ true
    unfolding timer_less
    late-top q p h t l r m =
        let below : timer_less at p r ≡ false =
          laws.top-greatest (timer_less at) (timer_less-IsWeakOrder at) q p r h t m in
        ground arith

    -- The three cases of a round.
    module _ (fuel : ℕ) (q : Q) (list : List ℕ) where
      round-empty : ops.size q ≡ 0 → get_ready ops (suc fuel) at now q list ≡ done (list, q)
      unfolding get_ready
      round-empty e = rw e refl

      round-late :
          (p : ℕ)
          → (ops.size q == 0) ≡ false
          → ops.top q ≡ some p
          → less now (at p).timeout.next ≡ true
          → get_ready ops (suc fuel) at now q list ≡ done (list, q)
      unfolding get_ready
      round-late p e t l = rw (e, t, l) refl

      round-due :
          (p : ℕ)
          → (ops.size q == 0) ≡ false
          → ops.top q ≡ some p
          → less now (at p).timeout.next ≡ false
          → get_ready ops (suc fuel) at now q list
            ≡ get_ready ops fuel at now (ops.pop (timer_less at) q) (list ++ open_of at (p ∷ []))
      unfolding get_ready
      round-due p e t l = elim (Bool-cases (at p).closed) [
        | inl c ↦ rw (e, t, l, c, append-nil) refl
        | inr c ↦ rw (e, t, l, c) refl
      ]

    open_of-append : (xs ys : List ℕ) → open_of at (xs ++ ys) ≡ open_of at xs ++ open_of at ys
    open_of-append [] ys = refl
    open_of-append (x ∷ xs) ys = ground (arith, open_of-append xs ys)

    IsSplit-empty :
        (q : Q) → laws.IsHeap (timer_less at) q → laws.items q ≡ [] → IsSplit at now q [] q
    IsSplit-empty q h e = record {
      same = Perm.refl _;
      early = λ p m. absurd (not-mem-nil m);
      late = λ p m. absurd (not-mem-nil (subst (λ l. Mem p l) e m));
      ascending = Pairwise.nil;
      heap = h;
    }

    IsSplit-late :
        (q : Q) (p : ℕ)
        → laws.IsHeap (timer_less at) q
        → ops.top q ≡ some p
        → less now (at p).timeout.next ≡ true
        → IsSplit at now q [] q
    IsSplit-late q p h t l = record {
      same = Perm.refl _;
      early = λ r m. absurd (not-mem-nil m);
      late = late-top q p h t l;
      ascending = Pairwise.nil;
      heap = h;
    }

    IsSplit-due :
        (q : Q) (p : ℕ) (due : List ℕ) (q' : Q)
        → laws.IsHeap (timer_less at) q
        → ops.top q ≡ some p
        → less now (at p).timeout.next ≡ false
        → IsSplit at now (ops.pop (timer_less at) q) due q'
        → IsSplit at now q (p ∷ due) q'
    IsSplit-due q p due q' h t l s =
        let w = timer_less-IsWeakOrder at in
        let same = Perm.trans (Perm.cons p s.same) (laws.pop_lem (timer_less at) w q p h t).1 in
        record {
          same = same;
          early = forall-cons (λ r. less now (at r).timeout.next) false p due l s.early;
          late = s.late;
          ascending =
              Pairwise.cons
                (λ r m.
                  laws.top-greatest (timer_less at) w q p r h t
                    ((Perm.mem_iff same).0 (mem-cons_of_mem p (mem-append_left (laws.items q') m))))
                s.ascending;
          heap = s.heap;
        }

    get_ready-IsSplit :
        (fuel : ℕ) (q : Q) (list : List ℕ)
        → laws.IsHeap (timer_less at) q
        → length (laws.items q) < fuel
        → (due : List ℕ) × (q' : Q) × (get_ready ops fuel at now q list
            ≡ done (list ++ open_of at due, q'))
          × IsSplit at now q due q'
    get_ready-IsSplit zero q list h f = absurd (omega arith)
    get_ready-IsSplit (suc fuel) q list h f = elim (empty-or-top q) [
      | inl (e, n) ↦ ([], q, rw (append-nil list) (round-empty fuel q list e), IsSplit-empty q h n)
      | inr (p, e, t) ↦ elim (Bool-cases (less now (at p).timeout.next)) [
        | inl l ↦
            ([], q, rw (append-nil list) (round-late fuel q list p e t l), IsSplit-late q p h t l)
        | inr l ↦
            let w = timer_less-IsWeakOrder at in
            let popped = laws.pop_lem (timer_less at) w q p h t in
            let (due, q', eq, s) =
              get_ready-IsSplit fuel (ops.pop (timer_less at) q) (list ++ open_of at (p ∷ []))
                popped.0 (omega (arith, length-Perm popped.1)) in
            (
              p ∷ due,
              q',
              round-due fuel q list p e t l
                  ∙ eq
                  ∙ ap (λ (x : List ℕ). done (x, q'))
                      (append_assoc list (open_of at (p ∷ [])) (open_of at due)
                        ∙ ap (λ (x : List ℕ). list ++ x) (sym (open_of-append (p ∷ []) due))),
              IsSplit-due q p due q' h t l s,
            )
      ]
    ]

  -- With a heap ordered by expiry and fuel for more rounds than it has timers, `get_ready_timers`
  -- returns: it takes from the heap the timers whose expiry is not behind `now`, and no others, each
  -- once; it lists those that are not closed in the order of their expiry; and it leaves the others
  -- as an ordered heap, with no timer changed and no handler called.
  pub get_ready_timers_lem :
      (fuel : ℕ) (now : Timestamp) (ts : Timers Q)
      → laws.IsHeap (timer_less ts.at) ts.heap
      → length (laws.items ts.heap) < fuel
      → (due : List ℕ) × (q' : Q) × (get_ready_timers ops fuel now ts
          ≡ done (open_of ts.at due, record ts { heap = q' }))
        × IsSplit ts.at now ts.heap due q'
  unfolding get_ready_timers
  get_ready_timers_lem fuel now ts h f =
      let (due, q', e, s) = get_ready-IsSplit ts.at now fuel ts.heap [] h f in
      (due, q', rw e refl, s)
