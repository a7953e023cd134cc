-- ===== src/TimerQueue/Renew.antt =====
-- What becomes of a timer after its handler, and of the timers of a list, one after the other, in
-- libkngin/detail/core/event/timer_queue.cpp.
use mathlib.Core.Path.{subst, ap₂}
use mathlib.Core.List.{Perm, perm_middle}
use mathlib.Core.List.Perm
use libkngin.Base.{
  ℕ, ◌≡◌, refl, sym, ap, ◌∙◌, Bool, true, false, List, [], ◌∷◌, ◌++◌, none, some, ◌⊎◌, inl, inr,
  ==_iff, arith, ◌==◌, if◌then◌else◌, Bool-cases, append_assoc, mem,
}
use libkngin.PriorityQueue.{Ops, Laws}
use libkngin.Timestamp.{Timestamp}
use libkngin.Timeout.{update, persist}
use libkngin.TimerQueue.{Timer, Timers, close, timer_less}

-- A timer after its handler: a periodic one expires one period later, another is closed.
unfoldable pub renewed : Timer → Timer
renewed t =
    if t.closed
    then t
    else (if persist t.timeout then record t { timeout = update t.timeout } else close t)

pub renewed-closed : (t : Timer) → t.closed ≡ true → renewed t ≡ t
unfolding renewed
renewed-closed t c =
    ap
      (λ (b : Bool).
        if b
        then t
        else (if persist t.timeout then record t { timeout = update t.timeout } else close t))
      c

-- The calls of handlers that are due.
abbrev pub call_of : (ℕ → Timer) → ℕ → Timestamp → List (ℕ × Timestamp)
call_of at p now =
    if (at p).closed then [] else elim (at p).handler [ none ↦ [] | some h ↦ (p, now) ∷ [] ]

abbrev pub calls_of : (ℕ → Timer) → List ℕ → Timestamp → List (ℕ × Timestamp)
calls_of at [] now = []
calls_of at (p ∷ ps) now = call_of at p now ++ calls_of at ps now

-- The timers that go back to the heap.
abbrev pub back_of : (ℕ → Timer) → ℕ → List ℕ
back_of at p = if (at p).closed then [] else (if persist (at p).timeout then p ∷ [] else [])

pub back_of-persist :
    (at : ℕ → Timer) (p : ℕ)
    → (at p).closed ≡ false
    → persist (at p).timeout ≡ true
    → back_of at p ≡ p ∷ []
back_of-persist at p c e = ground arith

pub back_of-once :
    (at : ℕ → Timer) (p : ℕ)
    → (at p).closed ≡ false
    → persist (at p).timeout ≡ false
    → back_of at p ≡ []
back_of-once at p c e = ground arith

abbrev pub all_back : (ℕ → Timer) → List ℕ → List ℕ
all_back at [] = []
all_back at (p ∷ ps) = back_of at p ++ all_back at ps

pub mem-back :
    (at : ℕ → Timer) (p q : ℕ) (l : List ℕ) → (q == p) ≡ false → mem q (back_of at p ++ l) ≡ mem q l
mem-back at p q l n = ground arith

module _ {Q : Type 0} (ops : Ops Q) (laws : Laws Q ops) (now : Timestamp) where
  pub record IsStep (p : ℕ) (ts ts' : Timers Q) : Type 0 where
    pub at : (q : ℕ) → ts'.at q ≡ (if q == p then renewed (ts.at p) else ts.at q)
    pub calls : ts'.calls ≡ ts.calls ++ call_of ts.at p now
    pub items : Perm (laws.items ts'.heap) (back_of ts.at p ++ laws.items ts.heap)
    pub heap : laws.IsHeap (timer_less ts'.at) ts'.heap

  pub record IsProcessed (ps : List ℕ) (ts ts' : Timers Q) : Type 0 where
    pub at : (q : ℕ) → ts'.at q ≡ (if mem q ps then renewed (ts.at q) else ts.at q)
    pub calls : ts'.calls ≡ ts.calls ++ calls_of ts.at ps now
    pub items : Perm (laws.items ts'.heap) (all_back ts.at ps ++ laws.items ts.heap)
    pub heap : laws.IsHeap (timer_less ts'.at) ts'.heap

  -- Timers of a list that a change leaves alone are called and put back as before.
  same-of :
      (p : ℕ) (t : Timer) (at at' : ℕ → Timer) (ps : List ℕ)
      → mem p ps ≡ false
      → ((q : ℕ) → at' q ≡ (if q == p then t else at q))
      → (calls_of at' ps now ≡ calls_of at ps now) × (all_back at' ps ≡ all_back at ps)
  same-of p t at at' [] n h = (refl, refl)
  same-of p t at at' (x ∷ ps) n h =
      let here : at' x ≡ at x = ground (arith, h x) in
      let rest : mem p ps ≡ false = ground arith in
      let (calls, back) = same-of p t at at' ps rest h in
      (
        ap₂ (λ (u : Timer) (v : List (ℕ × Timestamp)). call_of (λ y. u) x now ++ v) here calls,
        ap₂ (λ (u : Timer) (v : List ℕ). back_of (λ y. u) x ++ v) here back,
      )

  -- The order of the timers that are put back does not matter.
  back-Perm :
      (at : ℕ → Timer) (p : ℕ) (xs ys : List ℕ)
      → Perm (xs ++ (back_of at p ++ ys)) ((back_of at p ++ xs) ++ ys)
  back-Perm at p xs ys = elim (Bool-cases (at p).closed) [
    | inl c ↦ rw c (Perm.refl _)
    | inr c ↦ elim (Bool-cases (persist (at p).timeout)) [
      | inl e ↦ rw (c, e) (perm_middle xs ys)
      | inr e ↦ rw (c, e) (Perm.refl _)
    ]
  ]

  pub chain :
      (p : ℕ) (ps : List ℕ) (ts ts1 ts2 : Timers Q)
      → mem p ps ≡ false
      → IsStep p ts ts1
      → IsProcessed ps ts1 ts2
      → IsProcessed (p ∷ ps) ts ts2
  chain p ps ts ts1 ts2 n s r =
      let (calls, back) = same-of p (renewed (ts.at p)) ts.at ts1.at ps n s.at in
      record {
        at = λ q. chain-at q (Bool-cases (q == p));
        calls =
            r.calls
            ∙ ap₂ ◌++◌ s.calls calls
            ∙ append_assoc ts.calls (call_of ts.at p now) (calls_of ts.at ps now);
        items = Perm.trans r.items (
            Perm.trans (Perm.append_left (all_back ts1.at ps) s.items) (
              subst
                (λ (l : List ℕ).
                  Perm (l ++ (back_of ts.at p ++ laws.items ts.heap))
                    ((back_of ts.at p ++ all_back ts.at ps) ++ laws.items ts.heap))
                (sym back) (back-Perm ts.at p (all_back ts.at ps) (laws.items ts.heap))));
        heap = r.heap;
      }
    where
      chain-at :
          (q : ℕ)
          → ((q == p) ≡ true) ⊎ ((q == p) ≡ false)
          → ts2.at q ≡ (if mem q (p ∷ ps) then renewed (ts.at q) else ts.at q)
      chain-at q (inl e) =
          let same : q ≡ p = (==_iff q p).0 e in
          let out : mem q ps ≡ false = ap (λ (x : ℕ). mem x ps) same ∙ n in
          ground (arith, r.at q, s.at q)
      chain-at q (inr e) = ground (arith, r.at q, s.at q)
