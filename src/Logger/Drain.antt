-- ===== src/Logger/Drain.antt =====
-- The order of the log, and its end, in libkngin/detail/core/base/logger.cpp.
use mathlib.Core.Path.{subst}
use libkngin.Base.{
  ℕ, suc, ◌≡◌, ◌≢◌, refl, sym, ap, ◌∙◌, Bool, true, false, List, [], ◌∷◌, ◌++◌, append_assoc,
  append-nil,
}
use libkngin.Logger.Queue.{
  At, LogQueue, started, post_log, pop_back, next_entry, thread_step, Step, Reach, work,
}

module _ {E : Type 0} where
  -- The entries that are still to be written.
  abbrev pub pending : At → List E → List E
  pending At.wrote q = pop_back q
  pending At.locking q = q
  pending At.writing q = q
  pending At.returned q = q

  -- The thread is at an entry only if there is one.
  abbrev pub IsFilled : At → List E → Type 0
  IsFilled At.writing [] = ⊥
  IsFilled At.wrote [] = ⊥
  IsFilled At.writing (e ∷ q) = Unit {0}
  IsFilled At.wrote (e ∷ q) = Unit {0}
  IsFilled At.locking q = Unit {0}
  IsFilled At.returned q = Unit {0}

  abbrev pub IsKept : At → List E → List E → List E → Type 0
  IsKept a q w p = (w ++ pending a q ≡ p) × IsFilled a q

  post-IsKept :
      (e : E) (a : At) (q w p : List E) → IsKept a q w p → IsKept a (q ++ e ∷ []) w (p ++ e ∷ [])
  post-IsKept e At.locking q w p k =
      (sym (append_assoc w q (e ∷ [])) ∙ ap (λ l. l ++ e ∷ []) k.0, tt)
  post-IsKept e At.returned q w p k =
      (sym (append_assoc w q (e ∷ [])) ∙ ap (λ l. l ++ e ∷ []) k.0, tt)
  post-IsKept e At.writing [] w p k = absurd k.1
  post-IsKept e At.wrote [] w p k = absurd k.1
  post-IsKept e At.writing (x ∷ q) w p k =
      (sym (append_assoc w (x ∷ q) (e ∷ [])) ∙ ap (λ l. l ++ e ∷ []) k.0, tt)
  post-IsKept e At.wrote (x ∷ q) w p k =
      (sym (append_assoc w q (e ∷ [])) ∙ ap (λ l. l ++ e ∷ []) k.0, tt)

  -- `IsKept` of a whole state.
  abbrev pub IsInOrder : LogQueue E → Type 0
  IsInOrder q = IsKept q.at q.dataq q.written q.posted

  next-IsKept :
      (d : List E) (q : LogQueue E) → q.written ++ d ≡ q.posted → IsInOrder (next_entry d q)
  unfolding next_entry
  next-IsKept (e ∷ es) q h = (h, tt)
  next-IsKept [] q h = stopped q.stop
    where
      stopped :
          (b : Bool)
          → IsKept (elim b [ true ↦ At.returned | false ↦ At.locking ]) [] q.written q.posted
      stopped true = (h, tt)
      stopped false = (h, tt)

  work-IsKept :
      (a : At) (b : Bool) (d w p : List E)
      → IsKept a d w p
      → IsInOrder (thread_step (record { at = a; stop = b; dataq = d; written = w; posted = p }))
  unfolding thread_step
  work-IsKept At.locking b d w p k =
      next-IsKept d (record { at = At.locking; stop = b; dataq = d; written = w; posted = p }) k.0
  work-IsKept At.wrote b d w p k =
      next-IsKept (pop_back d)
        (record { at = At.wrote; stop = b; dataq = d; written = w; posted = p }) k.0
  work-IsKept At.writing b [] w p k = absurd k.1
  work-IsKept At.writing b (e ∷ d) w p k = (append_assoc w (e ∷ []) d ∙ k.0, tt)
  work-IsKept At.returned b d w p k = k

  Step-IsKept : (q r : LogQueue E) → Step q r → IsInOrder q → IsInOrder r
  unfolding post_log
  Step-IsKept q r (Step.posts e h) k =
      subst IsInOrder (sym h) (post-IsKept e q.at q.dataq q.written q.posted k)
  Step-IsKept q r (Step.works h) k =
      subst IsInOrder (sym h) (work-IsKept q.at q.stop q.dataq q.written q.posted k)
  Step-IsKept q r (Step.stops h) k = subst IsInOrder (sym h) k

  kept : (q : LogQueue E) → Reach started q → IsInOrder q
  kept q Reach.here = (refl, tt)
  kept q (Reach.next {q = t} r st) = Step-IsKept t q st (kept t r)

  -- Whatever the order of the threads' steps, the entries that have been written and those that are
  -- still to be written are together the entries that have been posted, each once and in that order.
  pub Reach-pending :
      (q : LogQueue E) → Reach started q → q.written ++ pending q.at q.dataq ≡ q.posted
  Reach-pending q r = (kept q r).0

  abbrev state : At → List E → List E → List E → LogQueue E
  state a d w p = record { at = a; stop = true; dataq = d; written = w; posted = p }

  drain-wrote :
      (e : E) (es w p : List E)
      → (n : ℕ) × (work n (state At.wrote (e ∷ es) w p) ≡ state At.returned [] (w ++ es) p)
  unfolding work thread_step next_entry
  drain-wrote e [] w p = (1, ap (λ l. state At.returned [] l p) (sym (append-nil w)))
  drain-wrote e (x ∷ es) w p =
      let (n, r) = drain-wrote x es (w ++ x ∷ []) p in
      (suc (suc n), r ∙ ap (λ l. state At.returned [] l p) (append_assoc w (x ∷ []) es))

  drain-state :
      (a : At) (d w p : List E)
      → IsKept a d w p
      → a ≢ At.returned
      → (n : ℕ) × ((work n (state a d w p)).at ≡ At.returned)
        × ((work n (state a d w p)).written ≡ p)
  unfolding work thread_step next_entry
  drain-state At.returned d w p k h = absurd (h refl)
  drain-state At.writing [] w p k h = absurd k.1
  drain-state At.wrote [] w p k h = absurd k.1
  drain-state At.locking [] w p k h = (1, refl, sym (append-nil w) ∙ k.0)
  drain-state At.locking (e ∷ d) w p k h =
      let (n, r) = drain-wrote e d (w ++ e ∷ []) p in
      (
        suc (suc n),
        ap (λ (q : LogQueue E). q.at) r,
        ap (λ (q : LogQueue E). q.written) r ∙ append_assoc w (e ∷ []) d ∙ k.0,
      )
  drain-state At.writing (e ∷ d) w p k h =
      let (n, r) = drain-wrote e d (w ++ e ∷ []) p in
      (
        suc n,
        ap (λ (q : LogQueue E). q.at) r,
        ap (λ (q : LogQueue E). q.written) r ∙ append_assoc w (e ∷ []) d ∙ k.0,
      )
  drain-state At.wrote (e ∷ d) w p k h =
      let (n, r) = drain-wrote e d w p in
      (n, ap (λ (q : LogQueue E). q.at) r, ap (λ (q : LogQueue E). q.written) r ∙ k.0)

  -- Once `stop_` is set, the thread returns after finitely many steps, and has then written every entry
  -- that had been posted, in order, unless it had returned before.
  pub work-drains :
      (q : LogQueue E)
      → Reach started q
      → q.stop ≡ true
      → q.at ≢ At.returned
      → (n : ℕ) × ((work n q).at ≡ At.returned) × ((work n q).written ≡ q.posted)
  work-drains q r s h =
      let same : state q.at q.dataq q.written q.posted ≡ q =
        ap
          (λ (b : Bool). record {
            at = q.at;
            stop = b;
            dataq = q.dataq;
            written = q.written;
            posted = q.posted;
          })
          (sym s) in
      let (n, a, w) = drain-state q.at q.dataq q.written q.posted (kept q r) h in
      (
        n,
        ap (λ (x : LogQueue E). (work n x).at) (sym same) ∙ a,
        ap (λ (x : LogQueue E). (work n x).written) (sym same) ∙ w,
      )
