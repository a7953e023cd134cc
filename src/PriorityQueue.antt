-- ===== src/PriorityQueue.antt =====
-- `std::priority_queue`, which the timer queue of libkngin/detail/core/event/timer_queue.h is built
-- on: its operations, and what the standard documents of them.
pub mod Sorted
use mathlib.Core.List.{Mem, Perm}
use libkngin.Base.{ℕ, ◌≡◌, Bool, true, false, List, ◌∷◌, Option, some, length}

-- The operations on a queue of addresses. Each call reads the order as it stands at that moment;
-- `top` is none where the call is undefined.
pub record Ops (Q : Type 0) : Type 0 where
  pub push : (ℕ → ℕ → Bool) → ℕ → Q → Q
  pub pop : (ℕ → ℕ → Bool) → Q → Q
  pub top : Q → Option ℕ
  pub size : Q → ℕ

-- A strict weak order, as `Compare` asks for.
pub record IsWeakOrder (less : ℕ → ℕ → Bool) : Type 0 where
  pub asym : (x y : ℕ) → less x y ≡ true → less y x ≡ false
  pub neg_trans : (x y z : ℕ) → less x y ≡ false → less y z ≡ false → less x z ≡ false

-- `items` are the elements in any order, and `IsHeap less q` says that `q` is a heap under `less`.
-- As long as it is, `top` is a greatest element, and `push` and `pop` keep it so; it depends on
-- `less` only through the elements of `q`.
pub record Laws (Q : Type 0) (ops : Ops Q) : Type 1 where
  pub items : Q → List ℕ
  pub IsHeap : (ℕ → ℕ → Bool) → Q → Type 0
  pub size_lem : (q : Q) → ops.size q ≡ length (items q)
  pub top_lem : (q : Q) (x : ℕ) (xs : List ℕ) → items q ≡ x ∷ xs → (y : ℕ) × (ops.top q ≡ some y)
  pub top-greatest :
      (less : ℕ → ℕ → Bool)
      → IsWeakOrder less
      → (q : Q) (x y : ℕ) → IsHeap less q
      → ops.top q ≡ some x
      → Mem y (items q)
      → less x y ≡ false
  pub pop_lem :
      (less : ℕ → ℕ → Bool)
      → IsWeakOrder less
      → (q : Q) (x : ℕ) → IsHeap less q
      → ops.top q ≡ some x
      → IsHeap less (ops.pop less q) × Perm (x ∷ items (ops.pop less q)) (items q)
  pub push_lem :
      (less : ℕ → ℕ → Bool)
      → IsWeakOrder less
      → (q : Q) (x : ℕ) → IsHeap less q
      → IsHeap less (ops.push less x q) × Perm (items (ops.push less x q)) (x ∷ items q)
  pub agree :
      (less less' : ℕ → ℕ → Bool) (q : Q)
      → ((x y : ℕ) → Mem x (items q) → Mem y (items q) → less x y ≡ less' x y)
      → IsHeap less q
      → IsHeap less' q
