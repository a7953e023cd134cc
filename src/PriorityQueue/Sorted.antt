-- ===== src/PriorityQueue/Sorted.antt =====
-- Lists kept in order, as a priority queue that meets what is documented of one.
use mathlib.Core.Path.{subst}
use mathlib.Core.List.{Mem, Perm, mem-cons_self, mem-cons_of_mem, not-mem-nil}
use mathlib.Core.List.Perm
use libkngin.Base.{
  ℕ, ◌≡◌, refl, sym, ◌∙◌, Bool, false, List, [], ◌∷◌, none, some, length, Bool-cases, inl, inr,
  if◌then◌else◌,
}
use libkngin.Base.Permutations.{forall-cons}
use libkngin.PriorityQueue.{Ops, IsWeakOrder, Laws}

-- In front of the first element that is not greater.
unfoldable pub insert_sorted : (ℕ → ℕ → Bool) → ℕ → List ℕ → List ℕ
insert_sorted less x [] = x ∷ []
insert_sorted less x (y ∷ ys) =
    let rest = insert_sorted less x ys in if less x y then y ∷ rest else x ∷ y ∷ ys

abbrev pub sorted_ops : Ops (List ℕ)
sorted_ops = record {
  push = insert_sorted;
  pop = λ less q. elim q [ [] ↦ [] | x ∷ xs ↦ xs ];
  top = λ q. elim q [ [] ↦ none | x ∷ xs ↦ some x ];
  size = length;
}

-- The head is a greatest element, and so on down the list.
abbrev pub IsSorted : (ℕ → ℕ → Bool) → List ℕ → Type 0
IsSorted less [] = Unit {0}
IsSorted less (x ∷ xs) = ((y : ℕ) → Mem y xs → less x y ≡ false) × IsSorted less xs

pub insert_sorted-perm :
    (less : ℕ → ℕ → Bool) (x : ℕ) (l : List ℕ) → Perm (insert_sorted less x l) (x ∷ l)
unfolding insert_sorted
insert_sorted-perm less x [] = Perm.refl _
insert_sorted-perm less x (y ∷ ys) = elim (Bool-cases (less x y)) [
  | inl h ↦ rw h (Perm.trans (Perm.cons y (insert_sorted-perm less x ys)) (Perm.swap x y ys))
  | inr h ↦ rw h (Perm.refl _)
]

pub insert_sorted-IsSorted :
    (less : ℕ → ℕ → Bool)
    → IsWeakOrder less
    → (x : ℕ) (l : List ℕ) → IsSorted less l
    → IsSorted less (insert_sorted less x l)
unfolding insert_sorted
insert_sorted-IsSorted less w x [] s = (λ y m. absurd (not-mem-nil m), tt)
insert_sorted-IsSorted less w x (y ∷ ys) s = elim (Bool-cases (less x y)) [
  | inl h ↦ rw h (
    λ z m.
        forall-cons (less y) false x ys (w.asym x y h) s.0 z
          ((Perm.mem_iff (insert_sorted-perm less x ys)).0 m),
    insert_sorted-IsSorted less w x ys s.1,
  )
  | inr h ↦ rw h (forall-cons (less x) false y ys h (λ z m. w.neg_trans x y z h (s.0 z m)), s)
]

pub top-greatest_lem :
    (less : ℕ → ℕ → Bool)
    → IsWeakOrder less
    → (l : List ℕ) (x y : ℕ) → IsSorted less l
    → sorted_ops.top l ≡ some x
    → Mem y l
    → less x y ≡ false
top-greatest_lem less w [] x y s e m = absurd (not-mem-nil m)
top-greatest_lem less w (z ∷ l) x y s e m =
    let same : z ≡ x = cc in
    let irrefl : less z z ≡ false = elim (Bool-cases (less z z)) [
      | inl h ↦ w.asym z z h
      | inr h ↦ h
    ] in
    subst (λ a. less a y ≡ false) same (forall-cons (less z) false z l irrefl s.0 y m)

pub pop-IsSorted :
    (less : ℕ → ℕ → Bool) (l : List ℕ) (x : ℕ)
    → IsSorted less l
    → sorted_ops.top l ≡ some x
    → IsSorted less (sorted_ops.pop less l) × Perm (x ∷ sorted_ops.pop less l) l
pop-IsSorted less [] x s e = cc
pop-IsSorted less (y ∷ l) x s e =
    let same : y ≡ x = cc in (s.1, subst (λ a. Perm (a ∷ l) (y ∷ l)) same (Perm.refl (y ∷ l)))

pub IsSorted-agree :
    (less less' : ℕ → ℕ → Bool) (l : List ℕ)
    → ((x y : ℕ) → Mem x l → Mem y l → less x y ≡ less' x y)
    → IsSorted less l
    → IsSorted less' l
IsSorted-agree less less' [] h s = tt
IsSorted-agree less less' (x ∷ l) h s = (
  λ y m. sym (h x y mem-cons_self (mem-cons_of_mem x m)) ∙ s.0 y m,
  IsSorted-agree less less' l (λ a b m n. h a b (mem-cons_of_mem x m) (mem-cons_of_mem x n)) s.1,
)

pub top-some :
    (l : List ℕ) (x : ℕ) (xs : List ℕ) → l ≡ x ∷ xs → (y : ℕ) × (sorted_ops.top l ≡ some y)
top-some [] x xs e = cc
top-some (y ∷ ys) x xs e = (y, refl)

abbrev pub sorted_laws : Laws (List ℕ) sorted_ops
sorted_laws = record {
  items = λ l. l;
  IsHeap = IsSorted;
  size_lem = λ l. refl;
  top_lem = top-some;
  top-greatest = top-greatest_lem;
  pop_lem = λ less w. pop-IsSorted less;
  push_lem = λ less w q x s. (insert_sorted-IsSorted less w x q s, insert_sorted-perm less x q);
  agree = IsSorted-agree;
}
