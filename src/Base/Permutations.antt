-- ===== src/Base/Permutations.antt =====
-- Permutations and membership over lists, with lengths in native numbers.
use mathlib.Core.Bool.{Bool-set}
use mathlib.Core.Path.{ap₂}
use mathlib.Core.HLevel.{×_prop}
use mathlib.Core.Logic.{∥∥₁_elim}
use mathlib.Core.List.{Mem, Perm, mem-cons_of_mem, forall_mem-cons}
use mathlib.Core.List.{Memᴰ, Permᴰ}
use native.Mathlib.Nat.{ℕ_set}
use libkngin.Base.{
  ℕ, suc, ◌≡◌, refl, ◌∙◌, ap, List, [], ◌∷◌, length, Bool, true, false, ◌==◌, mem, arith, ◌++◌,
  Distinct, mem-append, ==_iff, Bool-cases, inl, inr, sym,
}

module _ {ℓ} {A : Type ℓ} where
  length-Permᴰ : {xs ys : List A} → Permᴰ xs ys → length xs ≡ length ys
  length-Permᴰ Permᴰ.nil = refl
  length-Permᴰ (Permᴰ.cons e p) = ap suc (length-Permᴰ p)
  length-Permᴰ (Permᴰ.swap e f) = refl
  length-Permᴰ (Permᴰ.trans p q) = length-Permᴰ p ∙ length-Permᴰ q

  pub length-Perm : {xs ys : List A} → Perm xs ys → length xs ≡ length ys
  length-Perm p = ∥∥₁_elim p (ℕ_set _ _) length-Permᴰ

-- What a test says of the head and of every further element, it says of every element.
pub forall-cons {ℓ} :
    {A : Type ℓ} (test : A → Bool) (b : Bool) (x : A) (xs : List A)
    → test x ≡ b
    → ((y : A) → Mem y xs → test y ≡ b)
    → (y : A) → Mem y (x ∷ xs)
    → test y ≡ b
forall-cons test b x xs h k =
    (forall_mem-cons {p = λ y. test y ≡ b} (λ y. Bool-set (test y) b)).1 (h, k)

mem-Permᴰ : (a : ℕ) {xs ys : List ℕ} → Permᴰ xs ys → mem a xs ≡ mem a ys
mem-Permᴰ a Permᴰ.nil = refl
mem-Permᴰ a (Permᴰ.cons e p) = ground (arith, mem-Permᴰ a p)
mem-Permᴰ a (Permᴰ.swap e f) = ground arith
mem-Permᴰ a (Permᴰ.trans p q) = mem-Permᴰ a p ∙ mem-Permᴰ a q

pub mem-Perm : (a : ℕ) {xs ys : List ℕ} → Perm xs ys → mem a xs ≡ mem a ys
mem-Perm a {xs} {ys} p = ∥∥₁_elim p (Bool-set (mem a xs) (mem a ys)) (mem-Permᴰ a)

mem_of-Memᴰ : (a : ℕ) {xs : List ℕ} → Memᴰ a xs → mem a xs ≡ true
mem_of-Memᴰ a (Memᴰ.head e) = ground arith
mem_of-Memᴰ a (Memᴰ.tail m) = ground (arith, mem_of-Memᴰ a m)

pub mem_of-Mem : (a : ℕ) {xs : List ℕ} → Mem a xs → mem a xs ≡ true
mem_of-Mem a {xs} m = ∥∥₁_elim m (Bool-set (mem a xs) true) (mem_of-Memᴰ a)

Distinct-Permᴰ : {xs ys : List ℕ} → Permᴰ xs ys → Distinct xs → Distinct ys
Distinct-Permᴰ Permᴰ.nil d = d
Distinct-Permᴰ (Permᴰ.cons e p) d =
    (ap₂ mem (sym e) (refl) ∙ sym (mem-Permᴰ _ p) ∙ d.0, Distinct-Permᴰ p d.1)
Distinct-Permᴰ (Permᴰ.swap e f) d = ground arith
Distinct-Permᴰ (Permᴰ.trans p q) d = Distinct-Permᴰ q (Distinct-Permᴰ p d)

Distinct-prop : (xs : List ℕ) → IsProp (Distinct xs)
Distinct-prop [] = hlevel
Distinct-prop (x ∷ xs) = ×_prop (Bool-set (mem x xs) false) (Distinct-prop xs)

pub Distinct-Perm : {xs ys : List ℕ} → Perm xs ys → Distinct xs → Distinct ys
Distinct-Perm {xs} {ys} p d = ∥∥₁_elim p (Distinct-prop ys) (λ q. Distinct-Permᴰ q d)

pub Distinct-parts :
    (xs ys : List ℕ)
    → Distinct (xs ++ ys)
    → Distinct xs × Distinct ys × ((q : ℕ) → mem q xs ≡ true → mem q ys ≡ false)
Distinct-parts [] ys d = (tt, d, λ q m. cc)
Distinct-parts (x ∷ xs) ys d =
    let (a, b, c) = Distinct-parts xs ys d.1 in
    let out = mem-append x xs ys in
    (
      (ground arith, a),
      b,
      λ q m. elim (Bool-cases (mem q xs)) [ inl e ↦ c q e | inr e ↦ ground arith ],
    )

pub Distinct-append :
    (xs ys : List ℕ)
    → Distinct xs
    → Distinct ys
    → ((q : ℕ) → mem q xs ≡ true → mem q ys ≡ false)
    → Distinct (xs ++ ys)
Distinct-append [] ys d e f = e
Distinct-append (x ∷ xs) ys d e f = (
  ground (arith, mem-append x xs ys, f x),
  Distinct-append xs ys d.1 e (λ q m. f q (ground arith)),
)

pub Mem_of-mem : (a : ℕ) (xs : List ℕ) → mem a xs ≡ true → Mem a xs
Mem_of-mem a [] h = cc
Mem_of-mem a (x ∷ xs) h = elim (Bool-cases (a == x)) [
  | inl e ↦ ∣ Memᴰ.head ((==_iff a x).0 e) ∣₁
  | inr e ↦ mem-cons_of_mem x (Mem_of-mem a xs (ground arith))
]
