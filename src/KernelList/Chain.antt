-- ===== src/KernelList/Chain.antt =====
-- What a list in the heap stands for: the nodes from one end to the other, linked both ways.
use libkngin.Base.{
  ℕ, ◌≡◌, refl, ◌⊎◌, inl, true, false, List, [], ◌∷◌, ◌++◌, arith, mem, Distinct, mem-append,
}
use libkngin.KernelList.{Heap}

-- `b` comes right behind `a`.
abbrev pub Link : Heap → ℕ → ℕ → Type 0
Link h a b = (h.next a ≡ b) × (h.prev b ≡ a)

-- From `a` the links lead through `xs` to `b`.
abbrev pub Chain : Heap → ℕ → List ℕ → ℕ → Type 0
Chain h a [] b = Link h a b
Chain h a (x ∷ xs) b = Link h a x × Chain h x xs b

-- The list at `head` holds the nodes `xs`, all different and none of them the head.
pub record Ring (h : Heap) (head : ℕ) (xs : List ℕ) : Type 0 where
  pub chain : Chain h head xs head
  pub distinct : Distinct xs
  pub apart : mem head xs ≡ false

abbrev pub first : List ℕ → ℕ → ℕ
first [] b = b
first (x ∷ xs) b = x

abbrev pub last : ℕ → List ℕ → ℕ
last a [] = a
last a (x ∷ xs) = last x xs

pub next-first : (h : Heap) (a b : ℕ) (xs : List ℕ) → Chain h a xs b → h.next a ≡ first xs b
next-first h a b [] c = c.0
next-first h a b (x ∷ xs) c = c.0.0

pub prev-last : (h : Heap) (a b : ℕ) (xs : List ℕ) → Chain h a xs b → h.prev b ≡ last a xs
prev-last h a b [] c = c.1
prev-last h a b (x ∷ xs) c = prev-last h x b xs c.1

pub mem-last : (a : ℕ) (xs : List ℕ) → (last a xs ≡ a) ⊎ (mem (last a xs) xs ≡ true)
mem-last a [] = inl refl
mem-last a (x ∷ xs) = ground (arith, mem-last x xs)

-- A chain survives any change that spares the forward links of `a` and `xs` and the backward links
-- of `xs` and `b`.
pub frame :
    (h g : Heap) (a b : ℕ) (xs : List ℕ)
    → ((c : ℕ) → mem c (a ∷ xs) ≡ true → g.next c ≡ h.next c)
    → ((c : ℕ) → mem c (b ∷ xs) ≡ true → g.prev c ≡ h.prev c)
    → Chain h a xs b
    → Chain g a xs b
frame h g a b [] n p c = ground (arith, n a, p b)
frame h g a b (x ∷ xs) n p c = (
  ground (arith, n a, p x),
  frame h g x b xs (λ d m. n d (ground arith)) (λ d m. p d (ground arith)) c.1,
)

pub Chain-append :
    (h : Heap) (a m b : ℕ) (xs ys : List ℕ)
    → Chain h a xs m
    → Chain h m ys b
    → Chain h a (xs ++ m ∷ ys) b
Chain-append h a m b [] ys c d = (c, d)
Chain-append h a m b (x ∷ xs) ys c d = (c.0, Chain-append h x m b xs ys c.1 d)

pub Chain-split :
    (h : Heap) (a m b : ℕ) (xs ys : List ℕ)
    → Chain h a (xs ++ m ∷ ys) b
    → Chain h a xs m × Chain h m ys b
Chain-split h a m b [] ys c = c
Chain-split h a m b (x ∷ xs) ys c = let (l, r) = Chain-split h x m b xs ys c.1 in ((c.0, l), r)

pub Distinct-append :
    (xs ys : List ℕ)
    → Distinct xs
    → Distinct ys
    → ((c : ℕ) → mem c xs ≡ true → mem c ys ≡ false)
    → Distinct (xs ++ ys)
Distinct-append [] ys d e apart = e
Distinct-append (x ∷ xs) ys d e apart = (
  ground (arith, mem-append x xs ys, apart x),
  Distinct-append xs ys d.1 e λ c m. apart c (ground arith),
)

pub Distinct-split :
    (xs ys : List ℕ)
    → Distinct (xs ++ ys)
    → Distinct xs × Distinct ys × ((c : ℕ) → mem c xs ≡ true → mem c ys ≡ false)
Distinct-split [] ys d = (tt, d, λ c m. cc)
Distinct-split (x ∷ xs) ys d =
    let (l, r, f) = Distinct-split xs ys d.1 in
    ((ground (arith, mem-append x xs ys), l), r, λ c m. ground (arith, mem-append x xs ys, f c))

-- `g` differs from `h` at most at the nodes `touched`.
abbrev pub SameOutside : List ℕ → Heap → Heap → Type 0
SameOutside touched h g =
    (c : ℕ) → mem c touched ≡ false → (g.next c ≡ h.next c) × (g.prev c ≡ h.prev c)

-- A list that shares no node with those touched is still there.
pub Ring-frame :
    {h g : Heap} {head : ℕ} {xs : List ℕ} (touched : List ℕ)
    → Ring h head xs
    → SameOutside touched h g
    → ((c : ℕ) → mem c (head ∷ xs) ≡ true → mem c touched ≡ false)
    → Ring g head xs
Ring-frame {h} {g} {head} {xs} touched r same apart = record {
  chain =
      frame h g head head xs (λ c m. (same c (apart c m)).0) (λ c m. (same c (apart c m)).1)
        r.chain;
  distinct = r.distinct;
  apart = r.apart;
}
