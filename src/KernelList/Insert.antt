-- ===== src/KernelList/Insert.antt =====
-- `__list_add` and its two uses put a new node between two neighbours.
use libkngin.Base.{
  ℕ, ◌≡◌, refl, ◌≢◌, ◌↔◌, ◌⊎◌, inl, true, false, List, [], ◌∷◌, ◌++◌, arith, mem, Distinct,
  mem-append, append-nil,
}
use libkngin.KernelList.{
  Heap, init_list_head, list_add_between, list_add, list_add_tail, list_empty, list_empty_careful,
  list_is_singular,
}
use libkngin.KernelList.Chain.{
  Link, Chain, Ring, first, last, next-first, prev-last, mem-last, frame, SameOutside,
  Distinct-append,
}

-- A node that is in no way part of the list at `head`.
pub record IsFresh (new head : ℕ) (xs : List ℕ) : Type 0 where
  pub ne_head : new ≢ head
  pub not_in : mem new xs ≡ false

-- In front of a chain.
front-Chain :
    (h : Heap) (new a b : ℕ) (ys : List ℕ)
    → Chain h a ys b
    → Distinct ys
    → mem a ys ≡ false
    → mem b ys ≡ false
    → mem new ys ≡ false
    → new ≢ a
    → new ≢ b
    → Chain (list_add_between h new a (first ys b)) a (new ∷ ys) b
unfolding list_add_between
front-Chain h new a b [] c d na nb nn ne1 ne2 = ground arith
front-Chain h new a b (y ∷ ys) c d na nb nn ne1 ne2 = (
  ground arith,
  (
    ground arith,
    frame h (list_add_between h new a y) y b ys (λ e m. ground arith) (λ e m. ground arith) c.1,
  ),
)

pub mem-first : (b : ℕ) (ys : List ℕ) → (first ys b ≡ b) ⊎ (mem (first ys b) ys ≡ true)
mem-first b [] = inl refl
mem-first b (y ∷ ys) = ground arith

-- The first link of a chain is not touched by an insertion further on.
keep-Link :
    (h : Heap) (new a b x : ℕ) (xs ys : List ℕ)
    → Link h a x
    → mem a (x ∷ (xs ++ ys)) ≡ false
    → mem x (xs ++ ys) ≡ false
    → new ≢ a
    → new ≢ x
    → b ≢ x
    → Link (list_add_between h new (last x xs) (first ys b)) a x
unfolding list_add_between
keep-Link h new a b x xs ys l na nx ne1 ne2 ne3 =
    let p : last x xs ≢ a = λ e. ground (arith, mem-last x xs, mem-append a xs ys) in
    let n : first ys b ≢ x = λ e. ground (arith, mem-first b ys, mem-append x xs ys) in ground arith

-- Anywhere in a chain.
insert-Chain :
    (h : Heap) (new a b : ℕ) (xs ys : List ℕ)
    → Chain h a (xs ++ ys) b
    → Distinct (xs ++ ys)
    → mem a (xs ++ ys) ≡ false
    → mem b (xs ++ ys) ≡ false
    → mem new (xs ++ ys) ≡ false
    → new ≢ a
    → new ≢ b
    → Chain (list_add_between h new (last a xs) (first ys b)) a (xs ++ new ∷ ys) b
insert-Chain h new a b [] ys c d na nb nn ne1 ne2 = front-Chain h new a b ys c d na nb nn ne1 ne2
insert-Chain h new a b (x ∷ xs) ys c d na nb nn ne1 ne2 = (
  keep-Link h new a b x xs ys c.0 na d.0 ne1 (ground arith) (ground arith),
  insert-Chain h new x b xs ys c.1 d.1 d.0 (ground arith) (ground arith) (ground arith) ne2,
)

-- `__list_add` writes to its three nodes only.
between_outside :
    (h : Heap) (new p n : ℕ) (touched : List ℕ)
    → mem new touched ≡ true
    → mem p touched ≡ true
    → mem n touched ≡ true
    → SameOutside touched h (list_add_between h new p n)
unfolding list_add_between
between_outside h new p n touched mn mp mm c out = ground arith

-- `INIT_LIST_HEAD` makes an empty list.
pub init_list_head-Ring : (h : Heap) (head : ℕ) → Ring (init_list_head h head) head []
unfolding init_list_head
init_list_head-Ring h head = record { chain = ground arith; distinct = tt; apart = refl }

pub init_outside : (h : Heap) (x : ℕ) → SameOutside (x ∷ []) h (init_list_head h x)
unfolding init_list_head
init_outside h x c m = ground arith

-- `list_add` puts a node that is new to the list at its front, and writes to no node but that one
-- and those of the list.
pub list_add-Ring :
    {h : Heap} {head : ℕ} {xs : List ℕ} (new : ℕ)
    → Ring h head xs
    → IsFresh new head xs
    → Ring (list_add h new head) head (new ∷ xs)
      × SameOutside (new ∷ head ∷ xs) h (list_add h new head)
unfolding list_add
list_add-Ring {h} {head} {xs} new r f =
    let e : h.next head ≡ first xs head = next-first h head head xs r.chain in
    rw e (
      record {
        chain =
            front-Chain h new head head xs r.chain r.distinct r.apart r.apart f.not_in f.ne_head
              f.ne_head;
        distinct = (f.not_in, r.distinct);
        apart = ground arith;
      },
      between_outside h new head (first xs head) (new ∷ head ∷ xs) (ground arith) (ground arith)
          (ground (arith, mem-first head xs)),
    )

-- `list_add_tail` puts a node that is new to the list at its end, and writes to no node but that
-- one and those of the list.
pub list_add_tail-Ring :
    {h : Heap} {head : ℕ} {xs : List ℕ} (new : ℕ)
    → Ring h head xs
    → IsFresh new head xs
    → Ring (list_add_tail h new head) head (xs ++ new ∷ [])
      × SameOutside (new ∷ head ∷ xs) h (list_add_tail h new head)
unfolding list_add_tail
list_add_tail-Ring {h} {head} {xs} new r f =
    let e : h.prev head ≡ last head xs = prev-last h head head xs r.chain in
    let n : xs ++ [] ≡ xs = append-nil xs in
    let c : Chain (list_add_between h new (last head xs) head) head (xs ++ new ∷ []) head =
      insert-Chain h new head head xs [] (rw n r.chain) (rw n r.distinct) (rw n r.apart)
        (rw n r.apart) (rw n f.not_in) f.ne_head f.ne_head in
    rw e (
      record {
        chain = c;
        distinct = Distinct-append xs (new ∷ []) r.distinct (refl, tt) λ d m. ground arith;
        apart = ground (arith, mem-append head xs (new ∷ []));
      },
      between_outside h new (last head xs) head (new ∷ head ∷ xs) (ground arith)
          (ground (arith, mem-last head xs)) (ground arith),
    )

emptiness_of :
    (h : Heap) (head : ℕ) (xs : List ℕ)
    → Ring h head xs
    → ((list_empty h head ≡ true) ↔ (xs ≡ []))
      × ((list_empty_careful h head ≡ true) ↔ (xs ≡ []))
      × ((list_is_singular h head ≡ true) ↔ ((x : ℕ) × (xs ≡ x ∷ [])))
unfolding list_empty list_empty_careful list_is_singular
emptiness_of h head [] r = ground arith
emptiness_of h head (x ∷ []) r = (
  (λ e. ground arith, λ e. cc),
  (λ e. ground arith, λ e. cc),
  (λ e. (x, refl), λ e. ground arith),
)
emptiness_of h head (x ∷ y ∷ ys) r = (
  (λ e. ground arith, λ e. cc),
  (λ e. ground arith, λ e. cc),
  (λ e. ground (arith, prev-last h head head (x ∷ y ∷ ys) r.chain, mem-last y ys), λ (z, e). cc),
)

-- The three tests of a list say how many nodes it holds: `list_empty` and `list_empty_careful` none,
-- `list_is_singular` one.
pub emptiness_lem :
    {h : Heap} {head : ℕ} {xs : List ℕ}
    → Ring h head xs
    → ((list_empty h head ≡ true) ↔ (xs ≡ []))
      × ((list_empty_careful h head ≡ true) ↔ (xs ≡ []))
      × ((list_is_singular h head ≡ true) ↔ ((x : ℕ) × (xs ≡ x ∷ [])))
emptiness_lem {h} {head} {xs} r = emptiness_of h head xs r
