-- ===== src/KernelList/Delete.antt =====
-- `__list_del` and its uses take a node out from between its neighbours, and moves put it elsewhere.
use libkngin.Base.{
  ℕ, ◌≡◌, refl, ◌≢◌, true, false, List, [], ◌∷◌, ◌++◌, arith, mem, Distinct, mem-append,
}
use libkngin.KernelList.{Heap, list_del_between, list_del_entry, list_del, list_del_init}
use libkngin.KernelList.Chain.{
  Link, Chain, Ring, first, last, next-first, prev-last, mem-last, frame, SameOutside, Ring-frame,
  Chain-split,
}
use libkngin.KernelList.Insert.{mem-first, init_list_head-Ring, init_outside}

-- The node behind `a` is taken out.
front-Chain :
    (h : Heap) (a x b : ℕ) (ys : List ℕ)
    → Chain h a (x ∷ ys) b
    → Distinct ys
    → mem a ys ≡ false
    → mem b ys ≡ false
    → Chain (list_del_between h a (first ys b)) a ys b
unfolding list_del_between
front-Chain h a x b [] c d na nb = ground arith
front-Chain h a x b (y ∷ ys) c d na nb = (
  ground arith,
  frame h (list_del_between h a y) y b ys (λ e m. ground arith) (λ e m. ground arith) c.1.1,
)

keep-Link :
    (h : Heap) (a b x : ℕ) (xs ys : List ℕ)
    → Link h a x
    → mem a (x ∷ (xs ++ ys)) ≡ false
    → mem x (xs ++ ys) ≡ false
    → b ≢ x
    → Link (list_del_between h (last x xs) (first ys b)) a x
unfolding list_del_between
keep-Link h a b x xs ys l na nx ne =
    let p : last x xs ≢ a = λ e. ground (arith, mem-last x xs, mem-append a xs ys) in
    let n : first ys b ≢ x = λ e. ground (arith, mem-first b ys, mem-append x xs ys) in ground arith

delete-Chain :
    (h : Heap) (a x b : ℕ) (xs ys : List ℕ)
    → Chain h a (xs ++ x ∷ ys) b
    → Distinct (xs ++ ys)
    → mem a (xs ++ ys) ≡ false
    → mem b (xs ++ ys) ≡ false
    → Chain (list_del_between h (last a xs) (first ys b)) a (xs ++ ys) b
delete-Chain h a x b [] ys c d na nb = front-Chain h a x b ys c d na nb
delete-Chain h a x b (w ∷ xs) ys c d na nb = (
  keep-Link h a b w xs ys c.0 na d.0 (ground arith),
  delete-Chain h w x b xs ys c.1 d.1 d.0 (ground arith),
)

-- Facts on `xs ++ x ∷ ys` that the members of `xs ++ ys` inherit.
mem-without : (c x : ℕ) (xs ys : List ℕ) → mem c (xs ++ x ∷ ys) ≡ false → mem c (xs ++ ys) ≡ false
mem-without c x xs ys h = ground (arith, mem-append c xs (x ∷ ys), mem-append c xs ys)

pub Distinct-without :
    (x : ℕ) (xs ys : List ℕ)
    → Distinct (xs ++ x ∷ ys)
    → Distinct (xs ++ ys) × (mem x (xs ++ ys) ≡ false)
Distinct-without x [] ys d = (d.1, d.0)
Distinct-without x (w ∷ xs) ys d =
    let r : Distinct (xs ++ ys) × (mem x (xs ++ ys) ≡ false) = Distinct-without x xs ys d.1 in
    ((mem-without w x xs ys d.0, r.0), ground (arith, r.1, mem-append w xs (x ∷ ys)))

between_outside :
    (h : Heap) (p n : ℕ) (touched : List ℕ)
    → mem p touched ≡ true
    → mem n touched ≡ true
    → SameOutside touched h (list_del_between h p n)
unfolding list_del_between
between_outside h p n touched mp mm c out = ground arith

entry-between : (h : Heap) (x : ℕ) → list_del_entry h x ≡ list_del_between h (h.prev x) (h.next x)
unfolding list_del_entry
entry-between h x = refl

module _ (h : Heap) (head x : ℕ) (xs ys : List ℕ) (r : Ring h head (xs ++ x ∷ ys)) where
  neighbours : (h.prev x ≡ last head xs) × (h.next x ≡ first ys head)
  neighbours =
      let (l, k) = Chain-split h head x head xs ys r.chain in
      (prev-last h head x xs l, next-first h x head ys k)

  -- The node is out of the list, and keeps its own links.
  pub list_del_entry-Ring :
      Ring (list_del_entry h x) head (xs ++ ys)
      × SameOutside (head ∷ (xs ++ ys)) h (list_del_entry h x)
  list_del_entry-Ring =
      let (p, n) = neighbours in
      let (d, out) = Distinct-without x xs ys r.distinct in
      let apart : mem head (xs ++ ys) ≡ false = mem-without head x xs ys r.apart in
      rw (entry-between h x, p, n)
        (
          record {
            chain = delete-Chain h head x head xs ys r.chain d apart apart;
            distinct = d;
            apart = apart;
          },
          between_outside h (last head xs) (first ys head) (head ∷ (xs ++ ys))
              (ground (arith, mem-last head xs, mem-append (last head xs) xs ys))
              (ground (arith, mem-first head ys, mem-append (first ys head) xs ys)),
        )

poison_outside :
    (h : Heap) (x c : ℕ)
    → mem c (x ∷ []) ≡ false
    → ((list_del h x).next c ≡ (list_del_entry h x).next c)
      × ((list_del h x).prev c ≡ (list_del_entry h x).prev c)
unfolding list_del list_del_entry
poison_outside h x c m = ground arith

-- The other nodes of a list are not the node taken out.
pub others :
    {h : Heap} {head : ℕ} (x : ℕ) (xs ys : List ℕ)
    → Ring h head (xs ++ x ∷ ys)
    → (c : ℕ) → mem c (head ∷ (xs ++ ys)) ≡ true
    → mem c (x ∷ []) ≡ false
others {head = head} x xs ys r c m =
    ground (arith, (Distinct-without x xs ys r.distinct).1, r.apart, mem-append head xs (x ∷ ys))

-- `list_del` takes a node out of its list and poisons its links; it writes to no other node than
-- those of the list.
pub list_del-Ring :
    {h : Heap} {head : ℕ} (x : ℕ) (xs ys : List ℕ)
    → Ring h head (xs ++ x ∷ ys)
    → Ring (list_del h x) head (xs ++ ys)
      × ((list_del h x).next x ≡ 0x00100100)
      × ((list_del h x).prev x ≡ 0x00200200)
      × SameOutside (x ∷ head ∷ (xs ++ ys)) h (list_del h x)
unfolding list_del
list_del-Ring {h} {head} x xs ys r =
    let (k, same) = list_del_entry-Ring h head x xs ys r in
    let d : mem x (xs ++ ys) ≡ false = (Distinct-without x xs ys r.distinct).1 in
    let out : SameOutside (x ∷ []) (list_del_entry h x) (list_del h x) =
      λ c m. poison_outside h x c m in
    (
      Ring-frame (x ∷ []) k out (others x xs ys r),
      ground arith,
      ground arith,
      λ c m. ground (arith, same c, poison_outside h x c),
    )

-- `list_del_init` takes a node out of its list and makes it an empty list of its own.
pub list_del_init-Ring :
    {h : Heap} {head : ℕ} (x : ℕ) (xs ys : List ℕ)
    → Ring h head (xs ++ x ∷ ys)
    → Ring (list_del_init h x) head (xs ++ ys) × Ring (list_del_init h x) x []
unfolding list_del_init
list_del_init-Ring {h} {head} x xs ys r =
    let (k, same) = list_del_entry-Ring h head x xs ys r in
    (
      Ring-frame (x ∷ []) k (init_outside (list_del_entry h x) x) (others x xs ys r),
      init_list_head-Ring (list_del_entry h x) x,
    )
