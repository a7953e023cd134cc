-- ===== src/KernelList/Move.antt =====
-- `list_move`, `list_move_tail` and `list_rotate_left`: a node leaves one list and joins another.
use libkngin.Base.{
  ℕ, ◌≡◌, refl, inl, inr, true, false, not, List, [], ◌∷◌, ◌++◌, arith, mem, mem-append, Bool-cases,
  if◌then◌else◌,
}
use libkngin.KernelList.{
  Heap, list_del_entry, list_add_tail, list_add, list_move, list_move_tail, list_rotate_left,
  list_empty,
}
use libkngin.KernelList.Chain.{Ring, SameOutside, Ring-frame}
use libkngin.KernelList.Insert.{IsFresh, list_add-Ring, list_add_tail-Ring, emptiness_lem}
use libkngin.KernelList.Delete.{list_del_entry-Ring, others}

-- Two lists of one heap that share no node.
abbrev pub AreApart : ℕ → List ℕ → ℕ → List ℕ → Type 0
AreApart a xs b ys = (c : ℕ) → mem c (a ∷ xs) ≡ true → mem c (b ∷ ys) ≡ false

move_tail_lem :
    (h : Heap) (x to : ℕ) → list_move_tail h x to ≡ list_add_tail (list_del_entry h x) x to
unfolding list_move_tail
move_tail_lem h x to = refl

move_lem : (h : Heap) (x to : ℕ) → list_move h x to ≡ list_add (list_del_entry h x) x to
unfolding list_move
move_lem h x to = refl

rotate_lem :
    (h : Heap) (head : ℕ)
    → list_rotate_left h head
      ≡ (if not (list_empty h head) then list_move_tail h (h.next head) head else h)
unfolding list_rotate_left
rotate_lem h head = refl

module _ {h : Heap} {head to : ℕ} (x : ℕ) (xs ys zs : List ℕ) (r : Ring h head (xs ++ x ∷ ys))
    (t : Ring h to zs) (apart : AreApart to zs head (xs ++ x ∷ ys)) where
  fresh : IsFresh x to zs
  fresh = record {
    ne_head = λ e. ground (arith, apart to, mem-append to xs (x ∷ ys));
    not_in = elim (Bool-cases (mem x zs)) [
      | inl m ↦ ground (arith, apart x, mem-append x xs (x ∷ ys))
      | inr m ↦ m
    ];
  }

  -- The target is not touched by the removal.
  target : Ring (list_del_entry h x) to zs
  target =
      let (k, same) = list_del_entry-Ring h head x xs ys r in
      Ring-frame (head ∷ (xs ++ ys)) t same
        λ c m. ground (arith, apart c m, mem-append c xs (x ∷ ys), mem-append c xs ys)

  left : (g : Heap) → SameOutside (x ∷ to ∷ zs) (list_del_entry h x) g → Ring g head (xs ++ ys)
  left g same =
      let (k, _) = list_del_entry-Ring h head x xs ys r in
      Ring-frame (x ∷ to ∷ zs) k same λ c m.
        ground (arith, others x xs ys r c m, apart c, mem-append c xs (x ∷ ys), mem-append c xs ys)

  -- `list_move_tail` takes a node out of one list and puts it at the end of another.
  pub list_move_tail-Ring :
      Ring (list_move_tail h x to) head (xs ++ ys) × Ring (list_move_tail h x to) to (zs ++ x ∷ [])
  list_move_tail-Ring =
      let (k, same) = list_add_tail-Ring x target fresh in
      rw move_tail_lem (left (list_add_tail (list_del_entry h x) x to) same, k)

  -- `list_move` takes a node out of one list and puts it at the front of another.
  pub list_move-Ring : Ring (list_move h x to) head (xs ++ ys) × Ring (list_move h x to) to (x ∷ zs)
  list_move-Ring =
      let (k, same) = list_add-Ring x target fresh in
      rw move_lem (left (list_add (list_del_entry h x) x to) same, k)

-- `list_rotate_left` moves the first node, if there is one, to the end.
unfoldable pub rotate_left : List ℕ → List ℕ
rotate_left [] = []
rotate_left (x ∷ xs) = xs ++ x ∷ []

rotate_of :
    (h : Heap) (head : ℕ) (xs : List ℕ)
    → Ring h head xs
    → Ring (list_rotate_left h head) head (rotate_left xs)
unfolding rotate_left
rotate_of h head [] r = rw (rotate_lem, (emptiness_lem r).0.1 refl) r
rotate_of h head (x ∷ xs) r =
    let e : list_empty h head ≡ false = elim (Bool-cases (list_empty h head)) [
      | inl t ↦ cc ((emptiness_lem r).0.0 t)
      | inr f ↦ f
    ] in
    let (k, same) = list_del_entry-Ring h head x [] xs r in
    let n : h.next head ≡ x = r.chain.0.0 in
    rw (rotate_lem, e, n, move_tail_lem)
      (list_add_tail-Ring x k (record { ne_head = ground arith; not_in = r.distinct.0 })).0

-- `list_rotate_left` moves the first node of a list, if there is one, to its end.
pub list_rotate_left-Ring :
    {h : Heap} {head : ℕ} {xs : List ℕ}
    → Ring h head xs
    → Ring (list_rotate_left h head) head (rotate_left xs)
list_rotate_left-Ring {h} {head} {xs} r = rotate_of h head xs r
