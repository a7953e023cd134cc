-- ===== src/KernelList/Splice.antt =====
-- `list_splice_tail` and `list_splice_tail_init`: all nodes of one list join the end of another.
use libkngin.Base.{
  ℕ, ◌≡◌, refl, ◌∙◌, inl, inr, true, false, List, [], ◌∷◌, ◌++◌, arith, mem, mem-append, Bool-cases,
  if◌then◌else◌, ◌==◌, append-nil, Distinct, Bool,
}
use libkngin.KernelList.{
  Heap, list_splice_between, list_splice_tail_init, list_empty, init_list_head,
}
use libkngin.KernelList.Chain.{
  Link, Chain, Ring, last, prev-last, mem-last, Chain-append, Distinct-append, SameOutside,
  Ring-frame,
}
use libkngin.KernelList.Insert.{init_list_head-Ring, init_outside, emptiness_lem}
use libkngin.KernelList.Move.{AreApart}

-- A chain whose last node is linked to another end.
Chain-retarget :
    (h g : Heap) (a b b' : ℕ) (xs : List ℕ)
    → Chain h a xs b
    → Distinct (a ∷ xs)
    → ((c : ℕ) → mem c (a ∷ xs) ≡ true → (c == last a xs) ≡ false → g.next c ≡ h.next c)
    → ((c : ℕ) → mem c xs ≡ true → g.prev c ≡ h.prev c)
    → Link g (last a xs) b'
    → Chain g a xs b'
Chain-retarget h g a b b' [] c d n p l = l
Chain-retarget h g a b b' (x ∷ xs) c d n p l = (
  (n a (ground arith) not_last ∙ c.0.0, p x (ground arith) ∙ c.0.1),
  Chain-retarget h g x b b' xs c.1 d.1 (λ e m. n e (ground arith)) (λ e m. p e (ground arith)) l,
)
  where
    not_last : (a == last x xs) ≡ false
    not_last = ground (arith, mem-last x xs, d.0)

module _ {h : Heap} {list head : ℕ} (x : ℕ) (xs ys : List ℕ) (r : Ring h list (x ∷ xs))
    (t : Ring h head ys) (apart : AreApart head ys list (x ∷ xs)) where
  abbrev joined : Heap
  joined = list_splice_between h list (h.prev head) head

  -- The last nodes of the two lists are on them, or the head.
  abbrev end : ℕ
  end = last x xs

  abbrev old_end : ℕ
  old_end = last head ys

  end_of : h.prev list ≡ end
  end_of = prev-last h list list (x ∷ xs) r.chain

  old_end_of : h.prev head ≡ old_end
  old_end_of = prev-last h head head ys t.chain

  end_in : mem end (x ∷ xs) ≡ true
  end_in = ground (arith, mem-last x xs)

  old_end_in : mem old_end (head ∷ ys) ≡ true
  old_end_in = ground (arith, mem-last head ys)

  joined_next :
      (c : ℕ) → joined.next c ≡ (if c == end then head else if c == old_end then x else h.next c)
  unfolding list_splice_between
  joined_next c = ground (arith, end_of, old_end_of, r.chain.0.0)

  joined_prev :
      (c : ℕ) → joined.prev c ≡ (if c == head then end else if c == x then old_end else h.prev c)
  unfolding list_splice_between
  joined_prev c = ground (arith, end_of, old_end_of, r.chain.0.0)

  ends_differ : (end == old_end) ≡ false
  ends_differ = ground (arith, end_in, old_end_in, apart old_end)

  x_not_head : (x == head) ≡ false
  x_not_head = ground (arith, apart head)

  first_part : Chain joined head ys x
  first_part =
      Chain-retarget h joined head head x ys t.chain (t.apart, t.distinct)
        (λ c m e. ground (arith, joined_next c, end_in, apart c))
        (λ c m. ground (arith, joined_prev c, t.apart, apart c))
        (
          ground (arith, joined_next old_end, ends_differ),
          ground (arith, joined_prev x, x_not_head),
        )

  second_part : Chain joined x xs head
  second_part =
      Chain-retarget h joined x list head xs r.chain.1 r.distinct
        (λ c m e. ground (arith, joined_next c, old_end_in, apart old_end))
        (λ c m. ground (arith, joined_prev c, r.distinct.0, apart head))
        (ground (arith, joined_next end), ground (arith, joined_prev head))

  joined-Ring : Ring joined head (ys ++ x ∷ xs)
  joined-Ring = record {
    chain = Chain-append joined head x head ys xs first_part second_part;
    distinct = Distinct-append ys (x ∷ xs) t.distinct r.distinct (λ c m. ground (arith, apart c));
    apart = ground (arith, mem-append head ys (x ∷ xs), t.apart, apart head);
  }

  list_not_in : mem list (head ∷ (ys ++ x ∷ xs)) ≡ false
  list_not_in = ground (arith, mem-append list ys (x ∷ xs), r.apart, apart list)

  joined-SameOutside : SameOutside ((list ∷ x ∷ xs) ++ head ∷ ys) h joined
  joined-SameOutside c m = (
    ground (arith, joined_next c, end_in, old_end_in, mem-append c (x ∷ xs) (head ∷ ys)),
    ground (arith, joined_prev c, mem-append c (x ∷ xs) (head ∷ ys)),
  )

  emptied :
      Ring (init_list_head joined list) list []
      × Ring (init_list_head joined list) head (ys ++ x ∷ xs)
      × SameOutside ((list ∷ x ∷ xs) ++ head ∷ ys) h (init_list_head joined list)
  emptied = (
    init_list_head-Ring joined list,
    Ring-frame (list ∷ []) joined-Ring (init_outside joined list)
        (λ c m. ground (arith, list_not_in)),
    λ c m.
        let (n, p) = joined-SameOutside c m in
        let (n', p') = init_outside joined list c (ground (arith, m)) in (n' ∙ n, p' ∙ p),
  )

splice_tail_of :
    (h : Heap) (list head : ℕ) (b : Bool)
    → list_empty h list ≡ b
    → list_splice_tail_init h list head
      ≡ (if b then h else init_list_head (list_splice_between h list (h.prev head) head) list)
unfolding list_splice_tail_init
splice_tail_of h list head true e = rw e refl
splice_tail_of h list head false e = rw e refl

-- `list_splice_tail_init` of two lists that share no node appends the nodes of the first to the
-- second, in their order, leaves the first empty, and writes to no other node.
pub list_splice_tail_init-Ring :
    {h : Heap} {list head : ℕ} (xs ys : List ℕ)
    → Ring h list xs
    → Ring h head ys
    → AreApart head ys list xs
    → let g = list_splice_tail_init h list head in
      Ring g list [] × Ring g head (ys ++ xs) × SameOutside ((list ∷ xs) ++ head ∷ ys) h g
list_splice_tail_init-Ring {h} {list} {head} [] ys r t apart =
    rw (splice_tail_of h list head true ((emptiness_lem r).0.1 refl), append-nil)
      (r, t, λ c m. (refl, refl))
list_splice_tail_init-Ring {h} {list} {head} (x ∷ xs) ys r t apart =
    let some_node : list_empty h list ≡ false = elim (Bool-cases (list_empty h list)) [
      | inl e ↦ cc ((emptiness_lem r).0.0 e)
      | inr e ↦ e
    ] in
    rw (splice_tail_of h list head false some_node) (emptied x xs ys r t apart)
