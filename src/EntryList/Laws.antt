-- ===== src/EntryList/Laws.antt =====
-- `class list` keeps its count and holds what was inserted and not removed, in order.
use libkngin.Base.{
  ℕ, zero, suc, ◌+◌, ◌^◌, ◌<◌, ◌≡◌, refl, sym, ◌∙◌, ◌↔◌, true, false, List, [], ◌∷◌, ◌++◌, arith,
  length, length-append, mem, Option, none, some, Bool-cases, inl, inr,
}
use libkngin.KernelList.{Heap, list_del, list_empty}
use libkngin.KernelList.Chain.{Chain, Ring, last, next-first, prev-last, mem-last}
use libkngin.KernelList.Insert.{IsFresh, init_list_head-Ring, list_add_tail-Ring, emptiness_lem}
use libkngin.KernelList.Delete.{list_del-Ring}
use libkngin.EntryList.{
  EntryList, new_list, insert, remove, begin, last_entry, exist_loop, exist, empty_assert, empty,
  clear_loop, clear,
}

-- The list holds the entries `xs`, in this order, and counts them.
pub record Holds (l : EntryList) (xs : List ℕ) : Type 0 where
  pub ring : Ring l.heap l.list xs
  pub count : l.size ≡ length xs
  pub small : length xs < 2 ^ 63

pub new_list-Holds : (h : Heap) (head : ℕ) → Holds (new_list h head) []
unfolding new_list
new_list-Holds h head = record {
  ring = init_list_head-Ring h head;
  count = refl;
  small = omega arith;
}

-- `insert` puts a new entry behind the others.
pub insert-Holds :
    {l : EntryList} {xs : List ℕ} (value : ℕ)
    → Holds l xs
    → IsFresh value l.list xs
    → length xs + 1 < 2 ^ 63
    → Holds (insert l value) (xs ++ value ∷ [])
unfolding insert
insert-Holds {l} {xs} value h f small = record {
  ring = (list_add_tail-Ring value h.ring f).0;
  count = omega (arith, h.count, length-append xs (value ∷ []));
  small = omega (arith, length-append xs (value ∷ []));
}

-- `remove` takes its entry out from between the others.
pub remove-Holds :
    {l : EntryList} (value : ℕ) (xs ys : List ℕ)
    → Holds l (xs ++ value ∷ ys)
    → Holds (remove l value) (xs ++ ys)
unfolding remove
remove-Holds {l} value xs ys h = record {
  ring = (list_del-Ring value xs ys h.ring).0;
  count = omega (arith, h.count, h.small, length-append xs ys, length-append xs (value ∷ ys));
  small = omega (arith, h.small, length-append xs ys, length-append xs (value ∷ ys));
}

pub exist-Chain :
    (fuel : ℕ) (h : Heap) (head value a : ℕ) (xs : List ℕ)
    → Chain h a xs head
    → mem head xs ≡ false
    → length xs < fuel
    → exist_loop fuel h head value (h.next a) (h.next (h.next a)) ≡ some (mem value xs)
unfolding exist_loop
exist-Chain zero h head value a xs c out room = absurd (omega arith)
exist-Chain (suc fuel) h head value a [] c out room = ground arith
exist-Chain (suc fuel) h head value a (x ∷ xs) c out room =
    ground (arith, exist-Chain fuel h head value x xs c.1 (ground arith) (omega arith))

abbrev pub front : List ℕ → Option ℕ
front [] = none
front (x ∷ xs) = some x

abbrev pub back : List ℕ → Option ℕ
back [] = none
back (x ∷ xs) = some (last x xs)

queries_of :
    (l : EntryList) (xs : List ℕ)
    → Holds l xs
    → (begin l ≡ front xs) × (last_entry l ≡ back xs) × ((empty l ≡ true) ↔ (xs ≡ []))
unfolding begin last_entry empty
queries_of l [] h = ground (arith, (emptiness_lem h.ring).0.1 refl, h.count)
queries_of l (x ∷ xs) h =
    let e : list_empty l.heap l.list ≡ false = elim (Bool-cases (list_empty l.heap l.list)) [
      | inl t ↦ cc ((emptiness_lem h.ring).0.0 t)
      | inr f ↦ f
    ] in
    let n : l.heap.next l.list ≡ x = h.ring.chain.0.0 in
    let p : l.heap.prev l.list ≡ last x xs = prev-last l.heap l.list l.list (x ∷ xs) h.ring.chain in
    let c : l.size ≡ suc (length xs) = h.count in
    (ground arith, ground arith, (λ t. ground arith, λ t. cc))

-- `exist` ends in one round more than there are entries and says whether its argument is one,
-- `begin` and `end` return the first and the last entry, `empty` says whether there is none.
pub queries-Holds :
    {l : EntryList} {xs : List ℕ} (fuel value : ℕ)
    → Holds l xs
    → length xs < fuel
    → (exist fuel l value ≡ some (mem value xs))
      × (begin l ≡ front xs)
      × (last_entry l ≡ back xs)
      × ((empty l ≡ true) ↔ (xs ≡ []))
unfolding exist
queries-Holds {l} {xs} fuel value h room =
    let (b, e, n) = queries_of l xs h in
    (exist-Chain fuel l.heap l.list value l.list xs h.ring.chain h.ring.apart room, b, e, n)

clear_ring :
    (fuel : ℕ) (h : Heap) (head : ℕ) (xs : List ℕ)
    → Ring h head xs
    → length xs < fuel
    → (g : Heap) × (clear_loop fuel h head (h.next head) (h.next (h.next head)) ≡ some g)
      × Ring g head []
unfolding clear_loop
clear_ring zero h head xs r room = absurd (omega arith)
clear_ring (suc fuel) h head [] r room = (h, ground arith, r)
clear_ring (suc fuel) h head (x ∷ xs) r room =
    let (r1, _, _, _) = list_del-Ring x [] xs r in
    let (g, e, r2) = clear_ring fuel (list_del h x) head xs r1 (omega arith) in
    let a : h.next head ≡ x = r.chain.0.0 in
    let b : h.next x ≡ (list_del h x).next head =
      next-first h x head xs r.chain.1 ∙ sym (next-first (list_del h x) head head xs r1.chain) in
    (g, ground arith, r2)

-- `clear` ends in one round more than there are entries and leaves an empty list.
pub clear-Holds :
    {l : EntryList} {xs : List ℕ} (fuel : ℕ)
    → Holds l xs
    → length xs < fuel
    → (l' : EntryList) × (clear fuel l ≡ some l') × Holds l' []
unfolding clear
clear-Holds {l} {xs} fuel h room =
    let (g, e, r) = clear_ring fuel l.heap l.list xs h.ring room in
    (
      record l { heap = g; size = 0 },
      rw (e, clear),
      record { ring = r; count = refl; small = omega arith },
    )

empty_assert_of :
    (l : EntryList) (xs : List ℕ) → Holds l xs → ((empty_assert l ≡ false) ↔ (length xs ≡ 1))
unfolding empty_assert
empty_assert_of l [] h = ground (arith, h.count, h.ring.chain)
empty_assert_of l (x ∷ []) h = ground (arith, h.count, h.ring.chain)
empty_assert_of l (x ∷ y ∷ xs) h = ground (
  arith,
  h.count,
  h.ring.chain.0,
  h.ring.distinct.0,
  prev-last l.heap l.list l.list (x ∷ y ∷ xs) h.ring.chain,
  mem-last y xs,
)

-- The assertion of `empty ()` fails for a list of one entry, and holds for every other list.
pub empty_assert_iff :
    {l : EntryList} {xs : List ℕ} → Holds l xs → ((empty_assert l ≡ false) ↔ (length xs ≡ 1))
empty_assert_iff {l} {xs} h = empty_assert_of l xs h
