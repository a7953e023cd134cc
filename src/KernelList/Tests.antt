-- ===== src/KernelList/Tests.antt =====
-- Runs of the operations on small lists.
use libkngin.Base.{ℕ, ◌≡◌, refl, [], ◌∷◌, ◌++◌, arith}
use libkngin.KernelList.{Heap, init_list_head, list_add_tail, list_splice_tail_init}
use libkngin.KernelList.Chain.{Ring, SameOutside}
use libkngin.KernelList.Insert.{IsFresh, init_list_head-Ring, list_add_tail-Ring}
use libkngin.KernelList.Move.{AreApart}
use libkngin.KernelList.Splice.{list_splice_tail_init-Ring}

abbrev blank : Heap
blank = record { next = λ a. 0; prev = λ a. 0 }

abbrev empty : Heap
empty = init_list_head blank 1

abbrev one : Heap
one = list_add_tail empty 2 1

-- The list 2, 3 at 1.
abbrev two : Heap
two = list_add_tail one 3 1

fresh : (new : ℕ) → 3 ≡ new → IsFresh new 1 (2 ∷ [])
fresh new e = record { ne_head = λ f. absurd (omega arith); not_in = ground arith }

empty-Ring : Ring empty 1 []
empty-Ring = init_list_head-Ring blank 1

one-Ring : Ring one 1 (2 ∷ [])
one-Ring =
    (list_add_tail-Ring 2 empty-Ring
      (record { ne_head = λ f. absurd (omega arith); not_in = refl })).0

two-Ring : Ring two 1 (2 ∷ 3 ∷ [])
two-Ring = (list_add_tail-Ring 3 one-Ring (fresh 3 refl)).0

-- A second list, 5 at 4, in the same heap.
abbrev both : Heap
both = list_add_tail (init_list_head two 4) 5 4

both-first : Ring both 1 (2 ∷ 3 ∷ [])
unfolding list_add_tail init_list_head
both-first = record {
  chain = ((refl, refl), ((refl, refl), (refl, refl)));
  distinct = (refl, (refl, tt));
  apart = refl;
}

both-second : Ring both 4 (5 ∷ [])
unfolding list_add_tail init_list_head
both-second = record { chain = ((refl, refl), (refl, refl)); distinct = (refl, tt); apart = refl }

both-apart : AreApart 4 (5 ∷ []) 1 (2 ∷ 3 ∷ [])
both-apart c m = ground arith

list_splice_tail_init-Ring_example :
    let g = list_splice_tail_init both 1 4 in
    Ring g 1 []
    × Ring g 4 ((5 ∷ []) ++ 2 ∷ 3 ∷ [])
    × SameOutside ((1 ∷ 2 ∷ 3 ∷ []) ++ 4 ∷ 5 ∷ []) both g
list_splice_tail_init-Ring_example =
    list_splice_tail_init-Ring (2 ∷ 3 ∷ []) (5 ∷ []) both-first both-second both-apart
