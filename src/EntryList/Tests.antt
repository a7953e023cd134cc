-- ===== src/EntryList/Tests.antt =====
-- Runs of the entry list.
use libkngin.Base.{ℕ, refl, List, [], ◌∷◌, arith}
use libkngin.KernelList.{Heap}
use libkngin.EntryList.{EntryList, new_list, insert}
use libkngin.EntryList.Laws.{Holds, new_list-Holds, insert-Holds}

abbrev blank : Heap
blank = record { next = λ a. 0; prev = λ a. 0 }

abbrev none_yet : EntryList
none_yet = new_list blank 1

abbrev one : EntryList
one = insert none_yet 2

abbrev elements : List ℕ
elements = 2 ∷ []

one-Holds : Holds one elements
unfolding new_list
one-Holds =
    insert-Holds 2 (new_list-Holds blank 1)
      (record { ne_head = λ e. absurd (omega arith); not_in = refl }) (omega arith)
