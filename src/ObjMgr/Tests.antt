-- ===== src/ObjMgr/Tests.antt =====
-- A manager with its lists at 1 and 2, one spare node, and the objects 7 and 8.
use Prim.Native.Nat.{max}
use libkngin.Base.{
  ℕ, suc, ◌+◌, ◌*◌, ◌^◌, ◌<◌, ◌≡◌, ◌≤◌, refl, ◌⊎◌, Bool, true, false, List, [], ◌∷◌, ◌++◌, arith,
  mem, Option, none,
}
use libkngin.Base.Run.{Run, done, fault, ◌>>=◌}
use libkngin.KernelList.{Heap, init_list_head, list_add_tail, list_move_tail, list_del, list_empty}
use libkngin.EntryList.{exist_loop}
use libkngin.ObjMgr.{
  ObjMgr, obj_mgr, insert, remove, exist, auto_fix, free_to_list, first_free, make_node,
  move_to_free, resize, add_free, drop_free, max_size,
}
use libkngin.ObjMgr.Holds.{Holds, obj_mgr-Holds, insert_lem, remove_lem, insert_new, size-Holds}
use libkngin.ObjMgr.Visit.{for_each_lem, each}
use libkngin.ObjMgr.Destroy.{destroy_lem}
use libkngin.ObjMgr.Sweep.{for_each, destroy}

abbrev blank : Heap
blank = record { next = λ a. 0; prev = λ a. 0 }

-- What `exist` says of 7 and of 8 when 7 and 8 have been inserted and 7 removed.
abbrev trial : Run (Bool × Bool × ℕ × ℕ)
trial = do
  m ← obj_mgr blank (λ o. none) 1 2 3 1
  m1 ← insert 15 5 7 m
  m2 ← insert 15 5 8 m1
  m3 ← remove 15 5 7 m2
  a ← exist 5 7 m3
  b ← exist 5 8 m3
  done (a, b, m3.size, m3.size_free)

trial_test : trial ≡ done (false, true, 1, 2)
unfolding obj_mgr insert remove exist auto_fix free_to_list first_free make_node move_to_free resize
    add_free drop_free max_size init_list_head list_add_tail list_move_tail list_del list_empty
    exist_loop
trial_test = refl

abbrev started :
    (m : ObjMgr) × (obj_mgr blank (λ o. none) 1 2 3 1 ≡ done m) × Holds m [] × (m.size_free ≡ 1)
started = obj_mgr-Holds blank 1 2 3 1 refl (omega arith) (omega arith) (omega arith)

started_small : 0 + started.0.size_free < 2 ^ 61
started_small = omega (arith, started.3)

abbrev with_seven :
    (m : ObjMgr) × (insert 15 5 7 started.0 ≡ done m)
    × Holds m (7 ∷ [])
    × (m.size_free ≤ max started.0.size_free m.size)
with_seven = insert_new 15 5 7 started.2 (omega arith) started_small refl

with_seven_small : 1 + with_seven.0.size_free < 2 ^ 61
with_seven_small = omega (arith, with_seven.3, started.3, size-Holds with_seven.2)

insert_lem_example :
    ((mem 8 (7 ∷ []) ≡ false)
      × ((m' : ObjMgr) × (insert 15 5 8 with_seven.0 ≡ done m')
          × Holds m' (7 ∷ 8 ∷ [])
          × (m'.size_free ≤ max with_seven.0.size_free m'.size)))
    ⊎ ((mem 8 (7 ∷ []) ≡ true) × (insert 15 5 8 with_seven.0 ≡ fault))
insert_lem_example = insert_lem 15 5 8 with_seven.2 (omega arith) with_seven_small

remove_lem_example :
    ((us : List ℕ) × (vs : List ℕ) × (7 ∷ [] ≡ us ++ 7 ∷ vs)
      × ((m' : ObjMgr) × (remove 15 5 7 with_seven.0 ≡ done m')
          × Holds m' (us ++ vs)
          × (m'.size_free ≤ max (m'.size * 2) 15)))
    ⊎ ((mem 7 (7 ∷ []) ≡ false) × (remove 15 5 7 with_seven.0 ≡ fault))
remove_lem_example = remove_lem 15 5 7 with_seven.2 (omega arith) with_seven_small

-- A callback that changes a counter outside of the lists.
abbrev tick : Option ℕ → ObjMgr → ObjMgr
tick o m = record m { unused = suc m.unused }

for_each_lem_example : for_each 2 tick with_seven.0 ≡ done (each tick (7 ∷ []) with_seven.0)
for_each_lem_example = for_each_lem tick 2 (λ o m. (refl, refl, refl)) with_seven.2 (omega arith)

destroy_lem_example :
    (m' : ObjMgr) × (destroy 9 with_seven.0 ≡ done m')
    × Holds m' []
    × (m'.size_free ≡ 0)
    × ((o : ℕ) → m'.node o ≡ none)
destroy_lem_example =
    destroy_lem 9 with_seven.2 (omega (arith, with_seven.3, started.3, size-Holds with_seven.2))
