-- ===== src/ObjMgr/Sweep.antt =====
-- The loops of libkngin/detail/core/base/obj_mgr.h that visit or free every node.
use libkngin.Base.{ℕ, zero, suc, Bool, not, ◌&&◌, Option, none, some, ◌==◌, if◌then◌else◌}
use libkngin.Base.Run.{Run, done, fault, out_of_fuel, ◌>>=◌}
use libkngin.KernelList.{list_del, list_empty_careful}
use libkngin.ObjMgr.{ObjMgr, update, max_size, move_to_free}

-- `for_each`, where a call of `fn` may change the manager.
unfoldable pub for_each_loop : ℕ → (Option ℕ → ObjMgr → ObjMgr) → ℕ → ℕ → ObjMgr → Run ObjMgr
for_each_loop zero fn pos n m = out_of_fuel
for_each_loop (suc fuel) fn pos n m =
    let m1 = fn (m.ptr pos) m in
    let rest = for_each_loop fuel fn n (m1.heap.next n) m1 in if pos == m.list then done m else rest

unfoldable pub for_each : ℕ → (Option ℕ → ObjMgr → ObjMgr) → ObjMgr → Run ObjMgr
unfolding for_each_loop
for_each fuel fn m =
    let first = m.heap.next m.list in for_each_loop fuel fn first (m.heap.next first) m

unfoldable pub clear_loop : ℕ → ℕ → ℕ → ObjMgr → Run ObjMgr
unfolding move_to_free
clear_loop zero pos n m = out_of_fuel
clear_loop (suc fuel) pos n m = if pos == m.list then done m else elim (m.ptr pos) [
  | none ↦ fault
  | some obj ↦
      let m1 = move_to_free pos m in
      clear_loop fuel n (m1.heap.next n)
        (record m1 { ptr = update m1.ptr pos none; node = update m1.node obj none })
]

unfoldable pub clear : ℕ → ObjMgr → Run ObjMgr
unfolding clear_loop
clear fuel m = let first = m.heap.next m.list in clear_loop fuel first (m.heap.next first) m

unfoldable pub empty : ObjMgr → Run Bool
empty m =
    if (m.size == 0) && not (list_empty_careful m.heap m.list) then fault else done (m.size == 0)

unfoldable pub clear_free_loop : ℕ → ℕ → ℕ → ObjMgr → Run ObjMgr
clear_free_loop zero pos n m = out_of_fuel
clear_free_loop (suc fuel) pos n m =
    let h = list_del m.heap pos in
    let rest = clear_free_loop fuel n (h.next n) (record m { heap = h }) in
    if pos == m.free then done (record m { size_free = 0 }) else rest

-- `clear_free`, which is all that `shrink_to_fix` does.
unfoldable pub clear_free : ℕ → ObjMgr → Run ObjMgr
unfolding clear_free_loop
clear_free fuel m =
    let first = m.heap.next m.free in clear_free_loop fuel first (m.heap.next first) m

-- The destructor.
unfoldable pub destroy : ℕ → ObjMgr → Run ObjMgr
unfolding max_size clear clear_free
destroy fuel m = if max_size m == 0 then done m else clear fuel m >>= clear_free fuel
