-- ===== src/ObjMgr.antt =====
-- libkngin/detail/core/base/obj_mgr.h: the objects that a manager holds, in nodes of kernel lists, and
-- the nodes that it keeps spare. The build is one with assertions; one that fails is a fault.
pub mod Rings
pub mod Sweep
pub mod Owners
pub mod Spare
pub mod Members
pub mod Holds
pub mod Visit
pub mod Clear
pub mod Destroy
mod Tests
use libkngin.Base.{
  ℕ, zero, suc, ◌+◌, ◌-◌, ◌*◌, ◌%◌, ◌^◌, Bool, true, false, not, ◌&&◌, ◌||◌, Option, none, some,
  ltb, ◌==◌, if◌then◌else◌,
}
use libkngin.Base.Run.{Run, done, fault, out_of_fuel, ◌>>=◌}
use libkngin.KernelList.{
  Heap, init_list_head, list_add_tail, list_move_tail, list_del, list_empty, list_empty_careful,
}
use libkngin.EntryList.{exist_loop}

-- A node is the address of its `head_`; `ptr` is the object that each node holds, and `node` the
-- `node_` of each object. `new` returns the addresses from `unused` on, and none twice.
pub record ObjMgr : Type 0 where
  pub heap : Heap
  pub ptr : ℕ → Option ℕ
  pub node : ℕ → Option ℕ
  pub list : ℕ
  pub free : ℕ
  pub size : ℕ
  pub size_free : ℕ
  pub unused : ℕ

-- A pointer is stored.
abbrev pub update : (ℕ → Option ℕ) → ℕ → Option ℕ → ℕ → Option ℕ
update f p v a = if a == p then v else f a

-- `size_t` arithmetic.
abbrev pub wrap : ℕ → ℕ
wrap n = n % 2 ^ 64

abbrev pub sub_size : ℕ → ℕ → ℕ
sub_size a b = wrap (a + (2 ^ 64 - b))

unfoldable pub max_size : ObjMgr → ℕ
max_size m = wrap (m.size + m.size_free)

-- `new node_type (ptr)`: the state with the node at the address `m.unused`.
unfoldable pub make_node : Option ℕ → ObjMgr → ObjMgr
make_node obj m = record m {
  heap = init_list_head m.heap m.unused;
  ptr = update m.ptr m.unused obj;
  unused = suc m.unused;
}

unfoldable pub move_to_free : ℕ → ObjMgr → ObjMgr
move_to_free n m = record m {
  heap = list_move_tail m.heap n m.free;
  size = sub_size m.size 1;
  size_free = wrap (m.size_free + 1);
}

-- `list_first_entry_or_null (&free_, ...)`
unfoldable pub first_free : ObjMgr → Option ℕ
first_free m = if list_empty m.heap m.free then none else some (m.heap.next m.free)

-- The node, or null, and the state.
unfoldable pub free_to_list : ℕ → ObjMgr → Run (Option ℕ × ObjMgr)
free_to_list obj m = if m.size_free == 0 then done (none, m) else elim (first_free m) [
  | none ↦ fault
  | some n ↦ done (
    some n,
    record m {
      heap = list_move_tail m.heap n m.list;
      ptr = update m.ptr n (some obj);
      size = wrap (m.size + 1);
      size_free = sub_size m.size_free 1;
    },
  )
]

-- The two loops of `resize`.
unfoldable pub add_free : ℕ → ObjMgr → ObjMgr
unfolding make_node
add_free zero m = m
add_free (suc num) m =
    let m1 = make_node none m in
    add_free num (record m1 {
      heap = list_add_tail m1.heap m.unused m1.free;
      size_free = wrap (m1.size_free + 1);
    })

unfoldable pub drop_free : ℕ → ObjMgr → Run ObjMgr
drop_free zero m = done m
drop_free (suc num) m = elim (first_free m) [
  | none ↦ fault
  | some n ↦
      drop_free num (record m { heap = list_del m.heap n; size_free = sub_size m.size_free 1 })
]

unfoldable pub resize : ℕ → ObjMgr → Run ObjMgr
unfolding max_size add_free drop_free
resize size m =
    if ltb (max_size m) size
    then done (add_free (sub_size size (max_size m)) m)
    else if ltb size m.size || (size == max_size m)
    then done m
    else drop_free (sub_size m.size_free (sub_size size m.size)) m

-- The constructor, on the addresses of `list_` and `free_`.
unfoldable pub obj_mgr : Heap → (ℕ → Option ℕ) → ℕ → ℕ → ℕ → ℕ → Run ObjMgr
unfolding resize
obj_mgr h node list free unused size = resize size (record {
  heap = init_list_head (init_list_head h list) free;
  ptr = λ n. none;
  node = node;
  list = list;
  free = free;
  size = 0;
  size_free = 0;
  unused = unused;
})

-- The loops over the lists run on fuel.
abbrev pub within_fuel {ℓ} : {A : Type ℓ} → Option A → Run A
within_fuel none = out_of_fuel
within_fuel (some a) = done a

unfoldable pub exist : ℕ → ℕ → ObjMgr → Run Bool
unfolding exist_loop
exist fuel obj m = elim (m.node obj) [
  | none ↦ done false
  | some n ↦
      let first = m.heap.next m.list in
      within_fuel (exist_loop fuel m.heap m.list n first (m.heap.next first))
]

-- `prealloc` is KNGIN_LIST_PRE_ALLOC_SIZE.
module _ (prealloc : ℕ) where
  unfoldable pub auto_fix : ObjMgr → Run ObjMgr
  unfolding resize max_size
  auto_fix m =
      if m.size_free == 0
      then resize (wrap (max_size m * 2)) m
      else if ltb (wrap (m.size * 2)) m.size_free && ltb prealloc m.size_free
      then resize (sub_size (max_size m) (sub_size m.size_free prealloc)) m
      else done m

  unfoldable pub insert : ℕ → ℕ → ObjMgr → Run ObjMgr
  insert fuel obj m = do
    there ← exist fuel obj m
    if there
        then fault
        else (if m.size_free == 0
            then auto_fix m >>= (λ m1.
              let m2 = make_node (some obj) m1 in
              done (record m2 {
                heap = list_add_tail m2.heap m1.unused m2.list;
                node = update m2.node obj (some m1.unused);
                size = wrap (m2.size + 1);
              }))
            else free_to_list obj m >>= (λ r. elim r.0 [
              | none ↦ fault
              | some n ↦ done (record r.1 { node = update r.1.node obj (some n) })
            ]))

  unfoldable pub remove : ℕ → ℕ → ObjMgr → Run ObjMgr
  remove fuel obj m = do
    there ← exist fuel obj m
    if there
        then auto_fix (elim (m.node obj) [
          | none ↦ m
          | some n ↦
              let m1 = move_to_free n m in
              record m1 { ptr = update m1.ptr n none; node = update m1.node obj none }
        ])
        else fault
