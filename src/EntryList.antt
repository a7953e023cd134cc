-- ===== src/EntryList.antt =====
-- libkngin/detail/core/base/list.h: `class list`, a kernel list with a count of its entries. An
-- entry is the address of its `head_`.
pub mod Laws
mod Tests
use libkngin.Base.{
  ℕ, zero, suc, ◌+◌, ◌-◌, ◌%◌, ◌^◌, Bool, true, false, not, Option, none, some, ◌==◌, if◌then◌else◌,
}
use libkngin.KernelList.{Heap, init_list_head, list_add_tail, list_del, list_empty}

pub record EntryList : Type 0 where
  pub heap : Heap
  pub list : ℕ
  pub size : ℕ

-- `list ()`, with `list_` at the address `head`.
unfoldable pub new_list : Heap → ℕ → EntryList
new_list h head = record { heap = init_list_head h head; list = head; size = 0 }

-- `size_t` counts wrap.
unfoldable pub insert : EntryList → ℕ → EntryList
insert l value = record l { heap = list_add_tail l.heap value l.list; size = (l.size + 1) % 2 ^ 64 }

unfoldable pub remove : EntryList → ℕ → EntryList
remove l value = record l { heap = list_del l.heap value; size = (l.size + 2 ^ 64 - 1) % 2 ^ 64 }

-- `begin ()` and `end ()`: the first and the last entry, if there is one.
unfoldable pub begin : EntryList → Option ℕ
begin l = if not (list_empty l.heap l.list) then some (l.heap.next l.list) else none

unfoldable pub last_entry : EntryList → Option ℕ
last_entry l = if l.size == 0 then none else some (l.heap.prev l.list)

-- The loop of `exist` over `list_for_each_entry_safe`, on fuel; `none` if it runs out.
unfoldable pub exist_loop : ℕ → Heap → ℕ → ℕ → ℕ → ℕ → Option Bool
exist_loop zero h head value pos n = none
exist_loop (suc fuel) h head value pos n =
    let more = exist_loop fuel h head value n (h.next n) in
    if pos == head then some false else (if pos == value then some true else more)

unfoldable pub exist : ℕ → EntryList → ℕ → Option Bool
unfolding exist_loop
exist fuel l value =
    let first = l.heap.next l.list in exist_loop fuel l.heap l.list value first (l.heap.next first)

-- The assertion of `empty ()`, and its result.
unfoldable pub empty_assert : EntryList → Bool
empty_assert l =
    if l.size == 0
    then l.heap.next l.list == l.heap.prev l.list
    else not (l.heap.next l.list == l.heap.prev l.list)

unfoldable pub empty : EntryList → Bool
empty l = l.size == 0

-- The loop of `clear`, on fuel.
unfoldable pub clear_loop : ℕ → Heap → ℕ → ℕ → ℕ → Option Heap
clear_loop zero h head pos n = none
clear_loop (suc fuel) h head pos n =
    let h1 = list_del h pos in
    let more = clear_loop fuel h1 head n (h1.next n) in if pos == head then some h else more

unfoldable pub clear : ℕ → EntryList → Option EntryList
unfolding clear_loop
clear fuel l =
    let first = l.heap.next l.list in
    elim (clear_loop fuel l.heap l.list first (l.heap.next first)) [
      | none ↦ none
      | some h ↦ some (record l { heap = h; size = 0 })
    ]
