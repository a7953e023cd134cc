-- ===== src/KernelList.antt =====
-- libkngin/detail/core/base/kernel_list.h: circular doubly linked lists through nodes in a heap. A
-- node is its address; a function that stores through a pointer returns the new heap.
pub mod Chain
pub mod Insert
pub mod Delete
pub mod Move
pub mod Splice
pub mod Walk
mod Tests
use libkngin.Base.{
  ℕ, zero, suc, ◌+◌, Bool, true, false, ◌&&◌, not, List, [], ◌∷◌, Option, none, some, ◌==◌,
  if◌then◌else◌,
}
use libkngin.Base.Memory.{update}

-- The two pointers of each `struct list_head`.
pub record Heap : Type 0 where
  pub next : ℕ → ℕ
  pub prev : ℕ → ℕ

-- `a->next = b` and `a->prev = b`.
abbrev pub set_next : Heap → ℕ → ℕ → Heap
set_next h a b = record h { next = update h.next a b }

abbrev pub set_prev : Heap → ℕ → ℕ → Heap
set_prev h a b = record h { prev = update h.prev a b }

-- LIST_POISON1 and LIST_POISON2.
abbrev pub list_poison1 : ℕ
list_poison1 = 0x00100100

abbrev pub list_poison2 : ℕ
list_poison2 = 0x00200200

-- INIT_LIST_HEAD
unfoldable pub init_list_head : Heap → ℕ → Heap
init_list_head h list = set_prev (set_next h list list) list list

-- __list_add
unfoldable pub list_add_between : Heap → ℕ → ℕ → ℕ → Heap
list_add_between h new_node prev next =
    let h1 = set_prev h next new_node in
    let h2 = set_next h1 new_node next in
    let h3 = set_prev h2 new_node prev in set_next h3 prev new_node

unfoldable pub list_add : Heap → ℕ → ℕ → Heap
unfolding list_add_between
list_add h new_node head = list_add_between h new_node head (h.next head)

unfoldable pub list_add_tail : Heap → ℕ → ℕ → Heap
unfolding list_add_between
list_add_tail h new_node head = list_add_between h new_node (h.prev head) head

-- __list_del
unfoldable pub list_del_between : Heap → ℕ → ℕ → Heap
list_del_between h prev next = set_next (set_prev h next prev) prev next

-- __list_del_entry
unfoldable pub list_del_entry : Heap → ℕ → Heap
unfolding list_del_between
list_del_entry h entry = list_del_between h (h.prev entry) (h.next entry)

unfoldable pub list_del : Heap → ℕ → Heap
unfolding list_del_between
list_del h entry =
    let h1 = list_del_between h (h.prev entry) (h.next entry) in
    set_prev (set_next h1 entry list_poison1) entry list_poison2

unfoldable pub list_replace : Heap → ℕ → ℕ → Heap
list_replace h old new_node =
    let h1 = set_next h new_node (h.next old) in
    let h2 = set_prev h1 (h1.next new_node) new_node in
    let h3 = set_prev h2 new_node (h2.prev old) in set_next h3 (h3.prev new_node) new_node

unfoldable pub list_replace_init : Heap → ℕ → ℕ → Heap
unfolding list_replace init_list_head
list_replace_init h old new_node = init_list_head (list_replace h old new_node) old

unfoldable pub list_del_init : Heap → ℕ → Heap
unfolding list_del_entry init_list_head
list_del_init h entry = init_list_head (list_del_entry h entry) entry

unfoldable pub list_move : Heap → ℕ → ℕ → Heap
unfolding list_del_entry list_add
list_move h list head = list_add (list_del_entry h list) list head

unfoldable pub list_move_tail : Heap → ℕ → ℕ → Heap
unfolding list_del_entry list_add_tail
list_move_tail h list head = list_add_tail (list_del_entry h list) list head

unfoldable pub list_is_last : Heap → ℕ → ℕ → Bool
list_is_last h list head = h.next list == head

unfoldable pub list_empty : Heap → ℕ → Bool
list_empty h head = h.next head == head

unfoldable pub list_empty_careful : Heap → ℕ → Bool
list_empty_careful h head = let next = h.next head in (next == head) && (next == h.prev head)

unfoldable pub list_rotate_left : Heap → ℕ → Heap
unfolding list_empty list_move_tail
list_rotate_left h head = if not (list_empty h head) then list_move_tail h (h.next head) head else h

unfoldable pub list_is_singular : Heap → ℕ → Bool
unfolding list_empty
list_is_singular h head = not (list_empty h head) && (h.next head == h.prev head)

-- __list_cut_position
unfoldable pub list_cut_at : Heap → ℕ → ℕ → ℕ → Heap
list_cut_at h list head entry =
    let new_node_first = h.next entry in
    let h1 = set_next h list (h.next head) in
    let h2 = set_prev h1 (h1.next list) list in
    let h3 = set_prev h2 list entry in
    let h4 = set_next h3 entry list in
    let h5 = set_next h4 head new_node_first in set_prev h5 new_node_first head

unfoldable pub list_cut_position : Heap → ℕ → ℕ → ℕ → Heap
unfolding list_empty list_is_singular init_list_head list_cut_at
list_cut_position h list head entry =
    if list_empty h head
    then h
    else (if list_is_singular h head && (not (h.next head == entry) && not (head == entry))
        then h
        else (if entry == head then init_list_head h list else list_cut_at h list head entry))

-- __list_splice
unfoldable pub list_splice_between : Heap → ℕ → ℕ → ℕ → Heap
list_splice_between h list prev next =
    let first = h.next list in
    let last = h.prev list in
    let h1 = set_prev h first prev in
    let h2 = set_next h1 prev first in let h3 = set_next h2 last next in set_prev h3 next last

unfoldable pub list_splice : Heap → ℕ → ℕ → Heap
unfolding list_empty list_splice_between
list_splice h list head =
    if not (list_empty h list) then list_splice_between h list head (h.next head) else h

unfoldable pub list_splice_tail : Heap → ℕ → ℕ → Heap
unfolding list_empty list_splice_between
list_splice_tail h list head =
    if not (list_empty h list) then list_splice_between h list (h.prev head) head else h

unfoldable pub list_splice_init : Heap → ℕ → ℕ → Heap
unfolding list_empty list_splice_between init_list_head
list_splice_init h list head =
    if not (list_empty h list)
    then init_list_head (list_splice_between h list head (h.next head)) list
    else h

unfoldable pub list_splice_tail_init : Heap → ℕ → ℕ → Heap
unfolding list_empty list_splice_between init_list_head
list_splice_tail_init h list head =
    if not (list_empty h list)
    then init_list_head (list_splice_between h list (h.prev head) head) list
    else h

-- The nodes that `list_for_each (pos, head)` visits, on fuel; `none` if it runs out.
unfoldable pub walk : ℕ → Heap → ℕ → ℕ → Option (List ℕ)
walk zero h head pos = none
walk (suc fuel) h head pos =
    let more = walk fuel h head (h.next pos) in
    if pos == head then some [] else elim more [ none ↦ none | some ps ↦ some (pos ∷ ps) ]

unfoldable pub list_for_each : ℕ → Heap → ℕ → Option (List ℕ)
unfolding walk
list_for_each fuel h head = walk fuel h head (h.next head)
