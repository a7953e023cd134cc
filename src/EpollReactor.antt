-- ===== src/EpollReactor.antt =====
-- libkngin/detail/core/event/impl/epoll_reactor.cpp: events enter and leave the kernel's interest
-- list, and what `epoll_wait` reports becomes the list of active events.
pub mod Laws
mod Tests
use Prim.Native.Nat.{bit_and, bit_or}
use libkngin.Base.{
  ℕ, ◌+◌, ◌^◌, Bool, true, false, not, List, [], ◌∷◌, ◌++◌, Option, none, some, ◌==◌, if◌then◌else◌,
  length,
}
use libkngin.Base.Int.{ℤ, eqb_ℤ}
use libkngin.Base.Run.{Run, done, fault}
use libkngin.Base.Result.{Result, ok, throw, system_error}
use libkngin.EpollEvent.{EpollEvent, epollin, epollpri, epollout, epollerr, epollhup}

-- `event_type_read`, `event_type_write`, `event_type_error` and `event_type_oob`.
abbrev pub event_type_read : ℕ
event_type_read = 1

abbrev pub event_type_write : ℕ
event_type_write = 2

abbrev pub event_type_error : ℕ
event_type_error = 4

abbrev pub event_type_oob : ℕ
event_type_oob = 8

-- What the kernel reports: the event at an address, or the waker, with its bits; and whether the read
-- of `on_wakeup` then fails, about which it throws.
pub record Report : Type 0 where
  pub event : Option ℕ
  pub bits : ℕ
  pub read_fails : Bool

-- `event_loop::actived_event`.
pub record Actived : Type 0 where
  pub event : ℕ
  pub type : ℕ

-- `EPOLL_CTL_ADD`, `EPOLL_CTL_DEL` and `EPOLL_CTL_MOD`.
pub data Ctl : Type 0 where
  ctl_add ctl_del ctl_mod : Ctl

-- `internal_event.events & mask`
unfoldable pub meets : ℕ → ℕ → Bool
meets bits mask = not (bit_and bits mask == 0)

-- `if (internal_event.events & FLAG) flags |= type`
unfoldable pub add_type : ℕ → ℕ → ℕ → ℕ → ℕ
unfolding meets
add_type bits flag type flags = if meets bits (2 ^ flag) then bit_or flags type else flags

unfoldable pub type_of : ℕ → ℕ
unfolding meets add_type
type_of bits =
    if meets bits (bit_or (2 ^ epollerr) (2 ^ epollhup))
    then event_type_error
    else (let in_flags = add_type bits epollin event_type_read 0 in
        let out_flags = add_type bits epollout event_type_write in_flags in
        add_type bits epollpri event_type_oob out_flags)

-- The `for` loop of `wait`, which appends to `list`: whether a read throws out of it, the list, and
-- `wakeups`, which counts the calls of `on_wakeup ()`.
unfoldable pub wait_loop : List Report → List Actived → ℕ → Bool × List Actived × ℕ
unfolding type_of
wait_loop [] list wakeups = (false, list, wakeups)
wait_loop (r ∷ reports) list wakeups = elim r.event [
  | none ↦
      let rest = wait_loop reports list (wakeups + 1) in
      if r.read_fails then (true, list, wakeups + 1) else rest
  | some ev ↦ wait_loop reports (list ++ record { event = ev; type = type_of r.bits } ∷ []) wakeups
]

-- What `epoll_wait` returns: its reports, or an error, which may be that it was interrupted.
pub data WaitAnswer : Type 0 where
  reports : List Report → WaitAnswer
  interrupted : WaitAnswer
  failed : WaitAnswer

-- `wait (list, delay)`: what it returns or throws, the list, and the calls of `on_wakeup ()`.
unfoldable pub wait : WaitAnswer → List Actived → Result ℕ × List Actived × ℕ
unfolding wait_loop
wait interrupted list = (ok 0, list, 0)
wait failed list = (throw system_error, list, 0)
wait (reports rs) list =
    let (threw, list', wakeups) = wait_loop rs list 0 in
    (if threw then throw system_error else ok (length rs), list', wakeups)

-- `epoll_ctl opt h flags kernel` is what the system call makes of the kernel's state, and whether
-- it succeeds.
module _ {Kernel : Type 0} (epoll_ctl : Ctl → ℤ → ℕ → Kernel → Bool × Kernel) where
  unfoldable pub update_event : Ctl → EpollEvent → Kernel → Result (Unit {0}) × Kernel
  update_event opt ev kernel =
      let (success, kernel') = epoll_ctl opt ev.handle ev.flags kernel in
      (if success then ok tt else throw system_error, kernel')

  -- The events as they are left come first, since an exception leaves them too.
  unfoldable pub register_event :
      EpollEvent → Kernel → Run (EpollEvent × Result (Unit {0}) × Kernel)
  unfolding update_event
  register_event ev kernel =
      if ev.registed
      then fault
      else (let ev' : EpollEvent = record ev { registed = true } in
          let (r, kernel') = update_event ctl_add ev' kernel in done (ev', r, kernel'))

  unfoldable pub remove_event : EpollEvent → Kernel → Run (EpollEvent × Result (Unit {0}) × Kernel)
  unfolding update_event
  remove_event ev kernel =
      if ev.registed
      then (let ev' : EpollEvent = record ev { registed = false } in
          let (r, kernel') = update_event ctl_del ev' kernel in done (ev', r, kernel'))
      else fault

  unfoldable pub modify_event : EpollEvent → Kernel → Run (EpollEvent × Result (Unit {0}) × Kernel)
  unfolding update_event
  modify_event ev kernel =
      if ev.registed
      then (let (r, kernel') = update_event ctl_mod ev kernel in done (ev, r, kernel'))
      else fault
