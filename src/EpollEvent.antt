-- ===== src/EpollEvent.antt =====
-- libkngin/detail/core/event/impl/epoll_event.h: what a descriptor is watched for. The constants
-- are those of <sys/epoll.h>.
pub mod Laws
mod Tests
use Prim.Native.Nat.{bit_and, bit_or}
use libkngin.Base.{ℕ, ◌-◌, ◌^◌, Bool, true, false, not, ◌==◌}
use libkngin.Base.Int.{ℤ, pos, negsuc}

-- The number of the bit of each flag.
abbrev pub epollin : ℕ
epollin = 0

abbrev pub epollpri : ℕ
epollpri = 1

abbrev pub epollout : ℕ
epollout = 2

abbrev pub epollerr : ℕ
epollerr = 3

abbrev pub epollhup : ℕ
epollhup = 4

abbrev pub epolloneshot : ℕ
epolloneshot = 30

abbrev pub epollet : ℕ
epollet = 31

-- `handler_` is not part of the state: it is what the reactor calls for the event.
pub record EpollEvent : Type 0 where
  pub handle : ℤ
  pub flags : ℕ
  pub registed : Bool

-- `epoll_event ()` and `epoll_event (h, cb)`.
abbrev pub epoll_event : ℤ → EpollEvent
epoll_event h = record {
  handle = h;
  flags = bit_or (2 ^ epollerr) (2 ^ epollhup);
  registed = false;
}

-- `epoll_event (epoll_event &&ev)`: the new event, and what is left in `ev`.
unfoldable pub move_event : EpollEvent → EpollEvent × EpollEvent
move_event ev = (ev, epoll_event (negsuc 0))

-- `flags_ |= FLAG`, `flags_ &= ~FLAG` and `flags_ & FLAG` on 32 bits.
unfoldable pub enable : ℕ → EpollEvent → EpollEvent
enable bit ev = record ev { flags = bit_or ev.flags (2 ^ bit) }

unfoldable pub disable : ℕ → EpollEvent → EpollEvent
disable bit ev = record ev { flags = bit_and ev.flags (2 ^ 32 - 1 - 2 ^ bit) }

unfoldable pub has : ℕ → EpollEvent → Bool
has bit ev = not (bit_and ev.flags (2 ^ bit) == 0)

abbrev pub enable_read : EpollEvent → EpollEvent
enable_read = enable epollin

abbrev pub enable_write : EpollEvent → EpollEvent
enable_write = enable epollout

abbrev pub enable_oob : EpollEvent → EpollEvent
enable_oob = enable epollpri

abbrev pub enable_once : EpollEvent → EpollEvent
enable_once = enable epolloneshot

abbrev pub enable_et : EpollEvent → EpollEvent
enable_et = enable epollet

abbrev pub disable_read : EpollEvent → EpollEvent
disable_read = disable epollin

abbrev pub disable_write : EpollEvent → EpollEvent
disable_write = disable epollout

abbrev pub disable_oob : EpollEvent → EpollEvent
disable_oob = disable epollpri

abbrev pub disable_once : EpollEvent → EpollEvent
disable_once = disable epolloneshot

abbrev pub disable_et : EpollEvent → EpollEvent
disable_et = disable epollet

-- `in ()`, `out ()`, `pri ()`, `once ()` and `et ()`.
abbrev pub watches_in : EpollEvent → Bool
watches_in = has epollin

abbrev pub watches_out : EpollEvent → Bool
watches_out = has epollout

abbrev pub watches_pri : EpollEvent → Bool
watches_pri = has epollpri

abbrev pub once : EpollEvent → Bool
once = has epolloneshot

abbrev pub et : EpollEvent → Bool
et = has epollet
