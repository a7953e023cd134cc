-- ===== src/EpollEvent/Tests.antt =====
-- Flags of an event for descriptor 7.
use libkngin.Base.Int.{pos}
use libkngin.EpollEvent.{EpollEvent, epoll_event}

abbrev ev : EpollEvent
ev = epoll_event (pos 7)
