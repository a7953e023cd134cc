-- ===== src/Lib.antt =====
-- libkngin: an asynchronous network library in C++. A reactor on epoll watches descriptors, event
-- loops call the handlers of what has become ready, and TCP sessions move bytes between the
-- handlers' buffers and sockets. These modules model the parts that decide which bytes go where.
--
-- Base holds what the modules share: tests and lists over native numbers, signed integers, a
-- memory of bytes, results with exceptions, and runs that may fail an assertion or need more fuel.
-- Bits models libkngin/include/kngin/core/base/bits.h, a function with a list of positions for each
-- variadic template.
-- Buffer models libkngin/include/kngin/core/base/buffer.h and libkngin/detail/core/base/buffer.cpp:
-- `out_buffer` in Buffer.Out, `in_buffer` in Buffer.In, and `dump` in Buffer.Hex. An operation
-- returns the new cursor; a method that throws returns a result; `size_t` wraps at 2 ^ 64.
-- KernelList models libkngin/detail/core/base/kernel_list.h, with nodes as addresses in a heap of
-- two links each, and EntryList the `list` of libkngin/detail/core/base/list.h on top of it.
-- EpollEvent and EpollReactor model libkngin/detail/core/event/impl/epoll_event.h and
-- epoll_reactor.cpp beside it; `epoll_ctl` and what `epoll_wait` returns are parameters.
-- EventLoop models libkngin/detail/core/event/event_loop.cpp: tasks and active events in the module
-- itself, timers, `run` and `stop` in EventLoop.Timed, and the meeting of `run` and `stop` at the
-- barrier, as steps of two threads, in EventLoop.Handshake. What a task or a handler does is a
-- parameter. Socket models libkngin/detail/net/impl/posix_socket.cpp, where the results of the system
-- calls are arguments, Socket.Flags the flags, `dup` and `readable` of descriptor.cpp in
-- libkngin/detail/core/base, and Listener the posix_listener.cpp beside posix_socket.cpp.
-- TimerQueue models libkngin/detail/core/event/timer_queue.cpp and impl/monotonic_timer.cpp beside it,
-- in the build without KNGIN_USE_TIMERFD_TIMER. Its heap is a `std::priority_queue`: PriorityQueue
-- holds its operations and what the standard documents of them, and PriorityQueue.Sorted a list that
-- meets it. The clock is read by the system: its values are arguments.
-- Logger models libkngin/detail/core/base/logger.cpp, logfile.cpp and string.cpp: the bytes of a line
-- and where they go, and in Logger.Queue the queue of the build with KNGIN_USE_ASYNC_LOGGER, as steps
-- of the threads. What `vsnprintf` makes of a format is an argument.
-- ObjMgr models libkngin/detail/core/base/obj_mgr.h on top of KernelList: its operations in ObjMgr and
-- ObjMgr.Sweep, the sequence of objects that they work on in ObjMgr.Holds. A new node has an address that
-- no node had before. SockOpts models libkngin/include/kngin/net/sockopts.h and
-- libkngin/detail/net/sockopts.cpp.
-- Rmutex models libkngin/detail/core/base/impl/posix_rmutex.h: the count that the destructor of the
-- recursive mutex checks. What the functions of pthread return is an argument.
-- Timestamp and Timeout model libkngin/include/kngin/core/base/timestamp.h and timeout.h. The
-- overflow of a `time_t` is undefined in C++ and left out: a time is an integer.
-- Tcp models libkngin/detail/net/tcp/impl: Tcp.World is the state of one `posix_session`, with the
-- answers that the kernel gives to its sends and receives and the bytes that it has taken;
-- Tcp.Ostream and Tcp.Istream are the two streams, and Tcp.Session the guards, `close` and
-- `on_events`. A call is one step of one thread: the locks and other threads are left out. The
-- handlers of the user are functions on the state. A task given to `run_in_loop` is a request, and
-- a function of its own where it is run. An assertion is part of the build: one that fails is a
-- fault, as is a null pointer that is followed. The size of a chunk, KNGIN_OUT_BUFFER_SIZE, is a
-- parameter.
--
-- Loops that are not structural run on fuel. `append_buffer` needs more than the bytes that are
-- stored and come, a walk through a list one more than its nodes, a loop over the heap of timers one
-- more than the timers in it, a walk of the object manager one more than its nodes, and `on_write` one
-- more than the answers of the kernel, since each pass but the last uses one up. `on_read` needs one
-- more than the answers of the kernel and the bytes in them. The loop of the listener is given the answers to its calls of `accept`,
-- and the loop of `run` has a round for each unit of fuel.
--
-- Not modelled: timers on timerfd, the connector, whose
-- functions are empty, and the service; addresses, which are calls of the system; the table of error numbers, which is a copy from libuv;
-- threads and the other locks, which wrap those of pthread; and the parts for Windows, macOS, poll and select.
pub mod Base
pub mod Bits
pub mod Buffer
pub mod EntryList
pub mod EpollEvent
pub mod EpollReactor
pub mod EventLoop
pub mod KernelList
pub mod Listener
pub mod Logger
pub mod ObjMgr
pub mod PriorityQueue
pub mod Rmutex
pub mod SockOpts
pub mod Socket
pub mod Tcp
pub mod Timeout
pub mod TimerQueue
pub mod Timestamp
