-- ===== src/Tcp/Session.antt =====
-- libkngin/detail/net/tcp/impl/posix_session.h and posix_session.cpp: the guards in front of the
-- two streams, the end of a session, and its events.
pub mod Laws
use libkngin.Base.{
  ℕ, ◌+◌, ◌-◌, Bool, true, false, ◌&&◌, ◌||◌, not, List, [], ◌∷◌, ◌++◌, ◌==◌, if◌then◌else◌, length,
}
use libkngin.Base.Run.{Run, done, fault, ◌>>=◌}
use libkngin.Buffer.In.{InBuffer, writeable}
use libkngin.EpollEvent.{
  EpollEvent, epoll_event, enable_read, enable_write, enable_oob, enable_et, disable_write,
  watches_out,
}
use libkngin.Base.Int.{ℤ}
use libkngin.Tcp.World.{
  World, Flags, Ostream, Istream, Errno, request, update_interest, remove_event, close_socket,
  shutdown_socket, run_close, run_stop_read, run_start_read, closed,
}
use libkngin.Tcp.Ostream.{with_out}
use libkngin.Tcp.Ostream
use libkngin.Tcp.Ostream.Send.{on_write}
use libkngin.Tcp.Istream.{with_in, on_read, on_oob}
use libkngin.Tcp.Istream

-- The flags that refuse writes, and those that refuse reads.
unfoldable pub refuses_write : Flags → Bool
refuses_write f = f.closed || f.shutdown || f.closing

unfoldable pub refuses_read : Flags → Bool
refuses_read f = f.closed || f.closing

-- The interest that the constructor registers.
unfoldable pub initial_interest : ℤ → EpollEvent
initial_interest handle = enable_et (enable_oob (enable_write (enable_read (epoll_event handle))))

-- `async_read (buf)` and `async_read_some (buf)`.
unfoldable pub async_read : Bool → InBuffer → World → Run (Bool × World)
unfolding refuses_read Istream.async_read
async_read need_complete buf w =
    if writeable buf == 0
    then fault
    else (if refuses_read w.flags
        then done (false, w)
        else Istream.async_read need_complete buf w >>= (λ w'. done (true, w')))

-- `stop_read ()` and `start_read ()` queue these tasks.
unfoldable pub stop_read : World → World
stop_read w = request run_stop_read w

unfoldable pub stop_read_task : World → World
stop_read_task w = if watches_out w.ev then update_interest (disable_write w.ev) w else w

unfoldable pub start_read : World → World
start_read w = request run_start_read w

unfoldable pub start_read_task : World → World
start_read_task w = if not (watches_out w.ev) then update_interest (enable_write w.ev) w else w

-- `close (handler)`; `has_handler` says whether there is one.
unfoldable pub close : Bool → World → Run World
close has_handler w =
    if not has_handler
    then fault
    else (if w.flags.closed
        then fault
        else (let f : Flags = w.flags in
            done (request run_close (record w { flags = record f { closing = true } }))))

-- The task that it queues; `on_close` is the handler.
unfoldable pub close_task : (World → World) → World → World
unfolding Ostream.clear Istream.clear
close_task on_close w =
    if w.flags.closed
    then w
    else (let f : Flags = w.flags in
        on_close (record w {
          flags = record f { closed = true; eof = true; reset = true };
          requests = w.requests ++ remove_event w.ev ∷ close_socket ∷ [];
          inp = Istream.clear w.inp;
          out = Ostream.clear w.out;
          log = w.log ++ closed ∷ [];
        }))

-- `force_shutdown ()`
unfoldable pub force_shutdown : World → Run World
force_shutdown w =
    if w.flags.closed
    then fault
    else (if not w.flags.shutdown
        then fault
        else (let f : Flags = w.flags in
            done (
              if not w.flags.closed && not w.flags.shutdown
              then request shutdown_socket (record w { flags = record f { shutdown = true } })
              else w)))

-- `async_shutdown ()` is commented out.
unfoldable pub async_shutdown : World → World
async_shutdown w = w

-- `size` is KNGIN_OUT_BUFFER_SIZE and `blank` a new chunk.
module _ (size : ℕ) (blank : List ℕ) where
  -- `async_write (buf, flags)`, with `message_oob` or without.
  unfoldable pub async_write : ℕ → List ℕ → Bool → World → Run (Bool × World)
  unfolding refuses_write Ostream.async_write
  async_write fuel bytes oob w =
      if length bytes == 0
      then fault
      else (if refuses_write w.flags
          then done (false, w)
          else Ostream.async_write size blank fuel bytes oob w >>= (λ w'. done (true, w')))

  -- `async_write (bufs)`
  unfoldable pub async_write_all : ℕ → List (List ℕ) → World → Run (ℕ × World)
  unfolding refuses_write Ostream.async_write_all
  async_write_all fuel bufs w =
      if refuses_write w.flags then done (0, w) else Ostream.async_write_all size blank fuel bufs w

-- Which of the bits of `events` are set.
pub record Events : Type 0 where
  pub error : Bool
  pub read : Bool
  pub write : Bool
  pub oob : Bool

module _ (size slot : ℕ) (on_sent : ℕ → Errno → World → World)
    (on_message : InBuffer → Errno → World → World) (on_urgent : ℕ → World → World) where
  unfoldable pub on_events : ℕ → Events → World → Run World
  unfolding on_read on_write on_oob
  on_events fuel events w = do
    w1 ← if events.error || events.read then on_read on_message on_urgent fuel w else done w
    w2 ← if events.write then on_write size on_sent fuel w1 else done w1
    if events.oob then on_oob on_message on_urgent slot fuel w2 else done w2
