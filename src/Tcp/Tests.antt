-- ===== src/Tcp/Tests.antt =====
-- Runs of the output stream with chunks of four bytes.
use libkngin.Base.{ℕ, ◌+◌, ◌≡◌, refl, inr, true, false, List, [], ◌∷◌, ◌++◌, arith, take}
use libkngin.Base.Int.{pos}
use libkngin.Base.Run.{done, out_of_fuel}
use libkngin.EpollEvent.{epoll_event}
use libkngin.Tcp.World.{World, Ostream, Errno, success, eintr, room, fail}
use libkngin.Tcp.Ostream.{append_buffer}
use libkngin.Tcp.Ostream.Append.{IsSound, stored, pending, append_buffer_lem}
use libkngin.Tcp.Ostream.Send.{on_write, write_oob, send_chunk}
use libkngin.Tcp.Ostream.Sending.{IsReady, IsQuiet}
use libkngin.Tcp.Ostream.Delivery.{on_write_lem}
use libkngin.Tcp.Ostream.Urgent.{full, urgent, on_write-out_of_fuel, write_oob_lem, send_chunk-part}

abbrev pub blank : List ℕ
blank = 0 ∷ 0 ∷ 0 ∷ 0 ∷ []

-- Six bytes wait in two chunks.
abbrev pub six : Ostream
six = record {
  oobq = [];
  buffers = (1 ∷ 2 ∷ 3 ∷ 4 ∷ []) ∷ (5 ∷ 6 ∷ 0 ∷ 0 ∷ []) ∷ [];
  rindex = 0;
  windex = 6;
  next_buffer = true;
  complete = false;
}

pub six-IsSound : IsSound 4 six
six-IsSound = record { sized = (refl, (refl, tt)); roomy = omega arith; ordered = omega arith }

six-IsReady : IsReady 4 six
six-IsReady = record {
  sound = six-IsSound;
  at_start = refl;
  small = omega arith;
  calm = refl;
  waits = λ h. omega arith;
  settled = λ h. refl;
}

-- The handler that does nothing.
abbrev silent : ℕ → Errno → World → World
silent size ec w = w

silent-IsQuiet : IsQuiet silent
silent-IsQuiet size ec w = (refl, refl, refl)

-- The socket is interrupted once, then takes a chunk, then refuses.
abbrev pub session : World
session = record {
  flags = record {
    closed = false;
    shutdown = false;
    closing = false;
    error = false;
    eof = false;
    reset = false;
  };
  last_error = success;
  ev = epoll_event (pos 7);
  out = six;
  inp = record { ctxq = []; next_ctx = false; complete = false };
  mem = λ a. 0;
  requests = [];
  log = [];
  sends = fail eintr ∷ room 9 ∷ [];
  recvs = [];
  oob_recvs = [];
  wire = [];
  oob_wire = [];
}

-- The socket takes two bytes of the first chunk.
abbrev partial_session : World
partial_session = record session { sends = room 2 ∷ [] }

append_buffer_lem_example :
    (o : Ostream) × (append_buffer 4 blank 10 (7 ∷ 8 ∷ 9 ∷ []) six ≡ done o)
    × (stored o ≡ stored six ++ (7 ∷ 8 ∷ 9 ∷ []))
    × (pending o ≡ pending six ++ (7 ∷ 8 ∷ 9 ∷ []))
    × IsSound 4 o
    × (o.next_buffer ≡ true)
    × (o.oobq ≡ six.oobq)
    × (o.rindex ≡ six.rindex)
    × (o.windex ≡ six.windex + 3)
append_buffer_lem_example =
    append_buffer_lem 4 blank (omega arith) 10 (7 ∷ 8 ∷ 9 ∷ []) six refl six-IsSound (omega arith)
      (omega arith)

on_write_lem_example :
    (w : World) × (on_write 4 silent 3 session ≡ done w)
    × (w.wire ++ pending w.out ≡ session.wire ++ pending session.out)
    × IsReady 4 w.out
on_write_lem_example =
    on_write_lem 4 silent (omega arith) (omega arith) silent-IsQuiet 3 session six-IsReady
      (inr (omega arith), tt) (omega arith)

on_write-out_of_fuel_example : on_write 4 silent 100 (full session (9 ∷ [])) ≡ out_of_fuel
on_write-out_of_fuel_example = on_write-out_of_fuel 4 silent 100 session 9 [] refl

write_oob_lem_example :
    (w : World) × (write_oob silent 3 true (urgent session (8 ∷ 9 ∷ []) (room 1 ∷ room 1 ∷ []))
      ≡ done w)
    × (w.oob_wire ≡ session.oob_wire ++ (8 ∷ 9 ∷ []))
    × (w.out ≡ record (session.out) { oobq = [] })
    × (w.sends ≡ [])
    × (w.wire ≡ session.wire)
write_oob_lem_example = write_oob_lem 4 silent 3 session (8 ∷ 9 ∷ []) [] (omega arith)

send_chunk-part_example :
    (w : World) × (send_chunk 4 silent partial_session ≡ done (true, w))
    × (w.wire ++ pending w.out ≡ partial_session.wire ++ (take 2 (pending six) ++ pending six))
    × (pending w.out ≡ pending six)
    × (w.sends ≡ [])
send_chunk-part_example =
    send_chunk-part 4 silent partial_session 2 [] (omega arith) (omega arith) silent-IsQuiet
      six-IsReady refl refl (omega arith) (omega arith)
