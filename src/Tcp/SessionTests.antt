-- ===== src/Tcp/SessionTests.antt =====
-- Runs of the session's operations and of a receive.
use libkngin.Base.{◌+◌, ◌≡◌, refl, ◌⊎◌, true, false, [], ◌∷◌, ◌++◌, arith}
use libkngin.Base.Memory.{load}
use libkngin.Base.Run.{done}
use libkngin.Buffer.In.{InBuffer}
use libkngin.Tcp.World.{World, success, arrived}
use libkngin.Tcp.Ostream.Append.{IsSound, pending}
use libkngin.Tcp.Istream.{recv, left_over}
use libkngin.Tcp.Istream.Laws.{recv_lem}
use libkngin.Tcp.Session.{refuses_write, async_write, force_shutdown}
use libkngin.Tcp.Session.Laws.{async_write_lem}
use libkngin.Tcp.Tests.{session, blank, six-IsSound}

async_write_lem_example :
    ((refuses_write session.flags ≡ true)
      × (async_write 4 blank 10 (7 ∷ []) false session ≡ done (false, session)))
    ⊎ ((refuses_write session.flags ≡ false)
        × (w' : World) × (async_write 4 blank 10 (7 ∷ []) false session ≡ done (true, w'))
        × (pending w'.out ≡ pending session.out ++ (7 ∷ []))
        × IsSound 4 w'.out
        × (w'.flags ≡ session.flags))
async_write_lem_example =
    async_write_lem 4 blank 10 (7 ∷ []) session (omega arith) refl six-IsSound (omega arith)
      (omega arith)

-- A session that is shut down already.
abbrev half_open : World
half_open = record session {
  flags = record {
    closed = false;
    shutdown = true;
    closing = false;
    error = false;
    eof = false;
    reset = false;
  };
}

force_shutdown_run : force_shutdown half_open ≡ done half_open
unfolding force_shutdown
force_shutdown_run = refl

-- Two of four bytes are there already, and three arrive.
abbrev half_full : InBuffer
half_full = record { arr = 16; size = 4; valid = 2 }

abbrev arriving : World
arriving = record session { recvs = arrived (5 ∷ 6 ∷ 7 ∷ []) ∷ [] }

recv_lem_example :
    (w' : World) × (recv half_full arriving
      ≡ done (2, success, record { arr = 16; size = 4; valid = 2 + 2 }, w'))
    × (load w'.mem 16 2 ≡ 5 ∷ 6 ∷ [])
    × (w'.recvs ≡ left_over 2 (5 ∷ 6 ∷ 7 ∷ []) [])
recv_lem_example =
    recv_lem half_full arriving (5 ∷ 6 ∷ 7 ∷ []) []
      (record { fits = omega arith; within = omega arith }) (omega arith) refl
