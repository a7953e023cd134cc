-- ===== src/Socket/Tests.antt =====
-- A listener with descriptor 5 that cannot be closed.
use libkngin.Base.{◌≡◌, refl, true, false}
use libkngin.Base.Int.{pos}
use libkngin.Base.Result.{throw, system_error}
use libkngin.Base.Run.{done}
use libkngin.Tcp.World.{other}
use libkngin.Socket.{Socket, refused, close}

abbrev listener : Socket
listener = record { handle = pos 5; shut = false; ipv6 = true }

close_test :
    close listener (refused (other 5)) ≡ done (throw system_error, record listener { shut = true })
unfolding close
close_test = refl
