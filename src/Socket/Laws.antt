-- ===== src/Socket/Laws.antt =====
-- The two variants of an operation of libkngin/detail/net/impl/posix_socket.cpp compared.
use libkngin.Base.{◌≡◌, refl, ◌⊎◌, inl, inr, true, false, Bool}
use libkngin.Base.Int.{ℤ, negsuc}
use libkngin.Base.Result.{ok, throw, system_error}
use libkngin.Base.Run.{done}
use libkngin.Tcp.World.{Errno, success}
use libkngin.Socket.{Socket, Answer, returned, refused, closed, accept, accept_ec, close, close_ec}

-- For an open socket, `close (ec)` always leaves a closed socket; `close ()` leaves the same one where it returns,
-- and where it throws, a socket that is open still, though marked as shut down.
pub close-close_ec :
    (s : Socket) (answer : Answer (Unit {0}))
    → closed s ≡ false
    → (ec : Errno) × (s' : Socket) × (close_ec s answer ≡ done (ec, s'))
      × (closed s' ≡ true)
      × ((close s answer ≡ done (ok tt, s'))
          ⊎ ((s2 : Socket) × (close s answer ≡ done (throw system_error, s2))
              × (closed s2 ≡ false)
              × (s2.shut ≡ true)))
unfolding close close_ec closed
close-close_ec s (returned v) h =
    (success, record s { handle = negsuc 0; shut = true }, rw h refl, refl, inl (rw h refl))
close-close_ec s (refused e) h = (
  e,
  record s { handle = negsuc 0; shut = true },
  rw h refl,
  refl,
  inr (record s { shut = true }, rw h refl, h, refl),
)

-- For an open listener and a closed socket, both variants of `accept` return, and leave the same
-- socket if the system returns a descriptor of a known family; if it does not, the one throws and
-- leaves the socket as it was, the other sets an error and leaves a closed socket.
pub accept-accept_ec :
    (unknown : Errno) (l s : Socket) (answer : Answer (ℤ × Bool))
    → closed l ≡ false
    → closed s ≡ true
    → ((s' : Socket) × (accept l s answer ≡ done (ok tt, s'))
        × (accept_ec unknown l s answer ≡ done (success, s')))
      ⊎ ((ec : Errno) × (s' : Socket) × (accept l s answer ≡ done (throw system_error, s))
          × (accept_ec unknown l s answer ≡ done (ec, s'))
          × (closed s' ≡ true))
unfolding accept accept_ec closed
accept-accept_ec unknown l s (returned (h, true)) open_l closed_s = inl (
  record { handle = h; shut = false; ipv6 = l.ipv6 },
  rw (open_l, closed_s) refl,
  rw (open_l, closed_s) refl,
)
accept-accept_ec unknown l s (returned (h, false)) open_l closed_s = inr (
  unknown,
  record { handle = negsuc 0; shut = false; ipv6 = false },
  rw (open_l, closed_s) refl,
  rw (open_l, closed_s) refl,
  refl,
)
accept-accept_ec unknown l s (refused e) open_l closed_s = inr (
  e,
  record { handle = negsuc 0; shut = false; ipv6 = false },
  rw (open_l, closed_s) refl,
  rw (open_l, closed_s) refl,
  refl,
)
