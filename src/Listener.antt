-- ===== src/Listener.antt =====
-- libkngin/detail/net/impl/posix_listener.cpp: a listening socket, the connections that it accepts, and
-- the idle descriptor that it keeps for the time when no descriptor is left. The errors that it tells
-- apart are numbers of the system.
pub mod Turns
pub mod Laws
pub mod Create
mod Tests
use libkngin.Base.{
  ℕ, Bool, true, false, not, ◌&&◌, ◌||◌, List, [], ◌∷◌, ◌++◌, Option, none, some, ◌==◌,
  if◌then◌else◌,
}
use libkngin.Base.Int.{ℤ, pos, negsuc, ltb_ℤ}
use libkngin.Base.Result.{Result, ok, throw, system_error}
use libkngin.Base.Run.{Run, done, fault, out_of_fuel, ◌>>=◌}
use libkngin.Socket.{Socket, Answer, returned, refused, accept_ec, close_ec}
use libkngin.Socket
use libkngin.Tcp.World.{Errno, success, eagain, other}

-- `ev_.registed ()`, the bit `flag_closed`, and the sockets that the handler has been given.
pub record Listener : Type 0 where
  pub socket : Socket
  pub idle_file : ℤ
  pub registered : Bool
  pub closed : Bool
  pub handed : List Socket

abbrev pub invalid : ℤ → Bool
invalid h = ltb_ℤ h (pos 0)

-- `socket ()`
abbrev pub new_socket : Socket
new_socket = record { handle = negsuc 0; shut = false; ipv6 = false }

-- `close ()`; the loop's `remove_event` leaves the event unregistered.
unfoldable pub close : Listener → Answer (Unit {0}) → Run (Result (Unit {0}) × Listener)
close l answer =
    if l.closed
    then fault
    else Socket.close l.socket answer
      >>= (λ r. done (r.0, record l { closed = true; registered = false; socket = r.1 }))

-- `ev_.registed () and !closed ()`
abbrev pub awake : Listener → Bool
awake l = l.registered && not l.closed

-- What the system returns while a connection is rejected: to the `accept` and the `close` of
-- `temp_sock`, the descriptor that `open` gives, and to its `close`.
pub record Rejection : Type 0 where
  pub accepted : Answer (ℤ × Bool)
  pub temp_closed : Answer (Unit {0})
  pub reopened : ℤ
  pub idle_closed : Answer (Unit {0})

-- `case KNGIN_ENFILE: case KNGIN_EMFILE:`
-- The first part says whether the loop goes on, which a throwing `close` ends.
unfoldable pub reject : Errno → Rejection → Listener → Run (Bool × Listener)
reject unknown r l = if invalid l.idle_file then fault else do
  (ec, temp) ← accept_ec unknown new_socket new_socket r.accepted
  (ec', temp') ← close_ec temp r.temp_closed
  if invalid r.reopened
      then fault
      else done (elim r.idle_closed [
        | returned v ↦ (true, record l { idle_file = negsuc 0 })
        | refused e ↦ (false, record l { idle_file = r.reopened })
      ])

-- The error numbers of the `switch`, the handler of a connection, whose exceptions are caught, and
-- what the system returns to each rejection.
module _ (enfile emfile eproto : ℕ) (handler : Socket → Listener → Listener)
    (rejection : Rejection) where
  -- What follows `accept` in a turn of the `while` loop of `on_read`; the first part says whether the
  -- loop goes on.
  unfoldable pub accepted : Listener → Errno × Socket → Run (Bool × Listener)
  unfolding reject
  accepted l (ec, sock) = elim ec [
    | success ↦ done (true, handler sock (record l { handed = l.handed ++ sock ∷ [] }))
    | eagain ↦ done (false, l)
    | other n ↦
        if (n == enfile) || (n == emfile) then reject (other eproto) rejection l else done (true, l)
    | _ ↦ done (true, l)
  ]

  unfoldable pub accept_one : Answer (ℤ × Bool) → Listener → Run (Bool × Listener)
  unfolding accepted
  accept_one answer l = accept_ec (other eproto) l.socket new_socket answer >>= accepted l

  -- The loop, given what the system returns to each `accept`.
  unfoldable pub accept_loop : List (Answer (ℤ × Bool)) → Listener → Run Listener
  unfolding accept_one
  accept_loop [] l = if awake l then out_of_fuel else done l
  accept_loop (a ∷ more) l =
      let turn =
        accept_one a l
        >>= (λ r. let rest = accept_loop more r.1 in if r.0 then rest else done r.1) in
      if awake l then turn else done l

  unfoldable pub on_read : List (Answer (ℤ × Bool)) → Listener → Run Listener
  unfolding accept_loop
  on_read answers l = if awake l then accept_loop answers l else fault

-- The calls of the constructor behind `open`, by what they return, and those of its clean-up.
pub record Setup : Type 0 where
  pub handler : Bool
  pub opened : ℤ
  pub calls : List (Answer (Unit {0}))
  pub sock_closed : Answer (Unit {0})
  pub idle_closed : Answer (Unit {0})

unfoldable pub all_returned : List (Answer (Unit {0})) → Bool
all_returned [] = true
all_returned (returned v ∷ more) = all_returned more
all_returned (refused e ∷ more) = false

-- The `catch` block: the socket, and the idle descriptor as it is left open or closed.
unfoldable pub clean_up : Socket → Setup → Run (Socket × ℤ)
clean_up sock s = do
  (r, sock') ← if Socket.closed sock then done (ok tt, sock) else Socket.close sock s.sock_closed
  done (elim r [
    | throw e ↦ (sock', s.opened)
    | ok v ↦ (
      sock',
      if invalid s.opened
          then s.opened
          else elim s.idle_closed [ returned w ↦ negsuc 0 | refused e ↦ s.opened ],
    )
  ])

-- The constructor: a listener, or none if it throws, with the socket and the idle descriptor.
unfoldable pub posix_listener : Socket → Setup → Run (Option Listener × Socket × ℤ)
unfolding all_returned clean_up
posix_listener sock s =
    if s.handler && not (invalid s.opened) && all_returned s.calls
    then done (
      some (record {
        socket = sock;
        idle_file = s.opened;
        registered = true;
        closed = false;
        handed = [];
      }),
      sock,
      s.opened,
    )
    else clean_up sock s >>= (λ r. done (none, r.0, r.1))
