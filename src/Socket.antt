-- ===== src/Socket.antt =====
-- libkngin/detail/net/impl/posix_socket.cpp and libkngin/detail/core/base/descriptor.cpp: system
-- calls with their guards, once with exceptions and once with an error code. The argument `answer`
-- of an operation is what its system call returns.
pub mod Laws
pub mod Flags
mod Tests
use libkngin.Base.{
  ℕ, ◌+◌, Bool, true, false, not, ◌||◌, List, [], ◌∷◌, ◌++◌, if◌then◌else◌, ◌==◌, length, take,
}
use libkngin.Base.Int.{ℤ, pos, negsuc, ltb_ℤ}
use libkngin.Base.Memory.{Memory, store}
use libkngin.Base.Result.{Result, ok, throw, system_error}
use libkngin.Base.Run.{Run, done, fault, ◌>>=◌}
use libkngin.Buffer.In.{InBuffer, writeable}
use libkngin.Buffer.In
use libkngin.Tcp.World.{Errno, success}

-- `handle_` and the bits `flag_shutdown` and `flag_ipv6` of `flags_`.
pub record Socket : Type 0 where
  pub handle : ℤ
  pub shut : Bool
  pub ipv6 : Bool

-- What a system call returns: a value, or -1 with `errno`.
pub data Answer (A : Type 0) : Type 0 where
  returned : A → Answer A
  refused : Errno → Answer A

-- `closed ()`: HANDLE_INVALID, a negative descriptor.
unfoldable pub closed : Socket → Bool
closed s = ltb_ℤ s.handle (pos 0)

-- A call that throws, and one that sets `ec`, both behind `assert (!closed ())`: `bind`, `listen`,
-- `connect`, `set_nonblock` and `set_closeexec`.
unfoldable pub call : Socket → Answer (Unit {0}) → Run (Result (Unit {0}))
unfolding closed
call s answer =
    if closed s
    then fault
    else elim answer [ returned v ↦ done (ok v) | refused e ↦ done (throw system_error) ]

unfoldable pub call_ec : Socket → Answer (Unit {0}) → Run Errno
unfolding closed
call_ec s answer =
    if closed s then fault else elim answer [ returned v ↦ done success | refused e ↦ done e ]

abbrev pub bind : Socket → Answer (Unit {0}) → Run (Result (Unit {0}))
bind = call

abbrev pub bind_ec : Socket → Answer (Unit {0}) → Run Errno
bind_ec = call_ec

abbrev pub listen : Socket → Answer (Unit {0}) → Run (Result (Unit {0}))
listen = call

abbrev pub listen_ec : Socket → Answer (Unit {0}) → Run Errno
listen_ec = call_ec

abbrev pub connect : Socket → Answer (Unit {0}) → Run (Result (Unit {0}))
connect = call

abbrev pub connect_ec : Socket → Answer (Unit {0}) → Run Errno
connect_ec = call_ec

-- `accept (addr, s)` on a listening socket: the descriptor that the system returns, and whether the
-- family of the address is known. The second part is `s` as it is left.
unfoldable pub accept : Socket → Socket → Answer (ℤ × Bool) → Run (Result (Unit {0}) × Socket)
unfolding closed
accept l s answer = if closed l || not (closed s) then fault else elim answer [
  | refused e ↦ done (throw system_error, s)
  | returned r ↦
      if not r.1
      then done (throw system_error, s)
      else done (ok tt, record { handle = r.0; shut = false; ipv6 = l.ipv6 })
]

-- `accept (addr, s, ec)`; `unknown` is KNGIN_EPROTO.
unfoldable pub accept_ec : Errno → Socket → Socket → Answer (ℤ × Bool) → Run (Errno × Socket)
unfolding closed
accept_ec unknown l s answer =
    let blank : Socket = record { handle = negsuc 0; shut = false; ipv6 = false } in
    if closed l || not (closed s) then fault else elim answer [
      | refused e ↦ done (e, blank)
      | returned r ↦
          if not r.1
          then done (unknown, blank)
          else done (success, record { handle = r.0; shut = false; ipv6 = l.ipv6 })
    ]

-- `close ()` and `close (ec)`, with `descriptor::close`.
unfoldable pub close : Socket → Answer (Unit {0}) → Run (Result (Unit {0}) × Socket)
unfolding closed
close s answer = if closed s then fault else elim answer [
  | refused e ↦ done (throw system_error, record s { shut = true })
  | returned v ↦ done (ok tt, record s { handle = negsuc 0; shut = true })
]

unfoldable pub close_ec : Socket → Answer (Unit {0}) → Run (Errno × Socket)
unfolding closed
close_ec s answer =
    let s' : Socket = record s { handle = negsuc 0; shut = true } in
    if closed s
    then fault
    else elim answer [ refused e ↦ done (e, s') | returned v ↦ done (success, s') ]

-- `shutdown ()` and `shutdown (ec)`.
unfoldable pub shutdown : Socket → Answer (Unit {0}) → Run (Result (Unit {0}) × Socket)
unfolding closed
shutdown s answer = if closed s then fault else elim answer [
  | refused e ↦ done (throw system_error, s)
  | returned v ↦ done (ok tt, record s { shut = true })
]

unfoldable pub shutdown_ec : Socket → Answer (Unit {0}) → Run (Errno × Socket)
unfolding closed
shutdown_ec s answer = if closed s then fault else elim answer [
  | refused e ↦ done (e, s)
  | returned v ↦ done (success, record s { shut = true })
]

-- `descriptor::read`, `read`, `recv` and `recvfrom`: the bytes that have come go to `buf.begin ()`.
unfoldable pub receive :
    Socket → InBuffer → Memory → Answer (List ℕ) → Run (Result (ℕ × InBuffer × Memory))
unfolding closed
receive s buf m answer = if closed s || (writeable buf == 0) then fault else elim answer [
  | refused e ↦ done (throw system_error)
  | returned bs ↦ elim (In.advance buf (length bs)) [
    | throw e ↦ done (throw e)
    | ok buf' ↦ done (ok (length bs, buf', store m buf.arr bs))
  ]
]

unfoldable pub receive_ec :
    Socket → InBuffer → Memory → Answer (List ℕ) → Run (ℕ × Errno × InBuffer × Memory)
unfolding closed
receive_ec s buf m answer = if closed s || (writeable buf == 0) then fault else elim answer [
  | refused e ↦ done (0, e, buf, m)
  | returned bs ↦ elim (In.advance buf (length bs)) [
    | throw e ↦ fault
    | ok buf' ↦ done (length bs, success, buf', store m buf.arr bs)
  ]
]

-- `descriptor::write`, `write`, `send` and `sendto` of `size` bytes.
unfoldable pub transmit : Socket → ℕ → Answer ℕ → Run (Result ℕ)
unfolding closed
transmit s size answer =
    if closed s || (size == 0)
    then fault
    else elim answer [ refused e ↦ done (throw system_error) | returned n ↦ done (ok n) ]

unfoldable pub transmit_ec : Socket → ℕ → Answer ℕ → Run (ℕ × Errno)
unfolding closed
transmit_ec s size answer =
    if closed s || (size == 0)
    then fault
    else elim answer [ refused e ↦ done (0, e) | returned n ↦ done (n, success) ]
