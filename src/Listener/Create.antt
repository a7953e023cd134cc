-- ===== src/Listener/Create.antt =====
-- How the constructor in libkngin/detail/net/impl/posix_listener.cpp fails.
use libkngin.Base.{
  ◌≡◌, refl, ap, ◌∙◌, true, false, not, ◌&&◌, Option, none, inl, inr, Bool-cases, if◌then◌else◌,
}
use libkngin.Base.Int.{ℤ, negsuc}
use libkngin.Base.Run.{Run, done, ◌>>=◌}
use libkngin.Socket.{Socket, Answer, returned, refused}
use libkngin.Socket
use libkngin.Tcp.World.{Errno}
use libkngin.Listener.{Listener, Setup, invalid, all_returned, clean_up, posix_listener}

abbrev leave : Socket × ℤ → Run (Option Listener × Socket × ℤ)
leave r = done (none, r.0, r.1)

module _ (sock : Socket) (s : Setup) (opened : Socket.closed sock ≡ false)
    (fails : (s.handler && not (invalid s.opened) && all_returned s.calls) ≡ false) where
  throws : posix_listener sock s ≡ (clean_up sock s >>= leave)
  unfolding posix_listener
  throws = rw (fails, posix_listener) refl

  clean_up-refused :
      (e : Errno)
      → s.sock_closed ≡ refused e
      → clean_up sock s ≡ done (record sock { shut = true }, s.opened)
  unfolding clean_up Socket.close
  clean_up-refused e h = rw (opened, h, clean_up, Socket.close) refl

  shut : Socket
  shut = record sock { handle = negsuc 0; shut = true }

  clean_up-valid :
      s.sock_closed ≡ returned tt
      → clean_up sock s
        ≡ done (
          shut,
          if invalid s.opened
              then s.opened
              else elim s.idle_closed [ returned w ↦ negsuc 0 | refused e ↦ s.opened ],
        )
  unfolding clean_up Socket.close shut
  clean_up-valid h = rw (opened, h, clean_up, Socket.close) refl

  -- When a step of the constructor fails, no listener is made, and if the system closes the socket and
  -- the idle descriptor, both are closed.
  pub posix_listener-throws :
      s.sock_closed ≡ returned tt
      → s.idle_closed ≡ returned tt
      → (sock' : Socket) × (idle : ℤ) × (posix_listener sock s ≡ done (none, sock', idle))
        × (Socket.closed sock' ≡ true)
        × (invalid idle ≡ true)
  unfolding shut Socket.closed
  posix_listener-throws h k = (
    shut,
    if invalid s.opened then s.opened else negsuc 0,
    throws
        ∙ ap (λ (m : Run (Socket × ℤ)). m >>= leave) (clean_up-valid h)
        ∙ ap
            (λ (a : Answer (Unit {0})). leave (
              shut,
              if invalid s.opened
                  then s.opened
                  else elim a [ returned w ↦ negsuc 0 | refused e ↦ s.opened ],
            ))
            k,
    refl,
    elim (Bool-cases (invalid s.opened)) [ inl e ↦ rw e e | inr e ↦ rw e refl ],
  )

  -- When a step of the constructor fails and the system refuses to close the socket, the idle
  -- descriptor is left open, and the socket too, but marked as shut down.
  pub posix_listener-leaks :
      (e : Errno)
      → s.sock_closed ≡ refused e
      → posix_listener sock s ≡ done (none, record sock { shut = true }, s.opened)
  posix_listener-leaks e h =
      throws ∙ ap (λ (m : Run (Socket × ℤ)). m >>= leave) (clean_up-refused e h)
