-- ===== src/Tcp/Session/Laws.antt =====
-- What the guards of libkngin/detail/net/tcp/impl/posix_session.cpp let through.
use mathlib.Core.Path.{subst}
use libkngin.Base.{
  ℕ, ◌+◌, ◌<◌, ◌≡◌, refl, sym, ap, ◌∙◌, ◌⊎◌, inl, inr, Bool, true, false, ◌&&◌, not, List, ◌++◌,
  arith, ◌==◌, length, if◌then◌else◌, Bool-cases,
}
use libkngin.Base.Run.{done, fault, ◌>>=◌}
use libkngin.EpollEvent.{epollin, epollout, et, enable, watches_in, watches_out}
use libkngin.EpollEvent.Laws.{has-enable-disable}
use libkngin.Tcp.World.{World}
use libkngin.Tcp.Ostream
use libkngin.Tcp.Istream
use libkngin.Tcp.Ostream.{append_buffer, ask_to_write, with_out}
use libkngin.Tcp.Ostream.Append.{IsSound, pending, append_buffer_lem}
use libkngin.Tcp.Session.{
  refuses_write, async_write, force_shutdown, stop_read_task, start_read_task,
}

ask_to_write-same :
    (enable : Bool) (w : World)
    → ((ask_to_write enable w).out ≡ w.out) × ((ask_to_write enable w).flags ≡ w.flags)
unfolding ask_to_write
ask_to_write-same enable w = elim (Bool-cases (enable && not (et w.ev))) [
  | inl a ↦ elim (Bool-cases (not w.out.complete && et w.ev)) [
    | inl b ↦ rw (a, b) (refl, refl)
    | inr b ↦ rw (a, b) (refl, refl)
  ]
  | inr a ↦ elim (Bool-cases (not w.out.complete && et w.ev)) [
    | inl b ↦ rw (a, b) (refl, refl)
    | inr b ↦ rw (a, b) (refl, refl)
  ]
]

-- An accepted write of ordinary data.
write_eq :
    (size : ℕ) (blank : List ℕ) (fuel : ℕ) (bytes : List ℕ) (w : World)
    → async_write size blank fuel bytes false w ≡ (
        if length bytes == 0
        then fault
        else (if refuses_write w.flags
            then done (false, w)
            else ((if length bytes == 0
                  then fault
                  else (append_buffer size blank fuel bytes w.out
                      >>= (λ o. done (ask_to_write (not w.out.next_buffer) (with_out w o)))))
                >>= (λ w'. done (true, w')))))
unfolding async_write libkngin.Tcp.Ostream.async_write
write_eq size blank fuel bytes w = refl

write_refused :
    (size : ℕ) (blank : List ℕ) (fuel : ℕ) (bytes : List ℕ) (oob : Bool) (w : World)
    → 0 < length bytes
    → refuses_write w.flags ≡ true
    → async_write size blank fuel bytes oob w ≡ done (false, w)
unfolding async_write
write_refused size blank fuel bytes oob w b h =
    let some_bytes : (length bytes == 0) ≡ false = ground arith in rw (some_bytes, h) refl

-- On sound chunks, with fuel for more than the bytes that are stored and come, a write of ordinary
-- data that is not empty is accepted by a session that is neither closed, closing nor shut down,
-- and its bytes wait behind those that wait already; any other session refuses it and stays as it
-- is.
pub async_write_lem :
    (size : ℕ) (blank : List ℕ) (fuel : ℕ) (bytes : List ℕ) (w : World)
    → 0 < size
    → length blank ≡ size
    → IsSound size w.out
    → 0 < length bytes
    → w.out.windex + length bytes < fuel
    → ((refuses_write w.flags ≡ true)
        × (async_write size blank fuel bytes false w ≡ done (false, w)))
      ⊎ ((refuses_write w.flags ≡ false)
          × (w' : World) × (async_write size blank fuel bytes false w ≡ done (true, w'))
          × (pending w'.out ≡ pending w.out ++ bytes)
          × IsSound size w'.out
          × (w'.flags ≡ w.flags))
async_write_lem size blank fuel bytes w pos l s b f =
    let some_bytes : (length bytes == 0) ≡ false = ground arith in
    elim (Bool-cases (refuses_write w.flags)) [
      | inl h ↦ inl (h, write_refused size blank fuel bytes false w b h)
      | inr h ↦
          let (o, e, _, wait, sound, _, _, _, _) =
            append_buffer_lem size blank pos fuel bytes w.out l s b f in
          let (out, flags) = ask_to_write-same (not w.out.next_buffer) (with_out w o) in
          inr (
            h,
            ask_to_write (not w.out.next_buffer) (with_out w o),
            rw (write_eq, some_bytes, h, e) refl,
            ap pending out ∙ wait,
            subst (IsSound size) (sym out) sound,
            flags,
          )
    ]

-- `force_shutdown` never shuts the socket down: where it returns, it has changed nothing.
pub force_shutdown-same : (w w' : World) → force_shutdown w ≡ done w' → w' ≡ w
unfolding force_shutdown
force_shutdown-same w w' h = ground arith

-- `stop_read` and `start_read` leave the interest in input as it was, and end and restore the
-- interest in output.
pub stop_read-start_read :
    (w : World)
    → (watches_in (stop_read_task w).ev ≡ watches_in w.ev)
      × (watches_out (stop_read_task w).ev ≡ false)
      × (watches_in (start_read_task w).ev ≡ watches_in w.ev)
      × (watches_out (start_read_task w).ev ≡ true)
unfolding stop_read_task start_read_task
stop_read-start_read w =
    let (e0, d0, _, _, _, _) =
      has-enable-disable epollout epollin w.ev (omega arith) (omega arith) in
    let (e2, d2, _, _, _, _) =
      has-enable-disable epollout epollout w.ev (omega arith) (omega arith) in
    elim (Bool-cases (watches_out w.ev)) [
      | inl h ↦ rw h (d0, rw d2 (ground arith), refl, h)
      | inr h ↦ rw h (refl, h, e0, rw e2 (ground arith))
    ]
