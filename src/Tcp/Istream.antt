-- ===== src/Tcp/Istream.antt =====
-- libkngin/detail/net/tcp/impl/posix_tcp_istream.cpp: buffers of the user wait for what the socket
-- receives, and `recv` of libkngin/detail/net/impl/posix_socket.cpp.
pub mod Laws
pub mod Ready
pub mod Reading
use libkngin.Base.{
  ℕ, zero, suc, ◌+◌, ◌-◌, min, Bool, true, false, ◌&&◌, ◌||◌, not, List, [], ◌∷◌, ◌++◌, ◌==◌,
  if◌then◌else◌, length, take, drop,
}
use libkngin.Base.Memory.{store}
use libkngin.Base.Result.{ok, throw}
use libkngin.Base.Run.{Run, done, fault, out_of_fuel, ◌>>=◌}
use libkngin.Buffer.In.{InBuffer, writeable, advance, in_buffer}
use libkngin.EpollEvent.{et}
use libkngin.Tcp.World.{
  World, Istream, InContext, Errno, RecvAnswer, arrived, fail, success, eintr, eagain, end_of_file,
  received, urgent, request, run_on_read, set_error, clear_error,
}

-- The session's stream, replaced.
abbrev pub with_in : World → Istream → World
with_in w i = record w { inp = i }

-- What the kernel holds after a call for `n` bytes: the bytes beyond them stay.
unfoldable pub left_over : ℕ → List ℕ → List RecvAnswer → List RecvAnswer
left_over n bs rest = elim (drop n bs) [ [] ↦ rest | b ∷ more ↦ arrived (b ∷ more) ∷ rest ]

-- `socket::recv (buf, 0, ec)` for the answer that comes first: its size, its error, the buffer and
-- the session. The bytes go to `buf.begin ()`, and `buf += size` counts them.
unfoldable pub recv_answer : List RecvAnswer → InBuffer → World → Run (ℕ × Errno × InBuffer × World)
unfolding left_over advance
recv_answer [] buf w = done (0, eagain, buf, w)
recv_answer (fail ec ∷ rest) buf w = done (0, ec, buf, record w { recvs = rest })
recv_answer (arrived bs ∷ rest) buf w =
    let n = writeable buf in
    let got = take n bs in
    let w' : World = record w { recvs = left_over n bs rest; mem = store w.mem buf.arr got } in
    elim (advance buf (length got)) [
      | ok buf' ↦ done (length got, success, buf', w')
      | throw e ↦ fault
    ]

unfoldable pub recv : InBuffer → World → Run (ℕ × Errno × InBuffer × World)
unfolding recv_answer
recv buf w = if writeable buf == 0 then fault else recv_answer w.recvs buf w

-- `socket::recv (buf, message_oob, ec)` for one byte.
unfoldable pub recv_oob : List RecvAnswer → World → List ℕ × Errno × World
recv_oob [] w = ([], eagain, w)
recv_oob (fail ec ∷ rest) w = ([], ec, record w { oob_recvs = rest })
recv_oob (arrived bs ∷ rest) w = (take 1 bs, success, record w { oob_recvs = rest })

-- `async_read (buf)` and `async_read_some (buf)`.
unfoldable pub async_read : Bool → InBuffer → World → Run World
async_read need_complete buf w =
    if writeable buf == 0
    then fault
    else (let i : Istream = w.inp in
        let w' = with_in w (record i {
          ctxq = i.ctxq ++ record { buffer = buf; need_complete = need_complete } ∷ [];
          next_ctx = true;
        }) in
        done (if not i.complete && et w.ev then request run_on_read w' else w'))

-- `clear ()`
unfoldable pub clear : Istream → Istream
clear i = record i { ctxq = []; next_ctx = false }

-- `on_message` and `on_urgent` are the handlers of the user; what they throw is caught.
module _ (on_message : InBuffer → Errno → World → World) (on_urgent : ℕ → World → World) where
  unfoldable pub message_callback : InBuffer → Errno → World → World
  message_callback buf ec w = on_message buf ec (record w { log = w.log ++ received buf ec ∷ [] })

  -- `on_completion (remove)` for the context `ctx` in front of `rest`.
  unfoldable pub on_completion : Bool → InContext → List InContext → World → World
  unfolding message_callback
  on_completion remove ctx rest w =
      let i : Istream = w.inp in
      let i' : Istream =
        if remove
        then record i { ctxq = rest; next_ctx = elim rest [ [] ↦ false | c ∷ cs ↦ true ] }
        else i in
      message_callback ctx.buffer success (with_in w i')

  -- What `on_read` does with the answer, and whether its loop goes on.
  unfoldable pub answered : ℕ → Errno → InContext → List InContext → World → Bool × World
  unfolding message_callback on_completion set_error clear_error
  answered size success ctx rest w =
      let w' = clear_error w in
      let i : Istream = w'.inp in
      let f = w'.flags in
      if size == 0
      then (
        false,
        message_callback ctx.buffer end_of_file (record w' {
          inp = record i { complete = et w.ev || i.complete };
          flags = record f { eof = true };
        }),
      )
      else (
        true,
        if writeable ctx.buffer == 0
            then on_completion true ctx rest w'
            else (if not ctx.need_complete then on_completion false ctx rest w' else w'),
      )
  answered size eintr ctx rest w = (true, w)
  answered size eagain ctx rest w =
      let i : Istream = w.inp in
      (false, if et w.ev then with_in w (record i { complete = true }) else w)
  answered size ec ctx rest w = (false, message_callback ctx.buffer ec (set_error ec w))

  -- One pass of the loop of `on_read`, and whether another follows.
  unfoldable pub read_pass : World → Run (Bool × World)
  unfolding answered recv
  read_pass w =
      let i : Istream = w.inp in
      if w.flags.closed || w.flags.closing
      then done (false, w)
      else (if not i.next_ctx && not i.complete
          then done (false, w)
          else (if not i.next_ctx then fault else elim i.ctxq [
            | [] ↦ fault
            | ctx ∷ rest ↦ (do
              (size, ec, buf, w') ← recv ctx.buffer (with_in w (record i { complete = false }))
              let ctx' : InContext = record ctx { buffer = buf }
              done (
                  answered size ec ctx' rest
                    (with_in w' (record i { ctxq = ctx' ∷ rest; complete = false }))))
          ]))

  unfoldable pub read_loop : ℕ → World → Run World
  unfolding read_pass
  read_loop zero w = out_of_fuel
  read_loop (suc fuel) w = read_pass w >>= (λ r.
      let (again, w') = r in let more = read_loop fuel w' in if again then more else done w')

  unfoldable pub on_read : ℕ → World → Run World
  unfolding read_loop
  on_read fuel w = if w.flags.eof then fault else read_loop fuel w

  -- What `on_oob` does with the answer. `slot` is the address of its variable `byte`.
  unfoldable pub oob_answered : ℕ → List ℕ → Errno → World → Bool × World
  unfolding message_callback set_error clear_error
  oob_answered slot [] success w =
      let w' = clear_error w in
      let i : Istream = w'.inp in
      let f = w'.flags in
      (
        false,
        message_callback (in_buffer slot 1) end_of_file (record w' {
          inp = record i { complete = et w.ev || i.complete };
          flags = record f { eof = true };
        }),
      )
  oob_answered slot (b ∷ bs) success w =
      let w' = clear_error w in (true, on_urgent b (record w' { log = w'.log ++ urgent b ∷ [] }))
  oob_answered slot bs eintr w = (true, w)
  oob_answered slot bs eagain w = (false, w)
  oob_answered slot bs ec w = (false, message_callback (in_buffer slot 1) ec (set_error ec w))

  unfoldable pub oob_loop : ℕ → ℕ → World → Run World
  unfolding oob_answered recv_oob
  oob_loop slot zero w = out_of_fuel
  oob_loop slot (suc fuel) w =
      let i : Istream = w.inp in
      let (bs, ec, w') = recv_oob w.oob_recvs (with_in w (record i { complete = false })) in
      let (again, w2) = oob_answered slot bs ec w' in
      let more = oob_loop slot fuel w2 in
      if w.flags.closed || w.flags.closing then done w else (if again then more else done w2)

  unfoldable pub on_oob : ℕ → ℕ → World → Run World
  unfolding oob_loop
  on_oob slot fuel w = if w.flags.eof then fault else oob_loop slot fuel w
