-- ===== src/Tcp/Ostream/Send.antt =====
-- on_write, on_complete and write_oob of libkngin/detail/net/tcp/impl/posix_tcp_ostream.cpp.
use libkngin.Base.{
  ℕ, zero, suc, ◌+◌, ◌-◌, ◌%◌, ◌^◌, min, Bool, true, false, ◌&&◌, ◌||◌, not, [], ◌∷◌, ◌++◌, ◌==◌,
  ltb, if◌then◌else◌, length, take, drop,
}
use libkngin.Base.Run.{Run, done, fault, out_of_fuel, ◌>>=◌}
use libkngin.EpollEvent.{et, watches_out, disable_write}
use libkngin.Tcp.World.{
  World, Ostream, Errno, success, eintr, eagain, wrote, update_interest, send_answer, send_data,
  send_oob, set_error, clear_error,
}
use libkngin.Tcp.Ostream.{remaining, with_out}

-- `complete_` set by a socket that takes no more, with edge triggering; without it the interest in
-- `EPOLLOUT` ends.
unfoldable pub refused : World → World
refused w =
    let o : Ostream = w.out in
    if et w.ev
    then with_out w (record o { complete = true })
    else update_interest (disable_write w.ev) w

-- What `on_write` does when nothing waits.
unfoldable pub idle : World → World
idle w = if not (et w.ev) && watches_out w.ev then update_interest (disable_write w.ev) w else w

-- `rindex_ += size` and what follows when a chunk or all that is stored is through.
unfoldable pub advance : ℕ → ℕ → Ostream → Ostream
advance buffer_size size o =
    let rindex = o.rindex + size in
    let windex = (o.windex + 2 ^ 64 - size) % 2 ^ 64 in
    if (rindex == buffer_size) || (rindex == o.windex)
    then record o {
      rindex = 0;
      windex = windex;
      buffers = if ltb 1 (length o.buffers) then drop 1 o.buffers else o.buffers;
      next_buffer = not (windex == 0);
    }
    else record o { rindex = rindex }

-- `handler size ec` is what `write_handler_` does. What it throws is caught.
module _ (handler : ℕ → Errno → World → World) where
  unfoldable pub on_complete : ℕ → Errno → World → World
  on_complete size ec w = handler size ec (record w { log = w.log ++ wrote size ec ∷ [] })

  -- The `do` loop of `write_oob`.
  unfoldable pub write_oob : ℕ → Bool → World → Run World
  unfolding on_complete send_oob set_error clear_error
  write_oob zero empty w = out_of_fuel
  write_oob (suc fuel) empty w =
      let o : Ostream = w.out in
      let queue = if empty then o.oobq else drop 1 o.oobq in
      let start = with_out w (record o { oobq = queue }) in
      elim queue [
        | [] ↦ done start
        | b ∷ rest ↦
            let (size, ec, w') = send_oob b start in
            let o' : Ostream = w'.out in
            elim ec [
              | success ↦ write_oob fuel false (clear_error w')
              | eintr ↦ write_oob fuel false w'
              | eagain ↦ done (with_out w' (record o' { complete = true }))
              | lost ↦ done (on_complete 0 lost (set_error lost w'))
            ]
      ]

-- `on_write` with chunks of `buffer_size` bytes.
module _ (buffer_size : ℕ) (handler : ℕ → Errno → World → World) where
  -- What `on_write` does with the answer to a send of `valid` bytes, and whether its loop goes on.
  unfoldable pub answered : ℕ → ℕ → Errno → World → Run (Bool × World)
  unfolding advance on_complete refused set_error clear_error
  answered valid size success w =
      let w' : World = clear_error w in
      if size == 0
      then done (true, w')
      else (if ltb valid size
          then fault
          else (if ltb size valid
              then done (true, w')
              else (if ltb buffer_size (w'.out.rindex + size)
                  then fault
                  else done (
                    true,
                    on_complete handler size success
                        (with_out w' (advance buffer_size size w'.out)),
                  ))))
  answered valid size eintr w = done (true, w)
  answered valid size eagain w = done (false, refused w)
  answered valid size ec w = done (false, on_complete handler 0 ec (set_error ec w))

  -- The part of the loop's body that sends from the front chunk.
  unfoldable pub send_chunk : World → Run (Bool × World)
  unfolding answered remaining send_answer
  send_chunk w =
      let o : Ostream = w.out in
      let start = with_out w (record o { complete = false }) in
      let valid = min (remaining o) ((buffer_size + 2 ^ 64 - o.rindex) % 2 ^ 64) in
      if valid == 0 then fault else elim o.buffers [
        | [] ↦ fault
        | front ∷ rest ↦
            let (size, ec, w') = send_data (take valid (drop o.rindex front)) start in
            answered valid size ec w'
      ]

  -- One pass of the loop, and whether another follows. `fuel` is for `write_oob`.
  unfoldable pub pass : ℕ → World → Run (Bool × World)
  unfolding write_oob send_chunk idle
  pass fuel w =
      if w.flags.shutdown || w.flags.closed || w.flags.closing
      then done (false, w)
      else elim w.out.oobq [
        | b ∷ rest ↦ write_oob handler fuel true w >>= (λ w'. done (true, w'))
        | [] ↦
            if not w.out.next_buffer && not w.out.complete
            then done (false, idle w)
            else send_chunk w
      ]

  unfoldable pub on_write : ℕ → World → Run World
  unfolding pass
  on_write zero w = out_of_fuel
  on_write (suc fuel) w = pass fuel w >>= (λ r.
      let (again, w') = r in let more = on_write fuel w' in if again then more else done w')
