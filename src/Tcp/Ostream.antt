-- ===== src/Tcp/Ostream.antt =====
-- libkngin/detail/net/tcp/impl/posix_tcp_ostream.cpp: bytes wait in chunks of KNGIN_OUT_BUFFER_SIZE
-- until the socket takes them. Assertions are part of the build, so one that fails is a fault.
pub mod Answers
pub mod Append
pub mod Chunks
pub mod Copy
pub mod Delivery
pub mod Send
pub mod Sending
pub mod Urgent
use libkngin.Base.{
  ℕ, zero, suc, ◌+◌, ◌-◌, ◌*◌, ◌/◌, ◌%◌, ◌^◌, min, Bool, true, false, ◌&&◌, ◌||◌, not, List, [],
  ◌∷◌, ◌++◌, Option, none, some, ◌==◌, ltb, leb, if◌then◌else◌, length, take, drop, set, get_elem?,
}
use libkngin.Base.Run.{Run, done, fault, out_of_fuel, ◌>>=◌}
use libkngin.EpollEvent.{et, watches_out, enable_write, disable_write}
use libkngin.Tcp.World.{
  World, Ostream, Flags, Errno, success, eintr, eagain, request, update_interest, run_on_write,
  send_data, send_oob, set_error, clear_error,
}

-- `remaining ()`: `size_t` subtraction wraps.
unfoldable pub remaining : Ostream → ℕ
remaining o = (o.windex + 2 ^ 64 - o.rindex) % 2 ^ 64

-- `buffers_[which] + index` filled by `memcpy`.
unfoldable pub splice : List ℕ → ℕ → List ℕ → List ℕ
splice chunk index bs = take index chunk ++ (bs ++ drop (index + length bs) chunk)

-- The session's stream, replaced.
abbrev pub with_out : World → Ostream → World
with_out w o = record w { out = o }

-- The end of both `async_write`s: without edge triggering the first data asks for `EPOLLOUT`, with it
-- `on_write` is queued, unless the socket has refused data.
unfoldable pub ask_to_write : Bool → World → World
ask_to_write enable w =
    let w' : World = if enable && not (et w.ev) then update_interest (enable_write w.ev) w else w in
    if not w.out.complete && et w.ev then request run_on_write w' else w'

-- `clear ()`
unfoldable pub clear : Ostream → Ostream
clear o = record o { buffers = []; oobq = []; next_buffer = false; rindex = 0 }

-- `size` is KNGIN_OUT_BUFFER_SIZE; `blank` is what `new uint8_t[size]` holds.
module _ (buffer_size : ℕ) (blank : List ℕ) where
  -- The `while` loop of `append_buffer` that adds chunks.
  unfoldable pub grow : ℕ → ℕ → List (List ℕ) → Run (List (List ℕ))
  grow zero need buffers = out_of_fuel
  grow (suc fuel) need buffers =
      let more = grow fuel need (buffers ++ blank ∷ []) in
      if ltb (buffer_size * length buffers) need then more else done buffers

  -- Its `do` loop, which copies: `begin` bytes of `size` are copied, and the next go to the chunk
  -- `which`. `bytes` are those from `data` on.
  unfoldable pub copy_loop : ℕ → ℕ → ℕ → List ℕ → ℕ → ℕ → Ostream → Run Ostream
  unfolding splice
  copy_loop zero size begin bytes which new_windex o = out_of_fuel
  copy_loop (suc fuel) size begin bytes which new_windex o =
      let index = o.windex % buffer_size in
      let writeable = min (size - begin) (buffer_size - index) in
      elim (get_elem? o.buffers which) [
        | none ↦ fault
        | some chunk ↦
            let o' : Ostream = record o {
              buffers = set o.buffers which (splice chunk index (take writeable bytes));
              windex = o.windex + writeable;
            } in
            let more =
              copy_loop fuel size (begin + writeable) (drop writeable bytes) (which + 1) new_windex
                o' in
            if leb new_windex o'.windex then done o' else more
      ]

  -- `append_buffer`, with fuel for both loops.
  unfoldable pub append_buffer : ℕ → List ℕ → Ostream → Run Ostream
  unfolding grow copy_loop
  append_buffer fuel bytes o =
      let size = length bytes in
      if size == 0 then fault else (do
        buffers ← grow fuel (o.windex + size) o.buffers
        o' ←
            copy_loop fuel size 0 bytes (o.windex / buffer_size) (o.windex + size)
              (record o { buffers = buffers })
        done (record o' { next_buffer = true }))

  -- `async_write (buf, flags)` with `message_oob` or without: the last byte of urgent data waits
  -- apart. `fuel` is for `append_buffer`.
  unfoldable pub async_write : ℕ → List ℕ → Bool → World → Run World
  unfolding append_buffer
  async_write fuel bytes oob w =
      let size = length bytes in
      let enable = not w.out.next_buffer in
      if size == 0 then fault else (do
        o ←
            if oob
            then (do
              o ←
                  if ltb 1 size
                  then append_buffer fuel (take (size - 1) bytes) w.out
                  else done w.out
              done (record o { oobq = o.oobq ++ drop (size - 1) bytes }))
            else append_buffer fuel bytes w.out
        done (ask_to_write enable (with_out w o)))

  -- The loop of `async_write (bufs)`.
  unfoldable pub append_all : ℕ → List (List ℕ) → Ostream → Run Ostream
  unfolding append_buffer
  append_all fuel [] o = done o
  append_all fuel (bytes ∷ bufs) o = append_buffer fuel bytes o >>= (λ o'. append_all fuel bufs o')

  -- `async_write (bufs)` with the number of buffers that it returns.
  unfoldable pub async_write_all : ℕ → List (List ℕ) → World → Run (ℕ × World)
  unfolding append_all
  async_write_all fuel bufs w = if length bufs == 0 then done (0, ask_to_write false w) else (do
    o ← append_all fuel bufs w.out
    done (length bufs, ask_to_write (not w.out.next_buffer) (with_out w o)))
