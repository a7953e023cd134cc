-- ===== src/Buffer/In.antt =====
-- `class in_buffer`: a writing cursor over `size` bytes at `arr`, of which `valid` are written.
use libkngin.Base.{ℕ, ◌+◌, ◌-◌, ◌%◌, ◌^◌, ◌≤◌, List, ltb, not}
use libkngin.Base.Memory.{Memory, load, store, bytes_of}
use libkngin.Base.Result.{Result, ok, not_readable, not_writeable, guard, ◌>>◌}
use libkngin.Buffer.Out.{add_size}

pub record InBuffer : Type 0 where
  pub arr : ℕ
  pub size : ℕ
  pub valid : ℕ

-- `in_buffer ()` and `in_buffer (arr, size)`.
abbrev pub null_in : InBuffer
null_in = record { arr = 0; size = 0; valid = 0 }

abbrev pub in_buffer : ℕ → ℕ → InBuffer
in_buffer arr size = record { arr = arr; size = size; valid = 0 }

-- `in_buffer (in_buffer &&buf)`: the new buffer, and what is left in `buf`.
unfoldable pub in_move : InBuffer → InBuffer × InBuffer
in_move buf = (buf, null_in)

-- `size_t` subtraction wraps.
unfoldable pub writeable : InBuffer → ℕ
writeable b = (b.size + 2 ^ 64 - b.valid) % 2 ^ 64

unfoldable pub check_valid : InBuffer → ℕ → Result (Unit {0})
check_valid b n = guard (not (ltb b.valid n)) not_readable

unfoldable pub check_writeable : InBuffer → ℕ → Result (Unit {0})
unfolding writeable
check_writeable b n = guard (not (ltb (writeable b) n)) not_writeable

-- `at (idx)` and `get (idx)`, by address.
unfoldable pub get : InBuffer → ℕ → Result ℕ
unfolding check_valid
get b idx = check_valid b (add_size idx 1) >> ok (b.arr + idx)

-- `write_value<Tp> (val)` at a type of `width` bytes, `val` given as its bit pattern.
unfoldable pub write_value : Memory → InBuffer → ℕ → ℕ → Result (Memory × InBuffer)
unfolding check_writeable
write_value m b width val = do
  check_writeable b width
  ok (store m (b.arr + b.valid) (bytes_of width val), record b { valid = add_size b.valid width })

-- `write (p, n)`.
unfoldable pub write : Memory → InBuffer → ℕ → ℕ → Result (Memory × InBuffer)
unfolding check_writeable
write m b p n = do
  check_writeable b n
  ok (store m (b.arr + b.valid) (load m p n), record b { valid = add_size b.valid n })

unfoldable pub reset : InBuffer → ℕ → ℕ → InBuffer
reset b arr size = record b { arr = arr; size = size; valid = 0 }

unfoldable pub swap : InBuffer → InBuffer → InBuffer × InBuffer
swap a b = (b, a)

-- `operator +=`: the caller has filled the next bytes.
unfoldable pub advance : InBuffer → ℕ → Result InBuffer
unfolding check_writeable
advance b n = check_writeable b n >> ok (record b { valid = add_size b.valid n })

-- The bytes written so far.
abbrev pub written : Memory → InBuffer → List ℕ
written m b = load m b.arr b.valid

-- The buffer lies in the address space and counts no byte beyond its end.
pub record IsValid (b : InBuffer) : Type 0 where
  pub fits : b.arr + b.size ≤ 2 ^ 63
  pub within : b.valid ≤ b.size
