-- ===== src/Buffer/Out.antt =====
-- `class out_buffer`: a reading cursor. A method that moves the cursor returns the new one.
use libkngin.Base.{ℕ, ◌+◌, ◌-◌, ◌%◌, ◌^◌, List, Bool, true, false, ltb, not, if◌then◌else◌}
use libkngin.Base.Memory.{Memory, load, store, word_of}
use libkngin.Base.Result.{Result, ok, not_readable, guard, ◌>>◌}

pub record OutBuffer : Type 0 where
  pub arr : ℕ
  pub size : ℕ

-- `out_buffer ()` and `out_buffer (arr, size)`.
abbrev pub null_out : OutBuffer
null_out = record { arr = 0; size = 0 }

abbrev pub out_buffer : ℕ → ℕ → OutBuffer
out_buffer arr size = record { arr = arr; size = size }

-- `out_buffer (out_buffer &&buf)`: the new buffer, and what is left in `buf`.
unfoldable pub out_move : OutBuffer → OutBuffer × OutBuffer
out_move buf = (buf, null_out)

unfoldable pub check_readable : OutBuffer → ℕ → Result (Unit {0})
check_readable b n = guard (not (ltb b.size n)) not_readable

-- `size_t` addition.
abbrev pub add_size : ℕ → ℕ → ℕ
add_size a b = (a + b) % 2 ^ 64

-- `get (idx)`: the address of a byte; `at (idx)`: the byte.
unfoldable pub get : OutBuffer → ℕ → Result ℕ
unfolding check_readable
get b idx = check_readable b (add_size idx 1) >> ok (b.arr + idx)

unfoldable pub at : Memory → OutBuffer → ℕ → Result ℕ
unfolding check_readable
at m b idx = check_readable b (add_size idx 1) >> ok (m (b.arr + idx))

unfoldable pub eof : OutBuffer → Bool
eof b = if ltb 0 b.size then false else true

-- `end ()`, for a buffer that is not empty.
unfoldable pub last : OutBuffer → ℕ
last b = b.arr + b.size - 1

-- `read<Tp> (forward)` at a type of `width` bytes: the bit pattern of the value.
unfoldable pub read_value : Memory → ℕ → Bool → OutBuffer → Result (ℕ × OutBuffer)
unfolding check_readable
read_value m width forward b = do
  check_readable b width
  ok (
    word_of (load m b.arr width),
    record b {
      arr = b.arr + (if forward then width else 0);
      size = b.size - (if forward then width else 0);
    },
  )

-- `peek (val)` and `read (val)`.
unfoldable pub peek_word : Memory → ℕ → OutBuffer → Result (ℕ × OutBuffer)
unfolding read_value
peek_word m width b = read_value m width false b

unfoldable pub read_word : Memory → ℕ → OutBuffer → Result (ℕ × OutBuffer)
unfolding read_value
read_word m width b = read_value m width true b

-- `read (p, n)`: the count, the memory with the bytes copied to `p`, and the cursor.
unfoldable pub read : Memory → OutBuffer → ℕ → ℕ → Result (ℕ × Memory × OutBuffer)
unfolding check_readable
read m b p n = do
  check_readable b n
  ok (n, store m p (load m b.arr n), record b { arr = b.arr + n; size = b.size - n })

unfoldable pub reset : OutBuffer → ℕ → ℕ → OutBuffer
reset b arr size = record b { arr = arr; size = size }

unfoldable pub swap : OutBuffer → OutBuffer → OutBuffer × OutBuffer
swap a b = (b, a)

-- `operator -=`: the last bytes are given up, the cursor stays.
unfoldable pub drop_back : OutBuffer → ℕ → Result OutBuffer
unfolding check_readable
drop_back b n = check_readable b n >> ok (record b { size = b.size - n })

-- The bytes that are still to be read.
abbrev pub rest : Memory → OutBuffer → List ℕ
rest m b = load m b.arr b.size
