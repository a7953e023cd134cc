-- ===== src/Bits.antt =====
-- libkngin/include/kngin/core/base/bits.h: words of `w` bits, at most 64, and lists of positions.
pub mod Laws
mod Tests
use Prim.Native.Nat.{bit_and, bit_or}
use libkngin.Base.{ℕ, ◌-◌, ◌^◌, Bool, true, false, ◌&&◌, not, List, [], ◌∷◌, ltb, ◌==◌}
use libkngin.Base.Int.{ℤ, pos, negsuc, pos_part}
use libkngin.Base.Result.{Result, ok, throw, out_of_range, guard, ◌>>=◌, ◌>>◌}

-- BIT_VALUE, IS_BIT_SET and CLEAR_BIT, at a position below `w`.
abbrev pub bit_value : ℕ → ℕ
bit_value p = 2 ^ p

unfoldable pub is_bit_set : ℕ → ℕ → Bool
is_bit_set value p = not (bit_and (2 ^ p) value == 0)

unfoldable pub clear_bit : ℕ → ℕ → ℕ → ℕ
clear_bit w value p = bit_and (2 ^ w - 1 - 2 ^ p) value

-- `not (first < 0 or size_t(first) >= TYPE_BITS(Type))`
unfoldable pub in_range : ℕ → ℤ → Bool
in_range w (pos p) = ltb p w
in_range w (negsuc p) = false

module _ (w : ℕ) where
  unfoldable pub set_bits : ℕ → List ℤ → Result ℕ
  unfolding in_range
  set_bits val [] = ok val
  set_bits val (first ∷ args) = do
    guard (in_range w first) out_of_range
    rest ← set_bits val args
    ok (bit_or (bit_value (pos_part first)) rest)

  unfoldable pub clear_bits : ℕ → List ℤ → Result ℕ
  unfolding in_range clear_bit
  clear_bits val [] = ok val
  clear_bits val (first ∷ args) = do
    guard (in_range w first) out_of_range
    rest ← clear_bits val args
    ok (bit_and (clear_bit w val (pos_part first)) rest)

  -- `and` leaves the other positions unread where the first is not set.
  unfoldable pub is_bits_set : ℕ → List ℤ → Result Bool
  unfolding in_range is_bit_set
  is_bits_set val [] = ok true
  is_bits_set val (first ∷ args) = do
    guard (in_range w first) out_of_range
    elim (is_bit_set val (pos_part first)) [ true ↦ is_bits_set val args | false ↦ ok false ]

-- `bits_value<Type> (args...)` calls `set_bits(0, args...)`, whose type is that of the literal, a
-- 32-bit `int`, whatever `Type` is.
unfoldable pub bits_value : ℕ → List ℤ → Result ℕ
unfolding set_bits
bits_value w args = set_bits 32 0 args
