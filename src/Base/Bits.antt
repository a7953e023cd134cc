-- ===== src/Base/Bits.antt =====
-- The binary digits of a number: `|` and `&` digit by digit, and masks of one bit.
use Prim.Native.Nat.{
  ℕ, zero, suc, ◌+◌, ◌-◌, ◌*◌, ◌/◌, ◌%◌, ◌^◌, ◌≤◌, ◌<◌, min, max, bit_and, bit_or, digits,
  bit_and-bitwise, bit_or-bitwise,
}
use mathlib.Core.Path.{◌≡◌, refl, ◌∙◌, ap}
use mathlib.Core.Bool.{Bool, false, ◌&&◌, ◌||◌, not}
use native.Mathlib.Omega.{arith}
use native.Mathlib.Nat.{pow-suc, one-le-pow}
use libkngin.Base.Tests.{◌==◌, leb, if◌then◌else◌}

-- The digit of weight `2 ^ k`.
unfoldable pub test_bit : ℕ → ℕ → Bool
test_bit x zero = x % 2 == 1
test_bit x (suc k) = test_bit (x / 2) k

-- A bitwise operation works digit by digit on a count of rounds. `rest` is the result when the
-- first number has run out.
module _ (rest : ℕ → ℕ) (join : ℕ → ℕ → ℕ) where
  one_round_more :
      (rounds x y : ℕ)
      → x ≤ rounds
      → digits rest join (suc rounds) x y ≡ digits rest join rounds x y
  one_round_more (suc rounds) zero y h = refl
  one_round_more zero zero y h = refl
  one_round_more zero (suc x) y h = absurd (omega arith)
  one_round_more (suc rounds) (suc x) y h =
      let lower = one_round_more rounds (suc x / 2) (y / 2) (omega arith) in
      ap (λ (v : ℕ). v * 2 + join (suc x % 2) (y % 2)) lower

  -- Rounds beyond those that the first number needs change nothing.
  spare_rounds :
      (gap many few x y : ℕ)
      → many ≡ gap + few
      → x ≤ few
      → digits rest join many x y ≡ digits rest join few x y
  spare_rounds zero many few x y e h = ap (λ (n : ℕ). digits rest join n x y) (omega arith)
  spare_rounds (suc gap) zero few x y e h = absurd (omega arith)
  spare_rounds (suc gap) (suc many) few x y e h =
      one_round_more many x y (omega arith) ∙ spare_rounds gap many few x y (omega arith) h

  lowest_digit :
      ((y : ℕ) → rest y ≡ rest (y / 2) * 2 + join 0 (y % 2))
      → (x y : ℕ)
      → digits rest join x x y ≡ digits rest join (x / 2) (x / 2) (y / 2) * 2 + join (x % 2) (y % 2)
  lowest_digit end zero y = end y
  lowest_digit end (suc x) y =
      let half = suc x / 2 in
      let lower = spare_rounds (x - half) x half half (y / 2) (omega arith) (omega arith) in
      ap (λ (v : ℕ). v * 2 + join (suc x % 2) (y % 2)) lower

or-digit : (x y : ℕ) → max (x % 2) (y % 2) + bit_or (x / 2) (y / 2) * 2 ≡ bit_or x y
or-digit x y =
    let end : (v : ℕ) → v ≡ v / 2 * 2 + max 0 (v % 2) = λ v. omega arith in
    omega
      (arith, lowest_digit (λ v. v) max end x y, bit_or-bitwise x y, bit_or-bitwise (x / 2) (y / 2))

pub and-digit : (x y : ℕ) → min (x % 2) (y % 2) + bit_and (x / 2) (y / 2) * 2 ≡ bit_and x y
and-digit x y =
    let end : (v : ℕ) → 0 ≡ 0 * 2 + min 0 (v % 2) = λ v. omega arith in
    omega (
      arith,
      lowest_digit (λ v. 0) min end x y,
      bit_and-bitwise x y,
      bit_and-bitwise (x / 2) (y / 2),
    )

pub test_bit-or : (k a b : ℕ) → test_bit (bit_or a b) k ≡ (test_bit a k || test_bit b k)
unfolding test_bit
test_bit-or zero a b = ground (arith, or-digit a b)
test_bit-or (suc k) a b =
    ap (λ t. test_bit t k) (omega (arith, or-digit a b)) ∙ test_bit-or k (a / 2) (b / 2)

pub test_bit-and : (k a b : ℕ) → test_bit (bit_and a b) k ≡ (test_bit a k && test_bit b k)
unfolding test_bit
test_bit-and zero a b = ground (arith, and-digit a b)
test_bit-and (suc k) a b =
    ap (λ t. test_bit t k) (omega (arith, and-digit a b)) ∙ test_bit-and k (a / 2) (b / 2)

test_bit-zero : (k : ℕ) → test_bit 0 k ≡ false
unfolding test_bit
test_bit-zero zero = refl
test_bit-zero (suc k) = test_bit-zero k

-- `1 << p` has its one digit at `p`.
pub test_bit-two_pow : (k p : ℕ) → test_bit (2 ^ p) k ≡ (k == p)
unfolding test_bit
test_bit-two_pow zero zero = refl
test_bit-two_pow zero (suc p) = ground (arith, pow-suc 2 p)
test_bit-two_pow (suc k) zero = test_bit-zero k ∙ ground arith
test_bit-two_pow (suc k) (suc p) =
    ap (λ t. test_bit t k) (omega (arith, pow-suc 2 p)) ∙ test_bit-two_pow k p ∙ ground arith

-- `~(1 << p)` in a word of `w` bits: every digit below `w` but that one.
pub test_bit-mask : (w k : ℕ) → test_bit (2 ^ w - 1) k ≡ not (leb w k)
unfolding test_bit
test_bit-mask zero k = test_bit-zero k ∙ ground arith
test_bit-mask (suc w) zero = ground (arith, pow-suc 2 w, one-le-pow w 2)
test_bit-mask (suc w) (suc k) =
    ap (λ t. test_bit t k) (omega (arith, pow-suc 2 w, one-le-pow w 2))
    ∙ test_bit-mask w k
    ∙ ground arith

two_pow_lt : (p w : ℕ) → p < w → 2 ^ p < 2 ^ w
two_pow_lt zero zero h = absurd (omega arith)
two_pow_lt zero (suc w) h = omega (arith, pow-suc 2 w, one-le-pow w 2)
two_pow_lt (suc p) zero h = absurd (omega arith)
two_pow_lt (suc p) (suc w) h = omega (arith, pow-suc 2 w, pow-suc 2 p, two_pow_lt p w (omega arith))

pub test_bit-clear_mask :
    (w k p : ℕ) → p < w → test_bit (2 ^ w - 1 - 2 ^ p) k ≡ (not (leb w k) && not (k == p))
unfolding test_bit
test_bit-clear_mask zero k p h = absurd (omega arith)
test_bit-clear_mask (suc w) zero zero h = ground (arith, pow-suc 2 w, one-le-pow w 2)
test_bit-clear_mask (suc w) (suc k) zero h =
    ap (λ t. test_bit t k) (omega (arith, pow-suc 2 w, one-le-pow w 2))
    ∙ test_bit-mask w k
    ∙ ground arith
test_bit-clear_mask (suc w) zero (suc p) h =
    ground (arith, pow-suc 2 w, pow-suc 2 p, two_pow_lt p w (omega arith))
test_bit-clear_mask (suc w) (suc k) (suc p) h =
    ap (λ t. test_bit t k) (omega (arith, pow-suc 2 w, pow-suc 2 p, two_pow_lt p w (omega arith)))
    ∙ test_bit-clear_mask w k p (omega arith)
    ∙ ground arith

-- `(1 << p) & v`, as a condition.
pub bit_and-two_pow : (p v : ℕ) → bit_and (2 ^ p) v ≡ (if test_bit v p then 2 ^ p else 0)
unfolding test_bit
bit_and-two_pow zero v = ground (arith, and-digit 1 v, bit_and-bitwise 0 (v / 2))
bit_and-two_pow (suc p) v =
    ground (arith, and-digit (2 ^ suc p) v, pow-suc 2 p, bit_and-two_pow p (v / 2))

pub two_pow_ne_zero : (p : ℕ) → (2 ^ p == 0) ≡ false
two_pow_ne_zero p = ground (arith, one-le-pow p 2)

bit_and-zero_fuel : (n a : ℕ) → a ≤ n → bit_and a 0 ≡ 0
bit_and-zero_fuel n zero h = bit_and-bitwise 0 0
bit_and-zero_fuel zero (suc a) h = absurd (omega arith)
bit_and-zero_fuel (suc n) (suc a) h =
    omega (arith, and-digit (suc a) 0, bit_and-zero_fuel n (suc a / 2) (omega arith))

-- The same with the mask on the right.
pub bit_and-two_pow_right : (p v : ℕ) → bit_and v (2 ^ p) ≡ (if test_bit v p then 2 ^ p else 0)
unfolding test_bit
bit_and-two_pow_right zero v =
    ground (arith, and-digit v 1, bit_and-zero_fuel (v / 2) (v / 2) (omega arith))
bit_and-two_pow_right (suc p) v =
    ground (arith, and-digit v (2 ^ suc p), pow-suc 2 p, bit_and-two_pow_right p (v / 2))
