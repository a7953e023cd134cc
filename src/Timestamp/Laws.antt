-- ===== src/Timestamp/Laws.antt =====
-- The conversions of libkngin/include/kngin/core/base/timestamp.h.
use native.Mathlib.Nat.{mod-add-div', mul-div_right, zero-div}
use libkngin.Base.{ℕ, suc, ◌+◌, ◌-◌, ◌*◌, ◌/◌, ◌%◌, ◌^◌, ◌<◌, zero, ◌≡◌, refl, ap, ◌∙◌, true, arith}
use libkngin.Base.Int.{ℤ, pos, negsuc, ◌+ℤ◌, min_ℤ, ltb_ℤ}
use libkngin.Timestamp.{
  Timestamp, timestamp, neg, quot, rem, scale, from_timespec, from_timeval, to_timespec, to_timeval,
  value_int, value_uint, infinite, wrap, signed,
}

neg-suc : (n : ℕ) → neg (suc n) ≡ negsuc n
neg-suc n = ground arith

scale-neg : (k m : ℕ) → scale k (neg m) ≡ neg (k * m)
unfolding scale
scale-neg k zero = ground arith
scale-neg k (suc m) = rw (neg-suc m) refl

quot-neg : (k m : ℕ) → 0 < k → quot (neg m) k ≡ neg (m / k)
unfolding quot
quot-neg k zero h = rw (zero-div k) refl
quot-neg k (suc m) h = rw (neg-suc m) refl

neg-add : (a b : ℕ) → (neg a +ℤ neg b) ≡ neg (a + b)
unfolding ◌+ℤ◌
neg-add a b = ground arith

-- The quotient and the remainder, scaled up and down again.
back : (k : ℕ) (a : ℤ) → 0 < k → (scale 1000 (quot a 1000) +ℤ quot (scale k (rem a 1000)) k) ≡ a
unfolding scale quot rem ◌+ℤ◌
back k (pos n) h =
    let e : k * (n % 1000) / k ≡ n % 1000 = mul-div_right (n % 1000) h in
    let split = mod-add-div' n 1000 in
    let whole : (pos (1000 * (n / 1000)) +ℤ pos (n % 1000)) ≡ pos n = ground arith in
    ap (λ x. pos (1000 * (n / 1000)) +ℤ pos x) e ∙ whole
back k (negsuc n) h =
    let e : k * (suc n % 1000) / k ≡ suc n % 1000 = mul-div_right (suc n % 1000) h in
    let split = mod-add-div' (suc n) 1000 in
    let whole : 1000 * (suc n / 1000) + suc n % 1000 ≡ suc n = omega arith in
    ap (λ x. x +ℤ quot (scale k (neg (suc n % 1000))) k) (scale-neg 1000 (suc n / 1000))
    ∙ ap (λ x. neg (1000 * (suc n / 1000)) +ℤ quot x k) (scale-neg k (suc n % 1000))
    ∙ ap (λ x. neg (1000 * (suc n / 1000)) +ℤ x) (quot-neg k (k * (suc n % 1000)) h)
    ∙ ap (λ x. neg (1000 * (suc n / 1000)) +ℤ neg x) e
    ∙ neg-add (1000 * (suc n / 1000)) (suc n % 1000)
    ∙ ap neg whole
    ∙ neg-suc n

-- A timestamp is its `timespec` and its `timeval` read back, before 1970 too.
pub from_timespec-to_timespec :
    (a : Timestamp) → (from_timespec (to_timespec a) ≡ a) × (from_timeval (to_timeval a) ≡ a)
unfolding from_timespec from_timeval to_timespec to_timeval
from_timespec-to_timespec a =
    (ap timestamp (back 1000000 a.ms (omega arith)), ap timestamp (back 1000 a.ms (omega arith)))

-- `value_int` and `value_uint` give an instant or span from 0 on as it is, or the largest value of
-- their type if it is beyond that.
pub value_int-value_uint :
    (n : ℕ)
    → (value_int (timestamp (pos n)) ≡ min_ℤ (pos n) (pos (2 ^ 31 - 1)))
      × (pos (value_uint (timestamp (pos n))) ≡ min_ℤ (pos n) (pos (2 ^ 32 - 1)))
unfolding value_int value_uint wrap signed
value_int-value_uint n = ground arith

-- `infinite ()` is -1 for `value_int`, what `epoll_wait` takes for no limit, and the largest value
-- for `value_uint`; it is earlier than every time from 0 on.
pub infinite_lem :
    (value_int infinite ≡ negsuc 0)
    × (value_uint infinite ≡ 2 ^ 32 - 1)
    × ((n : ℕ) → ltb_ℤ infinite.ms (pos n) ≡ true)
unfolding value_int value_uint infinite wrap signed
infinite_lem = (refl, refl, λ n. ground arith)
