-- ===== src/EpollEvent/Laws.antt =====
-- Enabling or disabling one flag of an event leaves the others.

use libkngin.Base.{ℕ, ◌-◌, ◌^◌, ◌<◌, ◌≡◌, refl, not, ◌==◌, ◌&&◌, ◌||◌, arith}
use libkngin.Base.Bits.{
  test_bit, test_bit-or, test_bit-and, test_bit-two_pow, test_bit-clear_mask, bit_and-two_pow_right,
  two_pow_ne_zero,
}
use libkngin.EpollEvent.{EpollEvent, enable, disable, has}

has-test_bit : (bit : ℕ) (ev : EpollEvent) → has bit ev ≡ test_bit ev.flags bit
unfolding has
has-test_bit bit ev = ground (arith, bit_and-two_pow_right bit ev.flags, two_pow_ne_zero bit)

-- Enabling a flag sets it, disabling one clears it, and both leave every other flag of the word, the
-- descriptor and whether the event is registered.
pub has-enable-disable :
    (bit other : ℕ) (ev : EpollEvent)
    → bit < 32
    → other < 32
    → (has other (enable bit ev) ≡ (other == bit || has other ev))
      × (has other (disable bit ev) ≡ (not (other == bit) && has other ev))
      × ((enable bit ev).registed ≡ ev.registed)
      × ((disable bit ev).registed ≡ ev.registed)
      × ((enable bit ev).handle ≡ ev.handle)
      × ((disable bit ev).handle ≡ ev.handle)
unfolding enable disable
has-enable-disable bit other ev h k = (
  ground (
    arith,
    has-test_bit other ev,
    has-test_bit other (enable bit ev),
    test_bit-or other ev.flags (2 ^ bit),
    test_bit-two_pow other bit,
  ),
  ground (
    arith,
    has-test_bit other ev,
    has-test_bit other (disable bit ev),
    test_bit-and other ev.flags (2 ^ 32 - 1 - 2 ^ bit),
    test_bit-clear_mask 32 other bit h,
  ),
  refl,
  refl,
  refl,
  refl,
)
