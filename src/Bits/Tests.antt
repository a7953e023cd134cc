-- ===== src/Bits/Tests.antt =====
-- Runs of the bit operations on words of 8 and of 32 bits.
use libkngin.Base.{◌≡◌, refl, [], ◌∷◌}
use libkngin.Base.Int.{pos}
use libkngin.Base.Result.{ok}
use libkngin.Bits.{set_bits}

set_bits_run : set_bits 8 0 (pos 1 ∷ pos 3 ∷ []) ≡ ok 10
unfolding set_bits
set_bits_run = refl
