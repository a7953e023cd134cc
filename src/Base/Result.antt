-- ===== src/Base/Result.antt =====
-- Results of code that throws. An exception is its message's origin.

use mathlib.Core.Bool.{Bool, true, false}

-- `k::exception` by the check that throws it.
pub data Exception : Type 0 where
  not_readable : Exception
  not_writeable : Exception
  out_of_range : Exception
  invalid_value : Exception
  system_error : Exception

pub data Result {ℓ} (A : Type ℓ) : Type ℓ where
  ok : A → Result A
  throw : Exception → Result A

infixl 5 ◌>>=◌ ◌>>◌
abbrev pub ◌>>=◌ {ℓ κ} : {A : Type ℓ} {B : Type κ} → Result A → (A → Result B) → Result B
ok a >>= f = f a
throw e >>= f = throw e

abbrev pub ◌>>◌ {ℓ} : {B : Type ℓ} → Result (Unit {0}) → Result B → Result B
m >> k = m >>= λ _. k

-- `if (!test) throw_exception(...)`
abbrev pub guard : Bool → Exception → Result (Unit {0})
guard true e = ok tt
guard false e = throw e
