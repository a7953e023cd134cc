-- ===== src/Socket/Flags.antt =====
-- libkngin/detail/core/base/descriptor.cpp: `dup`, `readable`, and the flags of a descriptor that
-- `fcntl` reads and writes. Flags are a word of 32 bits, and -1 the word with all bits set;
-- O_NONBLOCK and FD_CLOEXEC are one bit `2 ^ p` each. The state of the system, and what `fcntl` does
-- in it, are parameters.
pub mod Laws
mod Tests
use Prim.Native.Nat.{bit_and, bit_or}
use libkngin.Base.{ℕ, ◌-◌, ◌^◌, Bool, not, ◌==◌, if◌then◌else◌}
use libkngin.Base.Int.{ℤ, pos, negsuc, ltb_ℤ}
use libkngin.Base.Result.{Result, ok, throw, system_error}
use libkngin.Base.Run.{Run, done, fault}
use libkngin.Tcp.World.{Errno, success}
use libkngin.Socket.{Answer, returned, refused}

-- HANDLE_VALID, of a descriptor that is not negative.
unfoldable pub invalid : ℤ → Bool
invalid h = ltb_ℤ h (pos 0)

unfoldable pub dup : ℤ → Answer ℤ → Run (Result ℤ)
unfolding invalid
dup h answer =
    if invalid h
    then fault
    else elim answer [ returned n ↦ done (ok n) | refused e ↦ done (throw system_error) ]

unfoldable pub dup_ec : ℤ → Answer ℤ → Run (ℤ × Errno)
unfolding invalid
dup_ec h answer =
    if invalid h
    then fault
    else elim answer [ returned n ↦ done (n, success) | refused e ↦ done (negsuc 0, e) ]

unfoldable pub readable : ℤ → Answer ℕ → Run (Result ℕ)
unfolding invalid
readable h answer =
    if invalid h
    then fault
    else elim answer [ returned n ↦ done (ok n) | refused e ↦ done (throw system_error) ]

-- `bytes` is not initialised: `garbage` is what it holds.
unfoldable pub readable_ec : ℕ → ℤ → Answer ℕ → Run (ℕ × Errno)
unfolding invalid
readable_ec garbage h answer =
    if invalid h
    then fault
    else elim answer [ returned n ↦ done (n, success) | refused e ↦ done (garbage, e) ]

-- The value of `fcntl`, which is -1 when it fails.
abbrev pub value_of : Answer ℕ → ℕ
value_of (returned flags) = flags
value_of (refused e) = 2 ^ 32 - 1

-- `on ? flags | bit : flags & ~bit`
unfoldable pub with_flag : ℕ → Bool → ℕ → ℕ
with_flag p on flags = if on then bit_or flags (2 ^ p) else bit_and flags (2 ^ 32 - 1 - 2 ^ p)

-- `flags & bit`, as a `bool`.
unfoldable pub has_flag : ℕ → ℕ → Bool
has_flag p flags = not (bit_and flags (2 ^ p) == 0)

-- `fcntl` with F_GETFL or F_GETFD, and with F_SETFL or F_SETFD.
module _ {K : Type 0} (get : ℤ → K → Answer ℕ) (set : ℤ → ℕ → K → Answer (Unit {0}) × K) where
  -- `set_nonblock` and `set_closeexec`, throwing and with `ec`.
  unfoldable pub set_flag : ℕ → ℤ → Bool → K → Run (Result (Unit {0}) × K)
  unfolding invalid with_flag
  set_flag p h on k =
      let r = set h (with_flag p on (value_of (get h k))) k in
      if invalid h
      then fault
      else elim r.0 [ returned v ↦ done (ok tt, r.1) | refused e ↦ done (throw system_error, r.1) ]

  unfoldable pub set_flag_ec : ℕ → ℤ → Bool → K → Run (Errno × K)
  unfolding invalid with_flag
  set_flag_ec p h on k =
      let r = set h (with_flag p on (value_of (get h k))) k in
      if invalid h
      then fault
      else elim r.0 [ returned v ↦ done (success, r.1) | refused e ↦ done (e, r.1) ]

  -- `nonblock` and `closeexec`, throwing and with `ec`.
  unfoldable pub flag : ℕ → ℤ → K → Run (Result Bool)
  unfolding invalid has_flag
  flag p h k = if invalid h then fault else elim (get h k) [
    | returned flags ↦ done (ok (has_flag p flags))
    | refused e ↦ done (throw system_error)
  ]

  unfoldable pub flag_ec : ℕ → ℤ → K → Run (Bool × Errno)
  unfolding invalid has_flag
  flag_ec p h k = if invalid h then fault else elim (get h k) [
    | returned flags ↦ done (has_flag p flags, success)
    | refused e ↦ done (has_flag p (value_of (get h k)), e)
  ]
