-- ===== src/Socket/Flags/Tests.antt =====
-- A kernel that keeps the word it is given: its state is the flags of the one descriptor.
use libkngin.Base.{ℕ, ◌≡◌, refl, Bool, true, ◌⊎◌, arith}
use libkngin.Base.Int.{ℤ, pos}
use libkngin.Base.Result.{ok, throw, system_error}
use libkngin.Base.Run.{done}
use libkngin.Tcp.World.{success}
use libkngin.Socket.{Answer, returned}
use libkngin.Socket.Flags.{set_flag, set_flag_ec, flag, flag_ec}
use libkngin.Socket.Flags.Laws.{Keeps, flag-set_flag, flag-set_flag_other}

abbrev get_word : ℤ → ℕ → Answer ℕ
get_word h k = returned k

abbrev set_word : ℤ → ℕ → ℕ → Answer (Unit {0}) × ℕ
set_word h flags k = (returned tt, flags)

abbrev every : ℕ → Bool
every q = true

set_word-Keeps : Keeps get_word set_word every
set_word-Keeps h flags k k' e = (k', refl, λ q s. cc)

-- O_RDWR, and then O_NONBLOCK too.
set_nonblock_test : set_flag get_word set_word 11 (pos 5) true 2 ≡ done (ok tt, 2050)
unfolding set_flag
set_nonblock_test = refl

flag-set_flag_example :
    (set_flag_ec get_word set_word 11 (pos 5) true 2 ≡ done (success, 2050))
    × (flag get_word set_word 11 (pos 5) 2050 ≡ done (ok true))
    × (flag_ec get_word set_word 11 (pos 5) 2050 ≡ done (true, success))
flag-set_flag_example =
    flag-set_flag get_word set_word every set_word-Keeps 11 (pos 5) true 2 2050 (omega arith) refl
      set_nonblock_test

flag-set_flag_other_example :
    ((flag get_word set_word 1 (pos 5) 2050 ≡ flag get_word set_word 1 (pos 5) 2)
      × (flag_ec get_word set_word 1 (pos 5) 2050 ≡ flag_ec get_word set_word 1 (pos 5) 2))
    ⊎ ((flag get_word set_word 1 (pos 5) 2 ≡ done (throw system_error))
        × (flag get_word set_word 1 (pos 5) 2050 ≡ done (ok true)))
flag-set_flag_other_example =
    flag-set_flag_other get_word set_word every set_word-Keeps 11 1 (pos 5) true 2 2050
      (omega arith) (omega arith) refl refl set_nonblock_test
