-- ===== src/EpollReactor/Tests.antt =====
-- Runs of the reactor on a report of the waker between two of an event.
use libkngin.Base.{
  ◌+◌, ◌≡◌, refl, ◌||◌, List, [], ◌∷◌, ◌++◌, none, some, true, false, ◌⊎◌, length, if◌then◌else◌,
}
use libkngin.Base.Bits.{test_bit}
use libkngin.Base.Result.{ok, throw, system_error}
use libkngin.EpollReactor.{Report, reports, type_of, wait}
use libkngin.EpollReactor.Laws.{actives, wakers, any_fails, handled, type_of_lem, wait_lem}

abbrev three : List Report
three =
    record { event = some 64; bits = 5; read_fails = false }
    ∷ record { event = none; bits = 1; read_fails = true }
    ∷ record { event = some 64; bits = 17; read_fails = false }
    ∷ []

wait_lem_example :
    (wait (reports three) [] ≡ (
      if any_fails three then throw system_error else ok (length three),
      [] ++ actives (handled three),
      wakers (handled three),
    ))
    × ((any_fails three ≡ true) ⊎ (handled three ≡ three))
    × (length three ≡ length (actives three) + wakers three)
wait_lem_example = wait_lem three []

-- The read of the waker fails behind the first event.
wait_run : wait (reports three) [] ≡ (throw system_error, record { event = 64; type = 3 } ∷ [], 1)
unfolding wait
wait_run = refl

type_of_lem_example : type_of 7 ≡ (
    if test_bit 7 3 || test_bit 7 4
    then 4
    else (if test_bit 7 0 then 1 else 0)
      + (if test_bit 7 2 then 2 else 0)
      + (if test_bit 7 1 then 8 else 0))
type_of_lem_example = type_of_lem 7
