-- ===== src/TimerQueue/Tests.antt =====
-- Three timers in a queue: 1 expires at 100 and every 50 behind that, 3 at 120 and is closed, 2 at 200.
use mathlib.Core.List.{Mem, not-mem-nil}
use libkngin.Base.{
  ℕ, ◌≡◌, refl, Bool, true, false, List, [], ◌∷◌, none, some, ◌==◌, if◌then◌else◌, mem, arith,
}
use libkngin.Base.Int.{pos, ◌+ℤ◌, ◌-ℤ◌}
use libkngin.Base.Permutations.{forall-cons}
use libkngin.Base.Run.{done, fault}
use libkngin.PriorityQueue.Sorted.{sorted_ops, sorted_laws}
use libkngin.Timestamp.{Timestamp, timestamp, plus, diff, zero_time}
use libkngin.TimerQueue.{
  Timer, Timers, monotonic_timer, timer_less, remove, min_delay, get_ready_timers,
  process_ready_timers,
}
use libkngin.TimerQueue.Ready.{open_of, IsSplit, get_ready_timers_lem}
use libkngin.TimerQueue.Renew.{IsProcessed}
use libkngin.TimerQueue.Process.{process_ready_timers_lem}
use libkngin.TimerQueue.Round.{IsValid, round_lem}
use libkngin.TimerQueue.Delay.{get_ready-min_delay}
use libkngin.TimerQueue.Cancel.{remove-fault}

abbrev ms : ℕ → Timestamp
ms n = timestamp (pos n)

abbrev set_timer : ℕ → ℕ → Bool → Timer
set_timer next interval closed = record {
  timeout = record { next = ms next; interval = ms interval };
  handler = some 7;
  closed = closed;
}

-- Two timers that are open, and a closed one.
abbrev pub timers_at : ℕ → Timer
timers_at p =
    if p == 1
    then set_timer 100 50 false
    else (if p == 2 then set_timer 200 0 false else set_timer 120 0 true)

abbrev pub three : Timers (List ℕ)
three = record { at = timers_at; heap = 1 ∷ 3 ∷ 2 ∷ []; calls = [] }

one_last :
    (x y : ℕ)
    → timer_less timers_at x y ≡ false
    → (z : ℕ) → Mem z (y ∷ [])
    → timer_less timers_at x z ≡ false
one_last x y h = forall-cons (timer_less timers_at x) false y [] h (λ z m. absurd (not-mem-nil m))

three-IsHeap : sorted_laws.IsHeap (timer_less timers_at) (1 ∷ 3 ∷ 2 ∷ [])
unfolding timer_less
three-IsHeap = (
  forall-cons (timer_less timers_at 1) false 3 (2 ∷ []) refl (one_last 1 2 refl),
  (one_last 3 2 refl, ((λ z m. absurd (not-mem-nil m)), tt)),
)

three-IsValid : IsValid sorted_ops sorted_laws three
three-IsValid = record { heap = three-IsHeap; distinct = (refl, (refl, (refl, tt))) }

get_ready_timers_lem_example :
    (due : List ℕ) × (q' : List ℕ) × (get_ready_timers sorted_ops 4 (ms 150) three
      ≡ done (open_of timers_at due, record three { heap = q' }))
    × IsSplit sorted_ops sorted_laws timers_at (ms 150) (1 ∷ 3 ∷ 2 ∷ []) due q'
get_ready_timers_lem_example =
    get_ready_timers_lem sorted_ops sorted_laws 4 (ms 150) three three-IsHeap (omega arith)

-- It runs: at 150 the timer 1 is listed, and 3 is dropped.
get_ready_runs :
    get_ready_timers sorted_ops 4 (ms 150) three ≡ done (1 ∷ [], record three { heap = 2 ∷ [] })
unfolding get_ready_timers
get_ready_runs = refl

get_ready-min_delay_example :
    (p : ℕ) × (due : List ℕ) × (q' : List ℕ) × (get_ready_timers sorted_ops 4 (ms 101) three
      ≡ done (open_of timers_at (p ∷ due), record three { heap = q' }))
    × IsSplit sorted_ops sorted_laws timers_at (ms 101) (1 ∷ 3 ∷ 2 ∷ []) (p ∷ due) q'
unfolding min_delay plus ◌+ℤ◌ diff ◌-ℤ◌
get_ready-min_delay_example =
    get_ready-min_delay sorted_ops sorted_laws (ms 1_000) (ms 60) (ms 101) three 1 (3 ∷ 2 ∷ []) 4
      three-IsHeap refl refl (omega arith)

abbrev quiet : ℕ → ℕ → Timestamp → Timers (List ℕ) → Timers (List ℕ)
quiet h p now ts = ts

-- The timers 1 and 3, taken from the heap.
abbrev taken : Timers (List ℕ)
taken = record three { heap = 2 ∷ [] }

outside : (q : ℕ) → mem q (1 ∷ 3 ∷ []) ≡ true → mem q (2 ∷ []) ≡ false
outside q h = ground arith

process_ready_timers_lem_example :
    IsProcessed sorted_ops sorted_laws
      (ms 160)
      (1 ∷ 3 ∷ [])
      taken
      (process_ready_timers sorted_ops quiet (1 ∷ 3 ∷ []) (ms 160) taken)
process_ready_timers_lem_example =
    process_ready_timers_lem sorted_ops sorted_laws quiet (ms 160) (λ h p ts. refl) (1 ∷ 3 ∷ [])
      taken (refl, (refl, tt)) ((λ z m. absurd (not-mem-nil m)), tt) outside

round_lem_example :
    (due : List ℕ) × (q' : List ℕ) × (ts' : Timers (List ℕ)) × (get_ready_timers sorted_ops 4
        (ms 150)
        three
      ≡ done (open_of timers_at due, record three { heap = q' }))
    × (process_ready_timers sorted_ops quiet
          (open_of timers_at due)
          (ms 160)
          (record three { heap = q' })
        ≡ ts')
    × IsSplit sorted_ops sorted_laws timers_at (ms 150) (1 ∷ 3 ∷ 2 ∷ []) due q'
    × IsProcessed sorted_ops sorted_laws
        (ms 160)
        (open_of timers_at due)
        (record three { heap = q' })
        ts'
    × IsValid sorted_ops sorted_laws ts'
round_lem_example =
    round_lem sorted_ops sorted_laws quiet (ms 150) (ms 160) (λ h p ts. refl) 4 three three-IsValid
      (omega arith)

-- The static timer as its constructor leaves it.
abbrev fresh : Timers (List ℕ)
fresh = record three {
  at = λ p. if p == 9 then monotonic_timer none zero_time zero_time else timers_at p;
}

remove-fault_example : remove sorted_ops 9 1 fresh ≡ fault
remove-fault_example = remove-fault sorted_ops 9 1 fresh refl refl
