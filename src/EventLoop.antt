-- ===== src/EventLoop.antt =====
-- libkngin/detail/core/event/event_loop.cpp: queued tasks and active events. The loop of `run` and the timers stand in Timed.
pub mod Laws
pub mod Slots
pub mod Removal
pub mod Calls
pub mod Dispatch
pub mod Timed
pub mod Timers
pub mod Stop
pub mod Handshake
mod Tests
mod TimerTests
use libkngin.Base.{
  ℕ, zero, suc, ◌+◌, Bool, true, false, ◌&&◌, not, List, [], ◌∷◌, ◌++◌, Option, none, some, ◌==◌,
  if◌then◌else◌, length, get_elem?,
}
use libkngin.Base.Result.{Result, ok, throw, system_error}
use libkngin.Base.Run.{Run, done, fault, out_of_fuel, ◌>>=◌}

-- `actived_event`: the address of an event, or null, with the types that are active.
pub record Slot : Type 0 where
  pub ev : Option ℕ
  pub events : ℕ

-- The loop, with `registed ()` of each event, the events that its reactor has removed and the tasks that
-- it has run; `rest` is the state that only its timers and other threads use.
pub record Loop (E : Type 0) : Type 0 where
  pub rest : E
  pub tasks : List ℕ
  pub stop : Bool
  pub looping : Bool
  pub actived : List Slot
  pub processing : ℕ
  pub registed : ℕ → Bool
  pub removed : List ℕ
  pub ran : List ℕ

-- `run_in_loop (t)`; a task is its number.
unfoldable pub run_in_loop : {E : Type 0} → ℕ → Loop E → Loop E
run_in_loop t l = record l { tasks = l.tasks ++ t ∷ [] }

-- `actived_events_[i].ev = nullptr` for each `i` from `start` on that holds the event.
unfoldable pub clear_from : ℕ → ℕ → List Slot → List Slot
clear_from start ev [] = []
clear_from (suc start) ev (s ∷ slots) = s ∷ clear_from start ev slots
clear_from zero ev (s ∷ slots) =
    (elim s.ev [ none ↦ s | some e ↦ if e == ev then record s { ev = none } else s ])
    ∷ clear_from zero ev slots

-- `remove_event` of the reactor asserts that the event is registered; `deleted` says whether
-- `epoll_ctl` succeeds, which it throws about behind `set_registed (false)`.
unfoldable pub remove_event : {E : Type 0} → Bool → ℕ → Loop E → Run (Result (Unit {0}) × Loop E)
unfolding clear_from
remove_event deleted ev l =
    let slots = if l.processing == 0 then l.actived else clear_from l.processing ev l.actived in
    if l.registed ev
    then done (
      if deleted then ok tt else throw system_error,
      record l {
        actived = slots;
        registed = λ x. if x == ev then false else l.registed x;
        removed = l.removed ++ ev ∷ [];
      },
    )
    else fault

-- `run_task` is what a task does, `on_events` what the handler of an event does, with whether it
-- throws, and `deletes` whether `epoll_ctl` takes an event out.
module _ {E : Type 0} (run_task : ℕ → Loop E → Loop E)
    (on_events : ℕ → ℕ → Loop E → Run (Bool × Loop E)) (deletes : ℕ → Loop E → Bool) where
  -- The `for` loop of `process_tasks`.
  unfoldable pub run_batch : List ℕ → Loop E → Loop E
  run_batch [] l = l
  run_batch (t ∷ ts) l =
      let l' : Loop E = run_task t (record l { ran = l.ran ++ t ∷ [] }) in
      let rest = run_batch ts l' in if l'.stop then l' else rest

  unfoldable pub process_tasks : Loop E → Loop E
  unfolding run_batch
  process_tasks l = run_batch l.tasks (record l { tasks = [] })

  -- The handler of the slot `i`, and the removal of an event whose handler throws. What the removal
  -- throws is caught and ignored.
  unfoldable pub process_slot : ℕ → Loop E → Run (Loop E)
  unfolding remove_event
  process_slot i l = elim (get_elem? l.actived i) [
    | none ↦ fault
    | some s ↦ elim s.ev [
      | none ↦ done l
      | some ev ↦ on_events ev s.events l >>= (λ r.
          let (threw, l') = r in
          if not threw then done l' else elim (get_elem? l'.actived i) [
            | none ↦ fault
            | some s' ↦ elim s'.ev [
              | none ↦ fault
              | some e ↦ remove_event (deletes e l') e l' >>= (λ r. done r.1)
            ]
          ])
    ]
  ]

  -- The `for` loop of `process_events`, with `k` slots left from `i` on.
  unfoldable pub process_slots : ℕ → ℕ → Loop E → Run (Loop E)
  unfolding process_slot
  process_slots zero i l = done l
  process_slots (suc k) i l =
      process_slot i l
      >>= (λ l'. let rest = process_slots k (i + 1) l' in if l'.stop then done l' else rest)

  unfoldable pub process_events : Loop E → Run (Loop E)
  unfolding process_slots
  process_events l = do
    l' ← process_slots (length l.actived) 0 (record l { processing = 1 })
    done (record l' { processing = 0; actived = [] })
