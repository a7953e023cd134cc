-- ===== src/EventLoop/Tests.antt =====
-- Runs of the loop on three tasks and three active events.
use libkngin.Base.{
  ℕ, ◌+◌, ◌≡◌, refl, true, false, Bool, List, [], ◌∷◌, ◌++◌, some, ◌==◌, if◌then◌else◌, arith,
}
use libkngin.Base.Run.{Run, done, fault, ◌>>=◌}
use libkngin.EventLoop.{Loop, remove_event, process_tasks, process_events}
use libkngin.EventLoop.Laws.{queued_by, process_tasks_lem}
use libkngin.EventLoop.Removal.{remove_all, drop_all}
use libkngin.EventLoop.Dispatch.{process_events_lem}

abbrev loop : Loop ℕ
loop = record {
  rest = 0;
  tasks = 1 ∷ 2 ∷ 3 ∷ [];
  stop = false;
  looping = true;
  actived =
      record { ev = some 7; events = 1 }
      ∷ record { ev = some 8; events = 2 }
      ∷ record { ev = some 9; events = 4 }
      ∷ [];
  processing = 0;
  registed = λ e. true;
  removed = [];
  ran = [];
}

-- Each task queues two others.
abbrev more : ℕ → List ℕ
more t = t ∷ 9 ∷ []

abbrev queue_more : ℕ → Loop ℕ → Loop ℕ
queue_more t l = record l { tasks = l.tasks ++ more t }

abbrev quiet : ℕ → ℕ → Loop ℕ → Run (Bool × Loop ℕ)
quiet ev types l = done (false, l)

-- The system takes no event out.
abbrev refuses : ℕ → Loop ℕ → Bool
refuses e l = false

process_tasks_lem_example :
    process_tasks queue_more quiet refuses loop
    ≡ record loop { tasks = queued_by more (1 ∷ 2 ∷ 3 ∷ []); ran = 1 ∷ 2 ∷ 3 ∷ [] }
process_tasks_lem_example = process_tasks_lem queue_more quiet refuses more (λ t l. refl) loop refl

-- The handler of 7 removes the event 9, and that of 8 throws.
abbrev gone : ℕ → List ℕ
gone e = if e == 7 then 9 ∷ [] else []

abbrev threw : ℕ → Bool
threw e = e == 8

abbrev note : ℕ → ℕ → ℕ → ℕ
note e types x = x + types

abbrev noting : ℕ → ℕ → Loop ℕ → Run (Bool × Loop ℕ)
noting e types l =
    remove_all (gone e) (record l { rest = note e types l.rest }) >>= (λ l'. done (threw e, l'))

process_events_lem_example :
    process_events queue_more noting refuses loop
    ≡ done (record loop {
      rest = 3;
      actived = [];
      processing = 0;
      registed = drop_all (9 ∷ 8 ∷ []) loop.registed;
      removed = 9 ∷ 8 ∷ [];
    })
process_events_lem_example =
    process_events_lem queue_more noting refuses gone threw note (λ e k l. refl)
      (λ e t. ground arith) loop refl

-- A handler that throws, the event of which is not registered any more, fails the assertion of the
-- reactor.
unregistered_run :
    process_events queue_more noting refuses (record loop { registed = λ e. e == 9 }) ≡ fault
unfolding process_events
unregistered_run = refl

-- A handler that removes its own event, if this is registered, and then throws: from the second slot on,
-- the `catch` block of `process_events` follows a null pointer.
abbrev hasty : ℕ → ℕ → Loop ℕ → Run (Bool × Loop ℕ)
hasty e types l =
    if e == 8 then remove_event true e l >>= (λ r. done (true, r.1)) else done (false, l)

self_removal_run : process_events queue_more hasty refuses loop ≡ fault
unfolding process_events
self_removal_run = refl
