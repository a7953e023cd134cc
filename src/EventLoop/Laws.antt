-- ===== src/EventLoop/Laws.antt =====
-- The order of tasks in libkngin/detail/core/event/event_loop.cpp.
use libkngin.Base.{
  ℕ, ◌≡◌, sym, ap, ◌∙◌, false, List, [], ◌∷◌, ◌++◌, append_assoc, append-nil, Bool, if◌then◌else◌,
}
use libkngin.Base.Run.{Run}
use libkngin.EventLoop.{Loop, run_batch, process_tasks}

-- The tasks that the tasks of a list queue.
pub queued_by : (ℕ → List ℕ) → List ℕ → List ℕ
queued_by more [] = []
queued_by more (t ∷ ts) = more t ++ queued_by more ts

module _ {E : Type 0} (run_task : ℕ → Loop E → Loop E)
    (on_events : ℕ → ℕ → Loop E → Run (Bool × Loop E)) (deletes : ℕ → Loop E → Bool)
    (more : ℕ → List ℕ)
    (queues : (t : ℕ) (l : Loop E) → run_task t l ≡ record l { tasks = l.tasks ++ more t }) where
  run_batch_lem :
      (ts : List ℕ) (l : Loop E)
      → l.stop ≡ false
      → run_batch run_task on_events deletes ts l
        ≡ record l { tasks = l.tasks ++ queued_by more ts; ran = l.ran ++ ts }
  unfolding run_batch queued_by
  run_batch_lem [] l s =
      ap (λ (q : List ℕ). record l { tasks = q }) (sym (append-nil l.tasks))
      ∙ ap (λ (q : List ℕ). record l { tasks = l.tasks ++ []; ran = q }) (sym (append-nil l.ran))
  run_batch_lem (t ∷ ts) l s =
      let start : Loop E = record l { ran = l.ran ++ t ∷ [] } in
      let next : Loop E = record start { tasks = l.tasks ++ more t } in
      let go : Loop E → Loop E =
        λ x. if x.stop then x else run_batch run_task on_events deletes ts x in
      ap go (queues t start)
      ∙ ap (λ (b : Bool). if b then next else run_batch run_task on_events deletes ts next) s
      ∙ run_batch_lem ts next s
      ∙ ap (λ (q : List ℕ). record next { tasks = q; ran = (l.ran ++ t ∷ []) ++ ts })
          (append_assoc l.tasks (more t) (queued_by more ts))
      ∙ ap
          (λ (q : List ℕ). record next {
            tasks = l.tasks ++ (more t ++ queued_by more ts);
            ran = q;
          })
          (append_assoc l.ran (t ∷ []) ts)

  -- If every task does nothing but queue tasks, `process_tasks` runs the tasks that wait, each once
  -- and in their order, and leaves those that they have queued, in the order of the tasks that
  -- queued them, for the next round.
  pub process_tasks_lem :
      (l : Loop E)
      → l.stop ≡ false
      → process_tasks run_task on_events deletes l
        ≡ record l { tasks = queued_by more l.tasks; ran = l.ran ++ l.tasks }
  unfolding process_tasks
  process_tasks_lem l s = run_batch_lem l.tasks (record l { tasks = [] }) s
