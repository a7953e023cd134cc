-- ===== src/Logger/Tests.antt =====
-- Lines of the log, and a queue with two entries.
use libkngin.Base.{ℕ, ◌≡◌, refl, true, false, List, [], ◌∷◌, ◌++◌, some, replicate}
use libkngin.Base.Result.{ok}
use libkngin.Base.Run.{done}
use libkngin.Logger.{Logfile, not_opened, write_level}
use libkngin.Logger.Format.{write_level_lem}
use libkngin.Logger.Queue.{At, LogQueue, started, post_log, thread_step, Step, Reach, work}
use libkngin.Logger.Drain.{pending, Reach-pending, work-drains}

abbrev log : Logfile
log = record {
  mode_file = true;
  mode_stderr = true;
  mode_callback = true;
  callback = false;
  enable_info = false;
  enable_debug = true;
  to_file = [];
  to_stderr = [];
  to_callback = [];
}

abbrev datetime : List ℕ
datetime = replicate 19 48

write_level_lem_example :
    write_level (not_opened (33 ∷ [])) datetime (some (72 ∷ 105 ∷ [])) log
    ≡ done (ok (record log { to_stderr = (33 ∷ []) ∷ (datetime ++ 72 ∷ 105 ∷ []) ∷ [] }))
write_level_lem_example = write_level_lem 72 (105 ∷ []) datetime refl (not_opened (33 ∷ [])) log

-- Two entries have been posted, and the thread is about to write the first.
abbrev queue : LogQueue ℕ
queue = record {
  at = At.writing;
  stop = true;
  dataq = 1 ∷ 2 ∷ [];
  written = [];
  posted = 1 ∷ 2 ∷ [];
}

queue-Reach : Reach started queue
unfolding post_log thread_step
queue-Reach =
    Reach.next
      (Reach.next (Reach.next (Reach.next Reach.here (Step.posts 1 refl)) (Step.posts 2 refl))
        (Step.works refl))
      (Step.stops refl)

Reach-pending_example : queue.written ++ pending queue.at queue.dataq ≡ queue.posted
Reach-pending_example = Reach-pending queue queue-Reach

work-drains_example :
    (n : ℕ) × ((work n queue).at ≡ At.returned) × ((work n queue).written ≡ 1 ∷ 2 ∷ [])
work-drains_example = work-drains queue queue-Reach refl (λ e. cc)
