-- ===== src/Logger/Queue.antt =====
-- libkngin/detail/core/base/logger.cpp with `KNGIN_USE_ASYNC_LOGGER`: the queue of the log, the threads
-- that post to it and the one that writes.
use libkngin.Base.{ℕ, zero, suc, ◌≡◌, Bool, true, false, List, [], ◌∷◌, ◌++◌}

-- Where `log_thread` is: about to take the lock with no entry, about to write the oldest entry, about to
-- take the lock behind that, or returned.
pub data At : Type 0 where
  locking : At
  writing : At
  wrote : At
  returned : At

-- `stop_` and `log_dataq_`, from its back to its front, so that the oldest entry comes first; the
-- entries that `write_log` has been given, and those that have been posted.
pub record LogQueue (E : Type 0) : Type 0 where
  pub at : At
  pub stop : Bool
  pub dataq : List E
  pub written : List E
  pub posted : List E

-- The thread before its first turn.
abbrev pub started : {E : Type 0} → LogQueue E
started = record { at = At.locking; stop = false; dataq = []; written = []; posted = [] }

-- `post_log`
unfoldable pub post_log : {E : Type 0} → E → LogQueue E → LogQueue E
post_log e q = record q { dataq = q.dataq ++ e ∷ []; posted = q.posted ++ e ∷ [] }

-- `pop_back`
abbrev pub pop_back : {E : Type 0} → List E → List E
pop_back [] = []
pop_back (e ∷ es) = es

-- The part of a turn under the lock, on the queue without the entry that has been written: the thread
-- goes on to write, waits once more, or returns.
unfoldable pub next_entry : {E : Type 0} → List E → LogQueue E → LogQueue E
next_entry (e ∷ es) q = record q { at = At.writing; dataq = e ∷ es }
next_entry [] q = record q {
  at = elim q.stop [ true ↦ At.returned | false ↦ At.locking ];
  dataq = [];
}

-- What `log_thread` does next.
unfoldable pub thread_step : {E : Type 0} → LogQueue E → LogQueue E
unfolding next_entry
thread_step q = elim q.at [
  | locking ↦ next_entry q.dataq q
  | wrote ↦ next_entry (pop_back q.dataq) q
  | writing ↦ elim q.dataq [
    | [] ↦ q
    | e ∷ es ↦ record q { at = At.wrote; written = q.written ++ e ∷ [] }
  ]
  | returned ↦ q
]

-- The steps of the threads, in any order; `deinit` sets `stop_`.
pub data Step {E : Type 0} (q : LogQueue E) (r : LogQueue E) : Type 0 where
  posts : (e : E) → r ≡ post_log e q → Step q r
  works : r ≡ thread_step q → Step q r
  stops : r ≡ record q { stop = true } → Step q r

pub data Reach {E : Type 0} (s : LogQueue E) : LogQueue E → Type 0 where
  here : Reach s s
  next : {q r : LogQueue E} → Reach s q → Step q r → Reach s r

unfoldable pub work : {E : Type 0} → ℕ → LogQueue E → LogQueue E
unfolding thread_step
work zero q = q
work (suc n) q = work n (thread_step q)
