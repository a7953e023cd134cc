-- ===== src/Logger.antt =====
-- libkngin/detail/core/base/logger.cpp, logfile.cpp and string.cpp: how a line of the log is formatted,
-- where it goes, and the queue between the threads that log and the one that writes.
pub mod Format
pub mod Queue
pub mod Drain
mod Tests
use libkngin.Base.{
  ℕ, zero, suc, ◌+◌, ◌-◌, ◌≤◌, Bool, true, false, not, ◌&&◌, ◌||◌, List, [], ◌∷◌, ◌++◌, Option,
  none, some, ◌==◌, leb, if◌then◌else◌, length, take, drop, replicate,
}
use libkngin.Base.Result.{Result, ok, throw, Exception, invalid_value}
use libkngin.Base.Run.{Run, done, fault, ◌>>=◌}

-- `std::string::resize`, and a write of bytes into a string, which stays inside of it or is a fault.
abbrev pub resize : ℕ → List ℕ → List ℕ
resize n s = take n s ++ replicate (n - length s) 0

abbrev pub overwrite : ℕ → List ℕ → List ℕ → Run (List ℕ)
overwrite at bytes s =
    if leb (at + length bytes) (length s)
    then done (take at s ++ (bytes ++ drop (at + length bytes) s))
    else fault

-- `format_string (result, fmt, vl, offset, extra)`; `content` is what `vsnprintf` makes of the format
-- and its arguments, or none if it fails.
unfoldable pub format_string : List ℕ → Option (List ℕ) → ℕ → ℕ → Run (Result (List ℕ))
format_string result none offset extra = done (throw invalid_value)
format_string result (some []) offset extra = done (ok result)
format_string result (some (b ∷ bs)) offset extra =
    let total = length (b ∷ bs) + offset + extra in
    let result' = if leb (length result) total then resize (total + 1) result else result in
    overwrite offset ((b ∷ bs) ++ 0 ∷ []) result'
    >>= (λ r. overwrite total (0 ∷ []) r >>= (λ r'. done (ok r')))

-- `KNGIN_LOG_DATETIME_LEN - 1`
abbrev pub datetime_len : ℕ
datetime_len = 19

-- `format_log`; `datetime` are the characters that `get_datetime` returns.
unfoldable pub format_log : List ℕ → Option (List ℕ) → Run (Result (List ℕ))
unfolding format_string
format_log datetime content = format_string [] content datetime_len 0 >>= (λ r. elim r [
  | throw e ↦ done (throw e)
  | ok result ↦ overwrite 0 datetime result >>= (λ s. done (ok s))
])

-- A log file: the bits of `mode_` and whether `cb_` is set, with what has been written to the file, to
-- the standard error stream (without its colours) and to the callback.
pub record Logfile : Type 0 where
  pub mode_file : Bool
  pub mode_stderr : Bool
  pub mode_callback : Bool
  pub callback : Bool
  pub enable_info : Bool
  pub enable_debug : Bool
  pub to_file : List (List ℕ)
  pub to_stderr : List (List ℕ)
  pub to_callback : List (List ℕ)

-- `set_mode (mode)`, by the bits of its argument.
unfoldable pub set_mode : Bool → Bool → Bool → Logfile → Logfile
set_mode file err cb l = record l {
  mode_file = l.mode_file && file;
  mode_stderr = l.mode_stderr && err;
  mode_callback = l.mode_callback && cb;
}

abbrev pub disable_info : Logfile → Logfile
disable_info l = record l { enable_info = false }

abbrev pub disable_debug : Logfile → Logfile
disable_debug l = record l { enable_debug = false }

-- What the system does with a line for the file: `fopen` fails, and `write_stderr2` is given a message
-- that says so, or the file is opened and `fwrite` writes that many bytes.
pub data FileAnswer : Type 0 where
  not_opened : List ℕ → FileAnswer
  wrote : ℕ → FileAnswer

-- `write_logfile`, `write_stderr` and the call of `cb_`, for the first `size` bytes of a line. The test
-- `ret < 0` never holds, since `ret` is a `size_t`.
unfoldable pub write_logfile : FileAnswer → List ℕ → ℕ → Logfile → Run Logfile
write_logfile answer line size l =
    if size == 0
    then fault
    else done (elim answer [
      | not_opened message ↦ record l { to_stderr = l.to_stderr ++ message ∷ [] }
      | wrote n ↦ record l { to_file = l.to_file ++ take n (take size line) ∷ [] }
    ])

unfoldable pub write_stderr : List ℕ → ℕ → Logfile → Run Logfile
write_stderr line size l =
    if size == 0 then fault else done (record l { to_stderr = l.to_stderr ++ take size line ∷ [] })

unfoldable pub write_log : FileAnswer → List ℕ → ℕ → Logfile → Run Logfile
unfolding write_logfile write_stderr
write_log answer line size l = do
  l1 ← if l.mode_file then write_logfile answer line size l else done l
  l2 ← if l.mode_stderr then write_stderr line size l1 else done l1
  done (
      if l.mode_callback && l.callback
      then record l2 { to_callback = l2.to_callback ++ take size line ∷ [] }
      else l2)

-- `write_fatal`, `write_error`, `write_warning`, `write_info` and `write_debug` without the queue, whose
-- bodies differ in the level alone.
unfoldable pub write_level : FileAnswer → List ℕ → Option (List ℕ) → Logfile → Run (Result Logfile)
unfolding format_log write_log
write_level answer datetime content l = format_log datetime content >>= (λ r. elim r [
  | throw e ↦ done (throw e)
  | ok line ↦ write_log answer line (length line - 1) l >>= (λ l'. done (ok l'))
])
