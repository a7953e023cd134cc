-- ===== src/Logger/Format.antt =====
-- What a line of the log is, and where it goes, in libkngin/detail/core/base/logger.cpp.
use mathlib.Core.Path.{ap₂}
use libkngin.Base.{
  ℕ, zero, suc, ◌+◌, ◌-◌, ◌≡◌, refl, sym, ap, ◌∙◌, Bool, true, false, ◌&&◌, List, [], ◌∷◌, ◌++◌,
  some, arith, ◌==◌, leb, if◌then◌else◌, length, take, drop, replicate, length-append, append_assoc,
  append-nil, length-replicate,
}
use libkngin.Base.Result.{Result, ok, throw}
use libkngin.Base.Run.{Run, done, fault, ◌>>=◌}
use libkngin.Logger.{
  resize, overwrite, format_string, format_log, datetime_len, Logfile, write_log, write_level,
  FileAnswer, not_opened, wrote, write_logfile, write_stderr,
}

take-append : (xs ys : List ℕ) (n : ℕ) → length xs ≡ n → take n (xs ++ ys) ≡ xs
take-append [] ys zero e = refl
take-append [] ys (suc n) e = absurd (omega arith)
take-append (x ∷ xs) ys zero e = absurd (omega arith)
take-append (x ∷ xs) ys (suc n) e = ap (λ l. x ∷ l) (take-append xs ys n (omega arith))

drop-append : (xs ys : List ℕ) (n : ℕ) → length xs ≡ n → drop n (xs ++ ys) ≡ ys
drop-append [] ys zero e = refl
drop-append [] ys (suc n) e = absurd (omega arith)
drop-append (x ∷ xs) ys zero e = absurd (omega arith)
drop-append (x ∷ xs) ys (suc n) e = drop-append xs ys n (omega arith)

-- Bytes over bytes of the same number, between others.
overwrite-append :
    (pre old bytes post : List ℕ) (at : ℕ)
    → length pre ≡ at
    → length old ≡ length bytes
    → overwrite at bytes (pre ++ (old ++ post)) ≡ done (pre ++ (bytes ++ post))
overwrite-append pre old bytes post at h k =
    let inside : leb (at + length bytes) (length (pre ++ (old ++ post))) ≡ true =
      ground (arith, length-append pre (old ++ post), length-append old post) in
    let front = take-append pre (old ++ post) at h in
    let back =
      ap (λ (n : ℕ). drop n (pre ++ (old ++ post)))
        (ap (λ (n : ℕ). n + length bytes) (sym h)
          ∙ ap (λ (n : ℕ). length pre + n) (sym k)
          ∙ sym (length-append pre old))
      ∙ ap (λ (l : List ℕ). drop (length (pre ++ old)) l) (sym (append_assoc pre old post))
      ∙ drop-append (pre ++ old) post (length (pre ++ old)) refl in
    ap
      (λ (b : Bool).
        if b
        then done (
            take at (pre ++ (old ++ post))
            ++ (bytes ++ drop (at + length bytes) (pre ++ (old ++ post))))
        else fault)
      inside
    ∙ ap₂ (λ (x y : List ℕ). done (x ++ (bytes ++ y))) front back

take-nil : (n : ℕ) → take {A = ℕ} n [] ≡ []
take-nil zero = refl
take-nil (suc n) = refl

replicate-add : (m n j : ℕ) → j ≡ m + n → replicate {A = ℕ} j 0 ≡ replicate m 0 ++ replicate n 0
replicate-add zero n j e = ap (λ (i : ℕ). replicate {A = ℕ} i 0) (omega arith)
replicate-add (suc m) n zero e = absurd (omega arith)
replicate-add (suc m) n (suc j) e = ap (λ (l : List ℕ). 0 ∷ l) (replicate-add m n j (omega arith))

blank : (n k m : ℕ) → n ≡ k + m → resize n [] ≡ replicate k 0 ++ (replicate m 0 ++ [])
blank n k m e =
    ap (λ (l : List ℕ). l ++ replicate (n - 0) 0) (take-nil n)
    ∙ replicate-add k m (n - 0) (omega (arith, e))
    ∙ ap (λ (l : List ℕ). replicate k 0 ++ l) (sym (append-nil (replicate m 0)))

-- The three writes of a line `c` behind a gap of `k` bytes, into which the bytes `d` go.
module _ (c d : List ℕ) (k : ℕ) (size : length d ≡ k) where
  write-line :
      (n : ℕ)
      → n ≡ length c + k + 0 + 1
      → overwrite k (c ++ 0 ∷ []) (resize n []) ≡ done (replicate k 0 ++ ((c ++ 0 ∷ []) ++ []))
  write-line n e =
      ap (overwrite k (c ++ 0 ∷ [])) (blank n k (length c + 1) (omega (arith, e)))
      ∙ overwrite-append (replicate k 0) (replicate (length c + 1) 0) (c ++ 0 ∷ []) [] k
          (length-replicate k 0)
          (length-replicate (length c + 1) 0 ∙ sym (length-append c (0 ∷ [])))

  write-end :
      overwrite (length c + k + 0) (0 ∷ []) (replicate k 0 ++ ((c ++ 0 ∷ []) ++ []))
      ≡ done (replicate k 0 ++ (c ++ 0 ∷ []))
  write-end =
      ap (overwrite (length c + k + 0) (0 ∷ [])) (
        ap (λ (l : List ℕ). replicate k 0 ++ l) (append-nil (c ++ 0 ∷ []))
        ∙ sym (append_assoc (replicate k 0) c (0 ∷ [])))
      ∙ overwrite-append (replicate k 0 ++ c) (0 ∷ []) (0 ∷ []) [] (length c + k + 0)
          (omega (arith, length-append (replicate k 0) c, length-replicate {A = ℕ} k 0)) refl
      ∙ ap done (append_assoc (replicate k 0) c (0 ∷ []))

  write-datetime : overwrite 0 d (replicate k 0 ++ (c ++ 0 ∷ [])) ≡ done (d ++ (c ++ 0 ∷ []))
  write-datetime =
      overwrite-append [] (replicate k 0) d (c ++ 0 ∷ []) 0 refl (length-replicate k 0 ∙ sym size)

-- What the file and the standard error stream hold when the system has answered for the file.
abbrev pub on_file : FileAnswer → List ℕ → List (List ℕ) → List (List ℕ)
on_file (not_opened message) text files = files
on_file (wrote n) text files = files ++ take n text ∷ []

abbrev pub on_stderr : FileAnswer → List (List ℕ) → List (List ℕ)
on_stderr (not_opened message) errors = errors ++ message ∷ []
on_stderr (wrote n) errors = errors

-- The log once a line has gone to the places that are switched on.
abbrev pub logged : FileAnswer → List ℕ → Bool → Bool → Bool → Logfile → Logfile
logged answer text file err cb l =
    let errors = if file then on_stderr answer l.to_stderr else l.to_stderr in
    record l {
      to_file = if file then on_file answer text l.to_file else l.to_file;
      to_stderr = if err then errors ++ text ∷ [] else errors;
      to_callback = if cb then l.to_callback ++ text ∷ [] else l.to_callback;
    }

module _ (b : ℕ) (bs datetime : List ℕ) (size : length datetime ≡ datetime_len) where
  format_string-line :
      format_string [] (some (b ∷ bs)) datetime_len 0
      ≡ done (ok (replicate datetime_len 0 ++ ((b ∷ bs) ++ 0 ∷ [])))
  unfolding format_string
  format_string-line =
      let n = length (b ∷ bs) + datetime_len + 0 in
      let again : List ℕ → Run (Result (List ℕ)) =
        λ r. overwrite n (0 ∷ []) r >>= (λ r'. done (ok r')) in
      let grows : leb 0 n ≡ true = ground arith in
      ap
        (λ (t : Bool).
          overwrite datetime_len ((b ∷ bs) ++ 0 ∷ []) (if t then resize (n + 1) [] else [])
          >>= again)
        grows
      ∙ ap (λ (m : Run (List ℕ)). m >>= again)
          (write-line (b ∷ bs) datetime datetime_len size (n + 1) refl)
      ∙ ap (λ (m : Run (List ℕ)). m >>= (λ r'. done (ok r')))
          (write-end (b ∷ bs) datetime datetime_len size)

  format_log-line :
      format_log datetime (some (b ∷ bs)) ≡ done (ok (datetime ++ ((b ∷ bs) ++ 0 ∷ [])))
  unfolding format_log
  format_log-line =
      ap
        (λ (m : Run (Result (List ℕ))). m >>= (λ r. elim r [
          | throw e ↦ done (throw e)
          | ok result ↦ overwrite 0 datetime result >>= (λ s. done (ok s))
        ]))
        format_string-line
      ∙ ap (λ (m : Run (List ℕ)). m >>= (λ s. done (ok s)))
          (write-datetime (b ∷ bs) datetime datetime_len size)

  to_logfile :
      (answer : FileAnswer) (n : ℕ) (x : List ℕ) (l : Logfile) (file : Bool)
      → (n == 0) ≡ false
      → (if file then write_logfile answer x n l else done l)
        ≡ done (logged answer (take n x) file false false l)
  unfolding write_logfile
  to_logfile answer n x l false z = refl
  to_logfile (not_opened message) n x l true z = rw z refl
  to_logfile (wrote m) n x l true z = rw z refl

  to_stderr_and_callback :
      (n : ℕ) (x : List ℕ) (l : Logfile) (err cb : Bool)
      → (n == 0) ≡ false
      → ((if err then write_stderr x n l else done l) >>= (λ l2.
          done (if cb then record l2 { to_callback = l2.to_callback ++ take n x ∷ [] } else l2)))
        ≡ done (record l {
          to_stderr = if err then l.to_stderr ++ take n x ∷ [] else l.to_stderr;
          to_callback = if cb then l.to_callback ++ take n x ∷ [] else l.to_callback;
        })
  unfolding write_stderr
  to_stderr_and_callback n x l true true z = rw z refl
  to_stderr_and_callback n x l true false z = rw z refl
  to_stderr_and_callback n x l false true z = refl
  to_stderr_and_callback n x l false false z = refl

  write_log-text :
      (answer : FileAnswer) (text : List ℕ) (n : ℕ) (x : List ℕ) (l : Logfile)
      → (n == 0) ≡ false
      → take n x ≡ text
      → write_log answer x n l
        ≡ done (logged answer text l.mode_file l.mode_stderr (l.mode_callback && l.callback) l)
  unfolding write_log
  write_log-text answer text n x l z e =
      let cb = l.mode_callback && l.callback in
      ap
        (λ (m : Run Logfile). m >>= (λ l1.
          (if l.mode_stderr then write_stderr x n l1 else done l1) >>= (λ l2.
            done (if cb then record l2 { to_callback = l2.to_callback ++ take n x ∷ [] } else l2))))
        (to_logfile answer n x l l.mode_file z)
      ∙ to_stderr_and_callback n x (logged answer (take n x) l.mode_file false false l)
          l.mode_stderr cb z
      ∙ ap (λ (y : List ℕ). done (logged answer y l.mode_file l.mode_stderr cb l)) e

  -- A line whose message is not empty goes, as the date and time followed by the message and without
  -- the final null, to each of the places that the mode names, and to no other; the callback has to be
  -- set, too. The file gets the bytes that `fwrite` takes; where it cannot be opened, it gets nothing,
  -- and the standard error stream gets the message about that first, whatever the mode says of this
  -- stream. All of this is so at every level, also where `disable_info` or `disable_debug` has been
  -- called.
  pub write_level_lem :
      (answer : FileAnswer) (l : Logfile)
      → write_level answer datetime (some (b ∷ bs)) l
        ≡ done (
            ok (
              logged answer
                (datetime ++ (b ∷ bs))
                l.mode_file
                l.mode_stderr
                (l.mode_callback && l.callback)
                l))
  unfolding write_level
  write_level_lem answer l =
      let c : List ℕ = b ∷ bs in
      let x : List ℕ = datetime ++ (c ++ 0 ∷ []) in
      let n : length x - 1 ≡ length (datetime ++ c) = omega (
        arith,
        length-append datetime (c ++ 0 ∷ []),
        length-append c (0 ∷ []),
        length-append datetime c,
      ) in
      let text : take (length x - 1) x ≡ datetime ++ c =
        ap (take (length x - 1)) (sym (append_assoc datetime c (0 ∷ [])))
        ∙ take-append (datetime ++ c) (0 ∷ []) (length x - 1) (sym n) in
      let long : (length x - 1 == 0) ≡ false = ground (arith, n, length-append datetime c) in
      ap
        (λ (m : Run (Result (List ℕ))). m >>= (λ r. elim r [
          | throw e ↦ done (throw e)
          | ok line ↦ write_log answer line (length line - 1) l >>= (λ l'. done (ok l'))
        ]))
        format_log-line
      ∙ ap (λ (m : Run Logfile). m >>= (λ l'. done (ok l')))
          (write_log-text answer (datetime ++ c) (length x - 1) x l long text)

-- A message that is empty makes every level write past the end of the line, which has no bytes for the
-- date and time then.
pub write_level-fault :
    (answer : FileAnswer) (datetime : List ℕ) (l : Logfile)
    → length datetime ≡ datetime_len
    → write_level answer datetime (some []) l ≡ fault
unfolding write_level format_log format_string
write_level-fault answer datetime l h =
    let over : leb (0 + length datetime) 0 ≡ false = ground arith in rw over refl
