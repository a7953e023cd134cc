-- ===== src/Tcp/Ostream/Answers.antt =====
-- What on_write of libkngin/detail/net/tcp/impl/posix_tcp_ostream.cpp makes of each answer of the
-- kernel.
use mathlib.Core.Path.{subst}
use libkngin.Base.{
  ℕ, ◌+◌, ◌^◌, ◌<◌, min, ◌≡◌, refl, ap, sym, ◌∙◌, inl, inr, Bool, true, false, List, [], ◌∷◌, ◌++◌,
  append_assoc, append-nil, ◌==◌, ltb, Bool-cases, arith, length, length-take, take, drop,
}
use libkngin.Base.Run.{Run, done}
use libkngin.Tcp.World.{
  World, Ostream, Errno, SendAnswer, room, fail, success, eintr, eagain, econnreset, epipe,
  end_of_file, other, wrote, update_interest, send_answer, set_error, clear_error,
}
use libkngin.Tcp.Ostream.{with_out}
use libkngin.Tcp.Ostream.Chunks.{take_all}
use libkngin.Tcp.Ostream.Append.{length-stored, stored, pending}
use libkngin.EpollEvent.{et, disable_write}
use libkngin.Tcp.Ostream.Send.{on_complete, advance, answered, refused}
use libkngin.Tcp.Ostream.Sending.{TakesWhole, IsReady, IsQuiet, Passed, advance_lem, stays_lem}

module _ (buffer_size : ℕ) (handler : ℕ → Errno → World → World) (positive : 0 < buffer_size)
    (bounded : buffer_size < 2 ^ 64) (quiet : IsQuiet handler) where
  -- A pass that stops or sends ends as `Passed` says.
  abbrev Passes : World → Run (Bool × World) → Type 0
  Passes w r =
      (again : Bool) × (w' : World) × (r ≡ done (again, w')) × Passed buffer_size w again w'

  -- The chunk went through.
  through_lem :
      (w w' : World)
      → IsReady buffer_size w.out
      → w.out.next_buffer ≡ true
      → w'.out ≡ record (w.out) { complete = false }
      → w'.wire ≡ w.wire ++ take (min w.out.windex buffer_size) (stored w.out)
      → TakesWhole buffer_size w'.sends
      → length w'.sends < length w.sends
      → let valid = min w.out.windex buffer_size in
        Passes w (answered buffer_size handler valid valid success w')
  unfolding answered on_complete clear_error stored pending
  through_lem w w' r x e f t less =
      let valid = min w.out.windex buffer_size in
      let some_bytes = r.waits x in
      let at_start = r.at_start in
      let o : Ostream = record (w.out) { complete = false } in
      let ready : IsReady buffer_size o = record {
        sound = record { sized = r.sound.sized; roomy = r.sound.roomy; ordered = r.sound.ordered };
        at_start = r.at_start;
        small = r.small;
        calm = r.calm;
        waits = r.waits;
        settled = λ h. x;
      } in
      let (split, ready') =
        advance_lem buffer_size handler positive bounded quiet o valid ready refl (omega arith)
          refl in
      let non_zero : (valid == 0) ≡ false = ground arith in
      let no_more : ltb valid valid ≡ false = ground arith in
      let within : ltb buffer_size (w'.out.rindex + valid) ≡ false = rw e (ground arith) in
      let w2 : World =
        on_complete handler valid success
          (with_out (clear_error w') (advance buffer_size valid w'.out)) in
      let q =
        quiet valid success (record (with_out (clear_error w') (advance buffer_size valid w'.out)) {
          log = w'.log ++ wrote valid success ∷ [];
        }) in
      let out : w2.out ≡ advance buffer_size valid o = q.0 ∙ ap (advance buffer_size valid) e in
      (
        true,
        w2,
        rw (non_zero, no_more, within) refl,
        record {
          ready = rw out ready';
          conserved =
              ap (λ a. w2.wire ++ drop a.rindex (stored a)) out
              ∙ ap (λ j. w2.wire ++ drop j (stored (advance buffer_size valid o))) ready'.at_start
              ∙ ap (λ l. l ++ stored (advance buffer_size valid o)) (q.1 ∙ f)
              ∙ append_assoc w.wire (take valid (stored o)) (stored (advance buffer_size valid o))
              ∙ ap (λ l. w.wire ++ l) (sym split)
              ∙ ap (λ j. w.wire ++ drop j (stored o)) (sym at_start);
          whole = rw (q.2) t;
          progress = λ a. rw (q.2) less;
        },
      )

  refused_lem :
      (w w' : World)
      → IsReady buffer_size w.out
      → w.out.next_buffer ≡ true
      → w'.out ≡ record (w.out) { complete = false }
      → w'.wire ≡ w.wire
      → TakesWhole buffer_size w'.sends
      → Passed buffer_size w false (refused w')
  unfolding refused
  refused_lem w w' r x e f t = elim (Bool-cases (et w'.ev)) [
    | inl h ↦ rw h (
        stays_lem buffer_size handler positive bounded quiet true false w
          (with_out w' (record (w'.out) { complete = true })) r x (rw e refl) f t
          (λ a. absurd (cc)))
    | inr h ↦ rw h (
        stays_lem buffer_size handler positive bounded quiet false false w
          (update_interest (disable_write w'.ev) w') r x e f t (λ a. absurd (cc)))
  ]

  lost_lem :
      (ec : Errno) (w w' : World)
      → IsReady buffer_size w.out
      → w.out.next_buffer ≡ true
      → w'.out ≡ record (w.out) { complete = false }
      → w'.wire ≡ w.wire
      → TakesWhole buffer_size w'.sends
      → Passed buffer_size w false (on_complete handler 0 ec (set_error ec w'))
  unfolding on_complete set_error
  lost_lem ec w w' r x e f t =
      let q = quiet 0 ec (record (set_error ec w') { log = w'.log ++ wrote 0 ec ∷ [] }) in
      stays_lem buffer_size handler positive bounded quiet false false w
        (on_complete handler 0 ec (set_error ec w')) r x (q.0 ∙ e) (q.1 ∙ f) (rw (q.2) t)
        (λ a. absurd (cc))

  fail_lem :
      (ec : Errno) (w start : World)
      → IsReady buffer_size w.out
      → w.out.next_buffer ≡ true
      → start.out ≡ record (w.out) { complete = false }
      → start.wire ≡ w.wire
      → TakesWhole buffer_size start.sends
      → length start.sends < length w.sends
      → Passes w (answered buffer_size handler (min w.out.windex buffer_size) 0 ec start)
  unfolding answered clear_error
  fail_lem success w start r x e f t less = (
    true,
    clear_error start,
    refl,
    stays_lem buffer_size handler positive bounded quiet false true w (clear_error start) r x e f t
        (λ a. less),
  )
  fail_lem eintr w start r x e f t less = (
    true,
    start,
    refl,
    stays_lem buffer_size handler positive bounded quiet false true w start r x e f t (λ a. less),
  )
  fail_lem eagain w start r x e f t less =
      (false, refused start, refl, refused_lem w start r x e f t)
  fail_lem econnreset w start r x e f t less =
      (false, _, refl, lost_lem econnreset w start r x e f t)
  fail_lem epipe w start r x e f t less = (false, _, refl, lost_lem epipe w start r x e f t)
  fail_lem end_of_file w start r x e f t less =
      (false, _, refl, lost_lem end_of_file w start r x e f t)
  fail_lem (other n) w start r x e f t less = (false, _, refl, lost_lem (other n) w start r x e f t)

  room_lem :
      (w : World) (k : ℕ) (rest : List SendAnswer)
      → IsReady buffer_size w.out
      → w.out.next_buffer ≡ true
      → w.sends ≡ room k ∷ rest
      → TakesWhole buffer_size (room k ∷ rest)
      → let valid = min w.out.windex buffer_size in
        let bs = take valid (stored w.out) in
        let o : Ostream = record (w.out) { complete = false } in
        Passes w (
          answered buffer_size handler valid
            (min k (length bs))
            success
            (record (with_out w o) { sends = rest; wire = w.wire ++ take k bs }))
  unfolding answered clear_error
  room_lem w k rest r x e (inl zero_room, t) =
      let valid = min w.out.windex buffer_size in
      let bs = take valid (stored w.out) in
      let start : World = record (with_out w (record (w.out) { complete = false })) {
        sends = rest;
        wire = w.wire ++ take k bs;
      } in
      let count = ap length e in
      let none_sent : min k (length bs) ≡ 0 = omega arith in
      let same_wire : w.wire ++ take k bs ≡ w.wire =
        ap (λ j. w.wire ++ take j bs) zero_room ∙ append-nil w.wire in
      subst (λ n. Passes w (answered buffer_size handler valid n success start)) (sym none_sent)
        (fail_lem success w start r x refl same_wire t (omega arith))
  room_lem w k rest r x e (inr large, t) =
      let valid = min w.out.windex buffer_size in
      let bs = take valid (stored w.out) in
      let start : World = record (with_out w (record (w.out) { complete = false })) {
        sends = rest;
        wire = w.wire ++ take k bs;
      } in
      let count = ap length e in
      let size : length bs ≡ valid =
        omega (arith, length-take valid (stored w.out), length-stored buffer_size w.out r.sound) in
      let all_sent : min k (length bs) ≡ valid = omega arith in
      let same_wire : w.wire ++ take k bs ≡ w.wire ++ bs =
        ap (λ l. w.wire ++ l) (take_all k bs (omega arith)) in
      subst (λ n. Passes w (answered buffer_size handler valid n success start)) (sym all_sent)
        (through_lem w start r x refl same_wire t (omega arith))

  pub answer_lem :
      (w : World) (ss : List SendAnswer)
      → IsReady buffer_size w.out
      → w.out.next_buffer ≡ true
      → w.sends ≡ ss
      → TakesWhole buffer_size ss
      → let valid = min w.out.windex buffer_size in
        let start = with_out w (record (w.out) { complete = false }) in
        let r = send_answer ss (take valid (stored w.out)) start in
        Passes w (answered buffer_size handler valid r.0 r.1 r.2)
  unfolding send_answer answered
  answer_lem w [] r x e t =
      let start : World = with_out w (record (w.out) { complete = false }) in
      (
        false,
        refused start,
        refl,
        refused_lem w start r x refl refl (subst (TakesWhole buffer_size) (sym e) tt),
      )
  answer_lem w (room k ∷ rest) r x e t = room_lem w k rest r x e t
  answer_lem w (fail ec ∷ rest) r x e t =
      let start : World = record (with_out w (record (w.out) { complete = false })) {
        sends = rest;
      } in
      let count = ap length e in fail_lem ec w start r x refl refl t (omega arith)
