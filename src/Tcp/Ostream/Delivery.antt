-- ===== src/Tcp/Ostream/Delivery.antt =====
-- What on_write of libkngin/detail/net/tcp/impl/posix_tcp_ostream.cpp does to the bytes that wait.
use libkngin.Base.{
  ℕ, zero, suc, ◌^◌, ◌<◌, ◌≡◌, refl, ap, ◌∙◌, inl, inr, Bool, true, false, ◌&&◌, ◌||◌, not, List,
  [], ◌∷◌, ◌++◌, if◌then◌else◌, Bool-cases, arith, length,
}
use libkngin.Base.Run.{Run, done, ◌>>=◌}
use libkngin.Tcp.World.{World, Errno}
use libkngin.Tcp.Ostream.Append.{pending}
use libkngin.EpollEvent.{et, watches_out}
use libkngin.Tcp.Ostream.Send.{idle, send_chunk, write_oob, pass, on_write}
use libkngin.Tcp.Ostream.Sending.{TakesWhole, IsReady, IsQuiet, Passed, send_chunk_eq}
use libkngin.Tcp.Ostream.Answers.{answer_lem}

module _ (buffer_size : ℕ) (handler : ℕ → Errno → World → World) (positive : 0 < buffer_size)
    (bounded : buffer_size < 2 ^ 64) (quiet : IsQuiet handler) where
  -- A pass that stops or sends ends as `Passed` says.
  abbrev Passes : World → Run (Bool × World) → Type 0
  Passes w r =
      (again : Bool) × (w' : World) × (r ≡ done (again, w')) × Passed buffer_size w again w'

  idle_lem :
      (w : World)
      → IsReady buffer_size w.out
      → TakesWhole buffer_size w.sends
      → Passed buffer_size w false (idle w)
  unfolding idle
  idle_lem w r t = elim (Bool-cases (not (et w.ev) && watches_out w.ev)) [
    | inl h ↦ rw h (record { ready = r; conserved = refl; whole = t; progress = λ a. absurd (cc) })
    | inr h ↦ rw h (record { ready = r; conserved = refl; whole = t; progress = λ a. absurd (cc) })
  ]

  -- A pass of an open session without urgent data.
  pass_eq :
      (fuel : ℕ) (w : World)
      → (w.flags.shutdown || w.flags.closed || w.flags.closing) ≡ false
      → w.out.oobq ≡ []
      → pass buffer_size handler fuel w ≡ (
          if not w.out.next_buffer && not w.out.complete
          then done (false, idle w)
          else send_chunk buffer_size handler w)
  unfolding pass
  pass_eq fuel w h calm =
      let normal =
        if not w.out.next_buffer && not w.out.complete
        then done (false, idle w)
        else send_chunk buffer_size handler w in
      let by_queue : List ℕ → Run (Bool × World) = λ queue. elim queue [
        | [] ↦ normal
        | b ∷ rest ↦ write_oob handler fuel true w >>= (λ w'. done (true, w'))
      ] in
      ap (λ c. if c then done (false, w) else by_queue w.out.oobq) h ∙ ap by_queue calm

  pass_lem :
      (fuel : ℕ) (w : World)
      → IsReady buffer_size w.out
      → TakesWhole buffer_size w.sends
      → Passes w (pass buffer_size handler fuel w)
  unfolding pass
  pass_lem fuel w r t = elim (Bool-cases (w.flags.shutdown || w.flags.closed || w.flags.closing)) [
    | inl h ↦ (
      false,
      w,
      rw h refl,
      record { ready = r; conserved = refl; whole = t; progress = λ a. absurd (cc) },
    )
    | inr h ↦
        let calm = r.calm in
        let settled = r.settled in
        let open_pass = pass_eq fuel w h calm in
        elim (Bool-cases (w.out.next_buffer)) [
          | inl x ↦
              let busy : (not w.out.next_buffer && not w.out.complete) ≡ false = ground arith in
              let same =
                open_pass
                ∙ ap (λ c. if c then done (false, idle w) else send_chunk buffer_size handler w)
                    busy in
              let (again, w', e, p) =
                answer_lem buffer_size handler positive bounded quiet w w.sends r x refl t in
              (
                again,
                w',
                same ∙ send_chunk_eq buffer_size handler positive bounded quiet w r x ∙ e,
                p,
              )
          | inr x ↦
              let quiet_now : (not w.out.next_buffer && not w.out.complete) ≡ true = ground arith in
              let same =
                open_pass
                ∙ ap (λ c. if c then done (false, idle w) else send_chunk buffer_size handler w)
                    quiet_now in
              (false, idle w, same, idle_lem w r t)
        ]
  ]

  -- From a stream between two sends without urgent data, with a handler that leaves the stream and
  -- the kernel alone and a kernel that takes all of what it is offered or nothing, `on_write`
  -- returns within one pass more than the kernel has answers, leaves the stream in such a state,
  -- and what it has sent followed by what still waits is what was sent and waited before.
  pub on_write_lem :
      (fuel : ℕ) (w : World)
      → IsReady buffer_size w.out
      → TakesWhole buffer_size w.sends
      → length w.sends < fuel
      → (w' : World) × (on_write buffer_size handler fuel w ≡ done w')
        × (w'.wire ++ pending w'.out ≡ w.wire ++ pending w.out)
        × IsReady buffer_size w'.out
  unfolding on_write
  on_write_lem zero w r t f = absurd (omega arith)
  on_write_lem (suc fuel) w r t f =
      let (again, w', e, p) = pass_lem fuel w r t in
      elim (Bool-cases again) [
        | inl a ↦
            let fewer = p.progress a in
            let (w2, e2, c, r2) = on_write_lem fuel w' p.ready p.whole (omega arith) in
            (w2, rw (e, a) e2, c ∙ p.conserved, r2)
        | inr a ↦ (w', rw (e, a) refl, p.conserved, p.ready)
      ]
