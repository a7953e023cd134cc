-- ===== src/Tcp/Istream/Reading.antt =====
-- The loop of `on_read` of libkngin/detail/net/tcp/impl/posix_tcp_istream.cpp ends, and keeps the stream
-- ready for the next event.
use mathlib.Core.Path.{subst}
use libkngin.Base.{
  ℕ, zero, suc, ◌<◌, ◌≡◌, refl, ap, ◌∙◌, sym, inl, inr, Bool, true, false, not, ◌&&◌, ◌||◌, List,
  [], ◌∷◌, ◌++◌, arith, ◌==◌, if◌then◌else◌, Bool-cases,
}
use libkngin.Base.Run.{Run, done, fault, ◌>>=◌}
use libkngin.Buffer.In.{InBuffer, IsValid, writeable}
use libkngin.EpollEvent.{et}
use libkngin.Tcp.World.{
  World, Istream, InContext, Errno, success, eintr, eagain, econnreset, epipe, end_of_file, other,
  received, set_error, failed, clear_error,
}
use libkngin.Tcp.Istream.{
  with_in, recv, message_callback, on_completion, answered, read_pass, read_loop, on_read,
}
use libkngin.Tcp.Istream.Laws.{writeable_lem}
use libkngin.Tcp.Istream.Ready.{Waits, AllWait, any, IsReady, weight, goes_on, recv-step}

-- A handler that keeps a ready stream ready and leaves the kernel alone. It may post further buffers.
module _ (on_message : InBuffer → Errno → World → World) (on_urgent : ℕ → World → World)
    (keeps : (buf : InBuffer) (ec : Errno) (w : World)
      → IsReady w.inp
      → IsReady (on_message buf ec w).inp × ((on_message buf ec w).recvs ≡ w.recvs)) where
  -- What a step leaves: a ready stream, and the answers of the kernel.
  abbrev Kept : World → World → Type 0
  Kept w w' = IsReady w'.inp × (w'.recvs ≡ w.recvs)

  callback-Kept :
      (buf : InBuffer) (ec : Errno) (w : World)
      → IsReady w.inp
      → Kept w (message_callback on_message on_urgent buf ec w)
  unfolding message_callback
  callback-Kept buf ec w r = keeps buf ec (record w { log = w.log ++ received buf ec ∷ [] }) r

  -- The stream after a receive, with the context `ctx` in front.
  abbrev reading : Bool → InContext → List InContext → Istream
  reading next ctx rest = record { ctxq = ctx ∷ rest; next_ctx = next; complete = false }

  front-IsReady :
      (next : Bool) (ctx : InContext) (rest : List InContext) (c : Bool)
      → next ≡ true
      → Waits ctx
      → AllWait rest
      → IsReady (record { ctxq = ctx ∷ rest; next_ctx = next; complete = c })
  front-IsReady next ctx rest c n v vs = record { waiting = (v, vs); next = n; quiet = λ h. cc }

  module _ (next : Bool) (some_next : next ≡ true) (ctx : InContext) (rest : List InContext)
      (vs : AllWait rest) (v : IsValid ctx.buffer) (w : World) where
    -- A context that is full is taken out; one that is not stays.
    completed-Kept : Kept w (
        on_completion on_message on_urgent true ctx rest
          (clear_error (with_in w (reading next ctx rest))))
    unfolding on_completion clear_error
    completed-Kept =
        let i : Istream = record { ctxq = rest; next_ctx = any rest; complete = false } in
        callback-Kept ctx.buffer success (clear_error (with_in w i))
          (record { waiting = vs; next = refl; quiet = λ h. refl })

    told-Kept :
        ctx.buffer.valid < ctx.buffer.size
        → Kept w (
            on_completion on_message on_urgent false ctx rest
              (clear_error (with_in w (reading next ctx rest))))
    unfolding on_completion clear_error
    told-Kept room =
        callback-Kept ctx.buffer success (clear_error (with_in w (reading next ctx rest)))
          (front-IsReady next ctx rest false some_next (v, room) vs)

    abbrev got : World
    got = with_in w (reading next ctx rest)

    abbrev Answered : ℕ → Errno → Type 0
    Answered size ec =
        ((answered on_message on_urgent size ec ctx rest got).0 ≡ goes_on size ec)
        × Kept w (answered on_message on_urgent size ec ctx rest got).1

    failed-Kept :
        (ec : Errno)
        → ctx.buffer.valid < ctx.buffer.size
        → Kept w (message_callback on_message on_urgent ctx.buffer ec (set_error ec got))
    unfolding set_error
    failed-Kept ec room =
        callback-Kept ctx.buffer ec (set_error ec got)
          (front-IsReady next ctx rest false some_next (v, room) vs)

    ended :
        (size : ℕ) → (size == 0) ≡ true → ctx.buffer.valid < ctx.buffer.size → Answered size success
    unfolding answered clear_error
    ended size z room = rw z (
      refl,
      callback-Kept ctx.buffer end_of_file _
          (front-IsReady next ctx rest (et w.ev || false) some_next (v, room) vs),
    )

    stayed :
        ctx.buffer.valid < ctx.buffer.size
        → (need_complete : Bool)
        → Kept w (
            if not need_complete
            then on_completion on_message on_urgent false ctx rest (clear_error got)
            else clear_error got)
    unfolding clear_error
    stayed room true = (front-IsReady next ctx rest false some_next (v, room) vs, refl)
    stayed room false = told-Kept room

    went_on : (size : ℕ) → (size == 0) ≡ false → Answered size success
    unfolding answered clear_error
    went_on size z = elim (Bool-cases (writeable ctx.buffer == 0)) [
      | inl full ↦ rw (z, full) (refl, completed-Kept)
      | inr some_room ↦
          let room : ctx.buffer.valid < ctx.buffer.size =
            ground (arith, writeable_lem ctx.buffer v, v.within) in
          rw (z, some_room) (refl, stayed room ctx.need_complete)
    ]

    answered-Kept :
        (size : ℕ) (ec : Errno)
        → (size ≡ 0 → ctx.buffer.valid < ctx.buffer.size)
        → (failed ec ≡ true → size ≡ 0)
        → Answered size ec
    unfolding answered
    answered-Kept size eintr room z =
        (refl, (front-IsReady next ctx rest false some_next (v, room (z refl)) vs, refl))
    answered-Kept size eagain room z = (
      refl,
      elim (Bool-cases (et w.ev)) [
        | inl e ↦ rw e (front-IsReady next ctx rest true some_next (v, room (z refl)) vs, refl)
        | inr e ↦ rw e (front-IsReady next ctx rest false some_next (v, room (z refl)) vs, refl)
      ],
    )
    answered-Kept size econnreset room z = (refl, failed-Kept econnreset (room (z refl)))
    answered-Kept size epipe room z = (refl, failed-Kept epipe (room (z refl)))
    answered-Kept size end_of_file room z = (refl, failed-Kept end_of_file (room (z refl)))
    answered-Kept size (other n) room z = (refl, failed-Kept (other n) (room (z refl)))
    answered-Kept size success room z = elim (Bool-cases (size == 0)) [
      | inl e ↦ ended size e (room (ground arith))
      | inr e ↦ went_on size e
    ]

  -- `read_pass`, by what it looks at.
  abbrev pass_by : World → Bool → Bool → List InContext → Run (Bool × World)
  pass_by w closed next cs =
      let i : Istream = w.inp in
      if closed
      then done (false, w)
      else (if not next && not i.complete
          then done (false, w)
          else (if not next then fault else elim cs [
            | [] ↦ fault
            | ctx ∷ rest ↦ (do
              (size, ec, buf, w') ← recv ctx.buffer (with_in w (record i { complete = false }))
              let ctx' : InContext = record ctx { buffer = buf }
              done (
                  answered on_message on_urgent size ec ctx' rest
                    (with_in w' (record i { ctxq = ctx' ∷ rest; complete = false }))))
          ]))

  pass_by_lem :
      (w : World)
      → read_pass on_message on_urgent w
        ≡ pass_by w (w.flags.closed || w.flags.closing) w.inp.next_ctx w.inp.ctxq
  unfolding read_pass
  pass_by_lem w = refl

  -- What a pass comes to.
  abbrev Passed : World → Run (Bool × World) → Type 0
  Passed w m =
      (again : Bool) × (w' : World) × (m ≡ done (again, w'))
      × IsReady w'.inp
      × (again ≡ true → weight w'.recvs < weight w.recvs)

  front-Passed :
      (w : World) (cs : List InContext)
      → w.inp.next_ctx ≡ true
      → any cs ≡ true
      → AllWait cs
      → Passed w (pass_by w false true cs)
  front-Passed w [] some_next some_ctx vs = cc
  front-Passed w (ctx ∷ rest) some_next some_ctx vs =
      let i : Istream = w.inp in
      let w0 = with_in w (record i { complete = false }) in
      let got = recv-step ctx.buffer w0 w.recvs vs.0.0 vs.0.1 refl in
      let ctx' : InContext = record ctx { buffer = got.buf' } in
      let (on, kept) =
        answered-Kept i.next_ctx some_next ctx' rest vs.1 got.valid got.w' got.size got.ec got.room
          got.empty in
      let after : ℕ × Errno × InBuffer × World → Run (Bool × World) = λ r.
        let c : InContext = record ctx { buffer = r.2 } in
        done (
          answered on_message on_urgent r.0 r.1 c rest
            (with_in r.3 (record i { ctxq = c ∷ rest; complete = false }))) in
      (
        (answered on_message on_urgent got.size got.ec ctx' rest
            (with_in got.w' (reading i.next_ctx ctx' rest))).0,
        (answered on_message on_urgent got.size got.ec ctx' rest
            (with_in got.w' (reading i.next_ctx ctx' rest))).1,
        ap (λ (m : Run (ℕ × Errno × InBuffer × World)). m >>= after) got.run,
        kept.0,
        λ h. ground (arith, got.falls (sym on ∙ h), ap weight kept.1),
      )

  pass-Kept : (w : World) → IsReady w.inp → Passed w (read_pass on_message on_urgent w)
  pass-Kept w r = elim (Bool-cases (w.flags.closed || w.flags.closing)) [
    | inl out ↦ (
      false,
      w,
      pass_by_lem w ∙ ap (λ (b : Bool). pass_by w b w.inp.next_ctx w.inp.ctxq) out,
      r,
      λ h. cc,
    )
    | inr still ↦
        let open_pass =
          pass_by_lem w ∙ ap (λ (b : Bool). pass_by w b w.inp.next_ctx w.inp.ctxq) still in
        elim (Bool-cases w.inp.next_ctx) [
          | inr none ↦ (
            false,
            w,
            open_pass
                ∙ ap (λ (n : Bool). pass_by w false n w.inp.ctxq) none
                ∙ ap (λ (c : Bool). if not c then done (false, w) else fault) (r.quiet none),
            r,
            λ h. cc,
          )
          | inl some_next ↦
              subst (Passed w)
                (sym (open_pass ∙ ap (λ (n : Bool). pass_by w false n w.inp.ctxq) some_next))
                (front-Passed w w.inp.ctxq some_next (sym r.next ∙ some_next) r.waiting)
        ]
  ]

  loop-Kept :
      (fuel : ℕ) (w : World)
      → IsReady w.inp
      → weight w.recvs < fuel
      → (w' : World) × (read_loop on_message on_urgent fuel w ≡ done w') × IsReady w'.inp
  unfolding read_loop
  loop-Kept zero w r h = absurd (omega arith)
  loop-Kept (suc fuel) w r h =
      let (again, w1, e, r1, less) = pass-Kept w r in
      elim (Bool-cases again) [
        | inr stop ↦ (w1, rw (e, stop) refl, r1)
        | inl more ↦
            let (w2, e2, r2) = loop-Kept fuel w1 r1 (omega (arith, less more)) in
            (w2, rw (e, more) e2, r2)
      ]

  -- With fuel for one pass more than the kernel has answers and bytes, and handlers that leave the
  -- kernel alone and keep the stream ready, also by posting buffers, `on_read` on a ready stream that
  -- has not ended returns, and leaves the stream ready.
  pub on_read_lem :
      (fuel : ℕ) (w : World)
      → IsReady w.inp
      → w.flags.eof ≡ false
      → weight w.recvs < fuel
      → (w' : World) × (on_read on_message on_urgent fuel w ≡ done w') × IsReady w'.inp
  unfolding on_read
  on_read_lem fuel w r open_end h =
      let (w', e, r') = loop-Kept fuel w r h in
      (
        w',
        ap (λ (b : Bool). if b then fault else read_loop on_message on_urgent fuel w) open_end ∙ e,
        r',
      )
