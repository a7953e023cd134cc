-- ===== src/Tcp/Ostream/Urgent.antt =====
-- Urgent bytes, and sends that the kernel takes in part: on_write and write_oob of
-- libkngin/detail/net/tcp/impl/posix_tcp_ostream.cpp.

use libkngin.Base.{
  ℕ, zero, suc, ◌<◌, min, ◌≡◌, ◌^◌, refl, ap, sym, ◌∙◌, Bool, true, false, ◌||◌, List, [], ◌∷◌,
  ◌++◌, append_assoc, append-nil, arith, ltb, ◌==◌, if◌then◌else◌, length, length-take, take, drop,
  replicate,
}
use libkngin.Base.Run.{Run, done, out_of_fuel}
use libkngin.Tcp.World.{
  World, Flags, Errno, SendAnswer, room, success, send_answer, send_oob, clear_error,
}
use libkngin.Tcp.Ostream.{with_out}
use libkngin.Tcp.Ostream.Chunks.{take-take}
use libkngin.Tcp.Ostream.Append.{stored, pending, length-stored}
use libkngin.Tcp.Ostream.Send.{answered, send_chunk, write_oob, pass, on_write}
use libkngin.Tcp.Ostream.Sending.{IsReady, IsQuiet, send_chunk_eq}

-- The session is neither shut down nor closed nor closing.
abbrev pub is_open : Flags → Bool
is_open f = if f.shutdown || f.closed || f.closing then false else true

-- A session with the urgent bytes `bs` and a socket that takes nothing.
abbrev pub full : World → List ℕ → World
full w bs = record w { out = record (w.out) { oobq = bs }; sends = [] }

-- A session with the urgent bytes `bs` and a socket that gives the answers `ss`.
abbrev pub urgent : World → List ℕ → List SendAnswer → World
urgent w bs ss = record w { out = record (w.out) { oobq = bs }; sends = ss }

module _ (buffer_size : ℕ) (handler : ℕ → Errno → World → World) where
  refused_oob :
      (fuel : ℕ) (w : World) (b : ℕ) (rest : List ℕ)
      → write_oob handler (suc fuel) true (full w (b ∷ rest))
        ≡ done (full (with_out w (record (w.out) { complete = true })) (b ∷ rest))
  unfolding write_oob send_oob
  refused_oob fuel w b rest = refl

  -- While the socket refuses an urgent byte of an open session, the loop of `on_write` does not
  -- end.
  pub on_write-out_of_fuel :
      (fuel : ℕ) (w : World) (b : ℕ) (rest : List ℕ)
      → is_open w.flags ≡ true
      → on_write buffer_size handler fuel (full w (b ∷ rest)) ≡ out_of_fuel
  unfolding on_write pass write_oob
  on_write-out_of_fuel zero w b rest o = refl
  on_write-out_of_fuel (suc zero) w b rest o =
      let shut : (w.flags.shutdown || w.flags.closed || w.flags.closing) ≡ false = ground arith in
      rw shut refl
  on_write-out_of_fuel (suc (suc fuel)) w b rest o =
      let shut : (w.flags.shutdown || w.flags.closed || w.flags.closing) ≡ false = ground arith in
      let w' = with_out w (record (w.out) { complete = true }) in
      let again = on_write-out_of_fuel (suc fuel) w' b rest o in rw shut again

  -- What `write_oob` leaves when the socket has taken `bs`.
  Sends : World → List ℕ → List SendAnswer → Run World → Type 0
  Sends w bs ss run =
      (w' : World) × (run ≡ done w')
      × (w'.oob_wire ≡ w.oob_wire ++ bs)
      × (w'.out ≡ record (w.out) { oobq = [] })
      × (w'.sends ≡ ss)
      × (w'.wire ≡ w.wire)

  -- The loop from its second round on, when `d` has been sent.
  write_oob_loop :
      (fuel : ℕ) (w : World) (d : ℕ) (bs : List ℕ) (ss : List SendAnswer)
      → length bs < fuel
      → Sends w bs ss
          (write_oob handler fuel false (urgent w (d ∷ bs) (replicate (length bs) (room 1) ++ ss)))
  unfolding write_oob send_oob clear_error Sends
  write_oob_loop zero w d bs ss h = absurd (omega arith)
  write_oob_loop (suc fuel) w d [] ss h = (_, refl, sym (append-nil w.oob_wire), refl, refl, refl)
  write_oob_loop (suc fuel) w d (b ∷ bs) ss h =
      let sent : World = clear_error (record w { oob_wire = w.oob_wire ++ b ∷ [] }) in
      let (w', e, wire, out, sends, rest) = write_oob_loop fuel sent b bs ss (omega arith) in
      (w', e, wire ∙ append_assoc w.oob_wire (b ∷ []) bs, out, sends, rest)

  -- With fuel for one round more than there are urgent bytes, and a socket that takes each of
  -- them, `write_oob` sends the urgent bytes in order, empties their queue and leaves all else of
  -- the stream and the ordinary bytes alone.
  pub write_oob_lem :
      (fuel : ℕ) (w : World) (bs : List ℕ) (ss : List SendAnswer)
      → length bs < fuel
      → (w' : World) × (write_oob handler fuel true
            (urgent w bs (replicate (length bs) (room 1) ++ ss))
          ≡ done w')
        × (w'.oob_wire ≡ w.oob_wire ++ bs)
        × (w'.out ≡ record (w.out) { oobq = [] })
        × (w'.sends ≡ ss)
        × (w'.wire ≡ w.wire)
  unfolding write_oob send_oob clear_error Sends
  write_oob_lem zero w bs ss h = absurd (omega arith)
  write_oob_lem (suc fuel) w [] ss h = (_, refl, sym (append-nil w.oob_wire), refl, refl, refl)
  write_oob_lem (suc fuel) w (b ∷ bs) ss h =
      let sent : World = clear_error (record w { oob_wire = w.oob_wire ++ b ∷ [] }) in
      let (w', e, wire, out, sends, rest) = write_oob_loop fuel sent b bs ss (omega arith) in
      (w', e, wire ∙ append_assoc w.oob_wire (b ∷ []) bs, out, sends, rest)

  -- On a stream between two sends with data to send and a handler that leaves the stream alone, a
  -- send that the socket takes in part, `k` bytes of what it is offered, leaves the waiting bytes
  -- as they were and goes on: the bytes that the socket has taken are followed by the same bytes
  -- again.
  pub send_chunk-part :
      (w : World) (k : ℕ) (rest : List SendAnswer)
      → 0 < buffer_size
      → buffer_size < 2 ^ 64
      → IsQuiet handler
      → IsReady buffer_size w.out
      → w.out.next_buffer ≡ true
      → w.sends ≡ room k ∷ rest
      → 0 < k
      → k < min w.out.windex buffer_size
      → (w' : World) × (send_chunk buffer_size handler w ≡ done (true, w'))
        × (w'.wire ++ pending w'.out ≡ w.wire ++ (take k (pending w.out) ++ pending w.out))
        × (pending w'.out ≡ pending w.out)
        × (w'.sends ≡ rest)
  unfolding answered send_answer clear_error pending stored
  send_chunk-part w k rest p b q r x e some_sent part =
      let valid = min w.out.windex buffer_size in
      let bs = take valid (stored w.out) in
      let start : World = with_out w (record (w.out) { complete = false }) in
      let sent : World = record start { sends = rest; wire = w.wire ++ take k bs } in
      let size : length bs ≡ valid =
        omega (arith, length-take valid (stored w.out), length-stored buffer_size w.out r.sound) in
      let taken : min k (length bs) ≡ k = omega arith in
      let chosen =
        ap
          (λ ss.
            answered buffer_size handler valid (send_answer ss bs start).0
              (send_answer ss bs start).1 (send_answer ss bs start).2)
          e in
      let some_size : (k == 0) ≡ false = ground arith in
      let no_more : ltb valid k ≡ false = ground arith in
      let less : ltb k valid ≡ true = ground arith in
      let kept : answered buffer_size handler valid k success sent ≡ done (true, clear_error sent) =
        rw (some_size, no_more, less) refl in
      let at_start = r.at_start in
      (
        clear_error sent,
        send_chunk_eq buffer_size handler p b q w r x
            ∙ chosen
            ∙ ap (λ n. answered buffer_size handler valid n success sent) taken
            ∙ kept,
        append_assoc w.wire (take k bs) (pending w.out)
            ∙ ap (λ l. w.wire ++ (l ++ pending w.out))
                (take-take k valid (stored w.out) (omega arith)
                  ∙ ap (λ j. take k (drop j (stored w.out))) (sym at_start)),
        refl,
        refl,
      )
