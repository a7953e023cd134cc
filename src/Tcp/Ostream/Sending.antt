-- ===== src/Tcp/Ostream/Sending.antt =====
-- One send of on_write of libkngin/detail/net/tcp/impl/posix_tcp_ostream.cpp, and the chunks behind it.
use mathlib.Core.Path.{subst}
use libkngin.Base.{
  ℕ, suc, ◌+◌, ◌-◌, ◌*◌, ◌%◌, ◌^◌, ◌≤◌, ◌<◌, min, ◌≡◌, refl, ap, sym, ◌∙◌, ◌⊎◌, inl, inr, Bool,
  true, false, ◌||◌, not, List, [], ◌∷◌, ◌++◌, append-nil, ◌==◌, ltb, if◌then◌else◌, Bool-cases,
  arith, length, length-take, take, drop, take-append-drop,
}
use libkngin.Base.Run.{Run, fault}
use libkngin.Tcp.World.{World, Ostream, Errno, SendAnswer, room, fail, send_data}
use libkngin.Tcp.Ostream.{remaining, with_out}
use libkngin.Tcp.Ostream.Chunks.{
  joined, Sized, take-append_le, take-append_add, drop-append_le, take_all, drop_all, take-take,
  List-cases,
}
use libkngin.Tcp.Ostream.Append.{stored, pending, IsSound}
use libkngin.Tcp.Ostream.Send.{advance, answered, send_chunk}

-- The kernel takes all of a chunk or nothing of it.
abbrev pub TakesWhole : ℕ → List SendAnswer → Type 0
TakesWhole n [] = Unit {0}
TakesWhole n (room k ∷ rest) = ((k ≡ 0) ⊎ (n ≤ k)) × TakesWhole n rest
TakesWhole n (fail ec ∷ rest) = TakesWhole n rest

-- A stream between two passes of the loop, with no urgent data.
pub record IsReady (n : ℕ) (o : Ostream) : Type 0 where
  pub sound : IsSound n o
  pub at_start : o.rindex ≡ 0
  pub small : o.windex < 2 ^ 64
  pub calm : o.oobq ≡ []
  pub waits : (o.next_buffer ≡ true) → 0 < o.windex
  pub settled : o.complete ≡ true → o.next_buffer ≡ true

-- The handler leaves the stream, the flags and the kernel alone.
abbrev pub IsQuiet : (ℕ → Errno → World → World) → Type 0
IsQuiet handler =
    (size : ℕ) (ec : Errno) (w : World)
    → ((handler size ec w).out ≡ w.out)
      × ((handler size ec w).wire ≡ w.wire)
      × ((handler size ec w).sends ≡ w.sends)

-- One pass: nothing is lost or doubled, and another pass follows only an answer of the kernel.
pub record Passed (n : ℕ) (w : World) (again : Bool) (w' : World) : Type 0 where
  pub ready : IsReady n w'.out
  pub conserved : w'.wire ++ pending w'.out ≡ w.wire ++ pending w.out
  pub whole : TakesWhole n w'.sends
  pub progress : again ≡ true → length w'.sends < length w.sends

-- The chunks that `on_write` keeps when the first of them is through.
abbrev kept : List (List ℕ) → List (List ℕ)
kept cs = if ltb 1 (length cs) then drop 1 cs else cs

stored_split :
    (n w size : ℕ) (cs : List (List ℕ))
    → Sized n cs
    → w ≤ n * length cs
    → size ≡ min w n
    → 0 < size
    → (take w (joined cs) ≡ take size (take w (joined cs)) ++ take (w - size) (joined (kept cs)))
      × Sized n (kept cs)
      × (w - size ≤ n * length (kept cs))
unfolding joined
stored_split n w size [] s h e pos = absurd (omega arith)
stored_split n w size (c ∷ []) s h e pos =
    let all : w - size ≡ 0 = omega arith in
    let bytes = take w (joined (c ∷ [])) in
    (
      sym (take_all size bytes (omega (arith, length-take w (joined (c ∷ [])))))
          ∙ sym (append-nil (take size bytes))
          ∙ ap (λ j. take size bytes ++ take j (joined (c ∷ []))) (sym all),
      s,
      omega arith,
    )
stored_split n w size (c ∷ d ∷ cs) s h e pos =
    let rest = joined (d ∷ cs) in
    let bytes = take w (c ++ rest) in
    let size_c : length c ≡ n = s.0 in
    let dropped : drop size bytes ≡ take (w - size) rest = elim (Bool-cases (ltb n w)) [
      | inl t ↦
          let more : n < w = ground arith in
          ap (drop size) (take-append_add w (w - size) c rest (omega arith))
          ∙ drop-append_le size c (take (w - size) rest) (omega arith)
          ∙ ap (λ l. l ++ take (w - size) rest) (drop_all size c (omega arith))
      | inr t ↦
          let fits : w ≤ n = ground arith in
          let none_left : 0 ≡ w - size = omega arith in
          drop_all size bytes (omega (arith, length-take w (c ++ rest)))
          ∙ ap (λ j. take j rest) none_left
    ] in
    let two : ltb 1 (suc (suc (length cs))) ≡ true = ground arith in
    rw two
      (sym (take-append-drop size bytes) ∙ ap (λ l. take size bytes ++ l) dropped, s.1, grind arith)

advance_eq :
    (n size : ℕ) (o : Ostream)
    → IsReady n o
    → size ≡ min o.windex n
    → advance n size o ≡ record o {
      rindex = 0;
      windex = o.windex - size;
      buffers = kept o.buffers;
      next_buffer = not (o.windex - size == 0);
    }
unfolding advance
advance_eq n size o r e =
    let start = r.at_start in
    let small = r.small in
    let left : (o.windex + 2 ^ 64 - size) % 2 ^ 64 ≡ o.windex - size = omega arith in
    let through : ((o.rindex + size == n) || (o.rindex + size == o.windex)) ≡ true = ground arith in
    rw (through, left) refl

module _ (buffer_size : ℕ) (handler : ℕ → Errno → World → World) (positive : 0 < buffer_size)
    (bounded : buffer_size < 2 ^ 64) (quiet : IsQuiet handler) where
  pub advance_lem :
      (o : Ostream) (size : ℕ)
      → IsReady buffer_size o
      → size ≡ min o.windex buffer_size
      → 0 < size
      → o.complete ≡ false
      → (stored o ≡ take size (stored o) ++ stored (advance buffer_size size o))
        × IsReady buffer_size (advance buffer_size size o)
  unfolding advance stored
  advance_lem o size r e pos f =
      let n = buffer_size in
      let same = advance_eq n size o r e in
      let (t, s', fits) =
        stored_split n o.windex size o.buffers r.sound.sized r.sound.roomy e pos in
      (
        t ∙ ap (λ a. take size (stored o) ++ stored a) (sym same),
        rw same (record {
          sound = record { sized = s'; roomy = fits; ordered = omega arith };
          at_start = refl;
          small = omega (arith, r.small);
          calm = r.calm;
          waits = λ h. ground arith;
          settled = λ h. absurd (cc);
        }),
      )

  -- A pass that leaves the waiting bytes alone.
  pub stays_lem :
      (b again : Bool) (w w' : World)
      → IsReady buffer_size w.out
      → w.out.next_buffer ≡ true
      → w'.out ≡ record (w.out) { complete = b }
      → w'.wire ≡ w.wire
      → TakesWhole buffer_size w'.sends
      → (again ≡ true → length w'.sends < length w.sends)
      → Passed buffer_size w again w'
  unfolding pending stored
  stays_lem b again w w' r x e f t p = record {
    ready = rw e (record {
      sound = record { sized = r.sound.sized; roomy = r.sound.roomy; ordered = r.sound.ordered };
      at_start = r.at_start;
      small = r.small;
      calm = r.calm;
      waits = r.waits;
      settled = λ h. x;
    });
    conserved = rw (e, f) refl;
    whole = t;
    progress = p;
  }

  pub send_chunk_eq :
      (w : World)
      → IsReady buffer_size w.out
      → w.out.next_buffer ≡ true
      → let valid = min w.out.windex buffer_size in
        let r =
          send_data
            (take valid (stored w.out))
            (with_out w (record (w.out) { complete = false })) in
        send_chunk buffer_size handler w ≡ answered buffer_size handler valid r.0 r.1 r.2
  unfolding send_chunk remaining stored joined
  send_chunk_eq w r x =
      let o : Ostream = w.out in
      let valid = min o.windex buffer_size in
      let some_bytes = r.waits x in
      let start = r.at_start in
      let below = r.small in
      let go : ℕ → List ℕ → Run (Bool × World) = λ v bs.
        let r = send_data bs (with_out w (record o { complete = false })) in
        answered buffer_size handler v r.0 r.1 r.2 in
      let run : ℕ → List (List ℕ) → Run (Bool × World) = λ v cs.
        if v == 0
        then fault
        else elim cs [ [] ↦ fault | front ∷ rest ↦ go v (take v (drop o.rindex front)) ] in
      elim (List-cases o.buffers) [
        | inl none_left ↦
            let roomy : o.windex ≤ buffer_size * length o.buffers = r.sound.roomy in
            let empty : length o.buffers ≡ 0 = ap length none_left in absurd (grind arith)
        | inr (front, rest, e) ↦
            let sized : Sized buffer_size (front ∷ rest) =
              subst (Sized buffer_size) e r.sound.sized in
            let length_front : length front ≡ buffer_size = sized.0 in
            let lengths : min ((o.windex + 2 ^ 64 - o.rindex) % 2 ^ 64)
                  ((buffer_size + 2 ^ 64 - o.rindex) % 2 ^ 64)
                ≡ valid =
              omega arith in
            let positive_valid : (valid == 0) ≡ false = ground arith in
            let bytes : take valid (drop o.rindex front)
                ≡ take valid (take o.windex (joined o.buffers)) =
              ap (λ j. take valid (drop j front)) start
              ∙ sym (
                  take-take valid o.windex (joined o.buffers) (omega arith)
                  ∙ ap (λ l. take valid (joined l)) e
                  ∙ take-append_le valid front (joined rest) (omega (arith, length_front))) in
            let same_branch : run valid (front ∷ rest)
                ≡ go valid (take valid (drop o.rindex front)) =
              ap (λ b. if b then fault else go valid (take valid (drop o.rindex front)))
                positive_valid in
            ap (λ v. run v o.buffers) lengths ∙ ap (run valid) e ∙ same_branch ∙ ap (go valid) bytes
      ]
