-- ===== src/Tcp/Ostream/Append.antt =====
-- append_buffer of libkngin/detail/net/tcp/impl/posix_tcp_ostream.cpp: what it stores.
use libkngin.Base.{
  ℕ, zero, suc, ◌+◌, ◌-◌, ◌*◌, ◌/◌, ◌≤◌, ◌<◌, ◌≡◌, refl, ap, ◌∙◌, true, false, List, [], ◌∷◌, ◌++◌,
  append_assoc, append-nil, arith, ltb, ◌==◌, inl, inr, Bool-cases, length, length-append,
  length-take, take, drop,
}
use libkngin.Base.Run.{done}
use libkngin.Tcp.World.{Ostream}
use libkngin.Tcp.Ostream.{grow, append_buffer}
use libkngin.Tcp.Ostream.Chunks.{
  take-append_le, drop-append_le, joined, Sized, length-joined, Sized-append, joined-append,
}
use libkngin.Tcp.Ostream.Copy.{Stores, copy_loop_lem}

-- The bytes in the chunks up to `windex_`, and those of them that are still to be sent.
unfoldable pub stored : Ostream → List ℕ
stored o = take o.windex (joined o.buffers)

unfoldable pub pending : Ostream → List ℕ
unfolding stored
pending o = drop o.rindex (stored o)

-- Chunks of `n` bytes with room for what is stored, and nothing read beyond it.
pub record IsSound (n : ℕ) (o : Ostream) : Type 0 where
  pub sized : Sized n o.buffers
  pub roomy : o.windex ≤ n * length o.buffers
  pub ordered : o.rindex ≤ o.windex

pub length-stored : (n : ℕ) (o : Ostream) → IsSound n o → length (stored o) ≡ o.windex
unfolding stored
length-stored n o s =
    omega
      (arith, length-take o.windex (joined o.buffers), length-joined n o.buffers s.sized, s.roomy)

module _ (buffer_size : ℕ) (blank : List ℕ) (positive : 0 < buffer_size) where
  -- Chunks are added until what is stored and what comes have room.
  grow_lem :
      (fuel need : ℕ) (buffers : List (List ℕ))
      → length blank ≡ buffer_size
      → Sized buffer_size buffers
      → need - length buffers < fuel
      → (more : List (List ℕ)) × (grow buffer_size blank fuel need buffers ≡ done (buffers ++ more))
        × Sized buffer_size (buffers ++ more)
        × (need ≤ buffer_size * length (buffers ++ more))
  unfolding grow
  grow_lem zero need buffers l s f = absurd (omega arith)
  grow_lem (suc fuel) need buffers l s f =
      elim (Bool-cases (ltb (buffer_size * length buffers) need)) [
        | inl t ↦
            let len = length-append buffers (blank ∷ []) in
            let many : length buffers ≤ buffer_size * length buffers = grind arith in
            let short : buffer_size * length buffers < need = ground arith in
            let (more, run, sized, roomy) =
              grow_lem fuel need (buffers ++ blank ∷ []) l
                (Sized-append buffer_size buffers (blank ∷ []) s (l, tt)) (omega arith) in
            let same = append_assoc buffers (blank ∷ []) more in
            (blank ∷ more, rw t (run ∙ ap done same), rw (← same) sized, rw (← same) roomy)
        | inr t ↦
            let same = append-nil buffers in
            ([], rw (t, same) refl, rw same s, rw same (ground arith))
      ]

  -- For data that is not empty, on sound chunks and with fuel for more than the bytes that are
  -- stored and come, `append_buffer` succeeds, keeps the chunks sound, leaves urgent bytes and
  -- `rindex_` alone, and stores the data behind what is stored: what is pending is then what was
  -- pending and after it the data.
  pub append_buffer_lem :
      (fuel : ℕ) (bytes : List ℕ) (o : Ostream)
      → length blank ≡ buffer_size
      → IsSound buffer_size o
      → 0 < length bytes
      → o.windex + length bytes < fuel
      → (o' : Ostream) × (append_buffer buffer_size blank fuel bytes o ≡ done o')
        × (stored o' ≡ stored o ++ bytes)
        × (pending o' ≡ pending o ++ bytes)
        × IsSound buffer_size o'
        × (o'.next_buffer ≡ true)
        × (o'.oobq ≡ o.oobq)
        × (o'.rindex ≡ o.rindex)
        × (o'.windex ≡ o.windex + length bytes)
  unfolding append_buffer pending stored Stores
  append_buffer_lem fuel bytes o l s some_bytes f =
      let w = o.windex in
      let (more, grown, sized, roomy) =
        grow_lem fuel (w + length bytes) o.buffers l s.sized (omega arith) in
      let start : Ostream = record o { buffers = o.buffers ++ more } in
      let some_size : (length bytes == 0) ≡ false = ground arith in
      let (buffers, copied', sized', len, kept) =
        copy_loop_lem buffer_size blank positive fuel (length bytes) 0 bytes (w / buffer_size)
          (w + length bytes) start sized refl (omega arith) refl roomy some_bytes (omega arith) in
      let o' : Ostream = record o {
        buffers = buffers;
        windex = w + length bytes;
        next_buffer = true;
      } in
      let before : take w (joined (o.buffers ++ more)) ≡ take w (joined o.buffers) =
        ap (λ l. take w l) (joined-append o.buffers more)
        ∙ take-append_le w (joined o.buffers) (joined more)
            (omega (arith, s.roomy, length-joined buffer_size o.buffers s.sized)) in
      let whole = kept ∙ ap (λ l. l ++ bytes) before in
      (
        o',
        rw (some_size, grown, copied') refl,
        whole,
        ap (λ l. drop o.rindex l) whole
            ∙ drop-append_le o.rindex (stored o) bytes
                (omega (arith, s.ordered, length-stored buffer_size o s)),
        record { sized = sized'; roomy = rw len roomy; ordered = omega (arith, s.ordered) },
        refl,
        refl,
        refl,
        refl,
      )
