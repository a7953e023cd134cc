-- ===== src/Tcp/Ostream/Copy.antt =====
-- The copying loop of append_buffer in libkngin/detail/net/tcp/impl/posix_tcp_ostream.cpp.
use mathlib.Core.Path.{subst}
use native.Mathlib.Nat.{mod-lt, mod-add-div', mul-div_cancel, div-lt_iff_lt-mul, mul_comm}
use libkngin.Base.{
  ℕ, zero, suc, ◌+◌, ◌-◌, ◌*◌, ◌/◌, ◌%◌, ◌≤◌, ◌<◌, min, ◌≡◌, refl, ap, sym, ◌∙◌, List, ◌++◌,
  append_assoc, Option, none, some, arith, leb, if◌then◌else◌, inl, inr, Bool-cases, length,
  length-take, length-drop, take, drop, take-append-drop, set, get_elem?,
}
use libkngin.Base.Run.{Run, done, fault}
use libkngin.Tcp.World.{Ostream}
use libkngin.Tcp.Ostream.{splice, copy_loop}
use libkngin.Tcp.Ostream.Chunks.{take_all, length-set, get_elem?_in, joined, Sized, write_chunk}

below_chunks : (n w m : ℕ) → 0 < n → w < n * m → w / n < m
below_chunks n w m pos h = (div-lt_iff_lt-mul pos).1 (omega (arith, mul_comm n m))

div-next : (n w : ℕ) → 0 < n → (w + (n - w % n)) / n ≡ w / n + 1
div-next n w h =
    let small = mod-lt w h in
    let split = mod-add-div' w n in
    let next : w + (n - w % n) ≡ (w / n + 1) * n = grind arith in
    ap (λ v. v / n) next ∙ mul-div_cancel (w / n + 1) h

module _ (buffer_size : ℕ) (blank : List ℕ) (positive : 0 < buffer_size) where
  -- The stream after `k` bytes are copied to the chunk `which`.
  abbrev copied : Ostream → ℕ → ℕ → List ℕ → List ℕ → Ostream
  copied o which k c bytes = record o {
    buffers = set o.buffers which (splice c (o.windex % buffer_size) (take k bytes));
    windex = o.windex + k;
  }

  -- A step of the copy: the bytes follow those that are stored.
  copy_step :
      (k which : ℕ) (bytes : List ℕ) (o : Ostream) {c : List ℕ}
      → Sized buffer_size o.buffers
      → which ≡ o.windex / buffer_size
      → get_elem? o.buffers which ≡ some c
      → k ≤ length bytes
      → k ≤ buffer_size - o.windex % buffer_size
      → (take (o.windex + k) (joined (copied o which k c bytes).buffers)
          ≡ take o.windex (joined o.buffers) ++ take k bytes)
        × Sized buffer_size (copied o which k c bytes).buffers
  copy_step k which bytes o {c} s at found small room =
      let w = o.windex in
      let index = w % buffer_size in
      let below = mod-lt w positive in
      let split = mod-add-div' w buffer_size in
      let start : which * buffer_size + index ≡ w = rw at (omega arith) in
      let len = length-take k bytes in
      let (t, s') =
        write_chunk buffer_size o.buffers which index (take k bytes) s found (omega arith) in
      (
        ap (λ n. take n (joined (copied o which k c bytes).buffers)) (omega arith)
            ∙ t
            ∙ ap (λ n. take n (joined o.buffers) ++ take k bytes) start,
        s',
      )

  copy_loop_eq :
      (fuel size begin : ℕ) (bytes : List ℕ) (which new_windex k : ℕ) (o : Ostream) {c : List ℕ}
      → get_elem? o.buffers which ≡ some c
      → k ≡ min (size - begin) (buffer_size - o.windex % buffer_size)
      → copy_loop buffer_size blank (suc fuel) size begin bytes which new_windex o ≡ (
          if leb new_windex (o.windex + k)
          then done (copied o which k c bytes)
          else copy_loop buffer_size blank fuel size
              (begin + k)
              (drop k bytes)
              (which + 1)
              new_windex
              (copied o which k c bytes))
  unfolding copy_loop
  copy_loop_eq fuel size begin bytes which nw k o {c} e h =
      let m = min (size - begin) (buffer_size - o.windex % buffer_size) in
      let run : Option (List ℕ) → Run Ostream = λ found. elim found [
        | none ↦ fault
        | some chunk ↦
            if leb nw (o.windex + m)
            then done (copied o which m chunk bytes)
            else copy_loop buffer_size blank fuel size (begin + m) (drop m bytes) (which + 1) nw
                (copied o which m chunk bytes)
      ] in
      rw h (ap run e)

  -- What the loop leaves when it has stored `bytes`.
  unfoldable pub Stores : ℕ → List ℕ → Ostream → Run Ostream → Type 0
  Stores new_windex bytes o run =
      (buffers : List (List ℕ)) × (run ≡ done (record o { buffers = buffers; windex = new_windex }))
      × Sized buffer_size buffers
      × (length buffers ≡ length o.buffers)
      × (take new_windex (joined buffers) ≡ take o.windex (joined o.buffers) ++ bytes)

  copy_last :
      (k which new_windex : ℕ) (bytes : List ℕ) (o : Ostream) {c : List ℕ}
      → Sized buffer_size o.buffers
      → which ≡ o.windex / buffer_size
      → get_elem? o.buffers which ≡ some c
      → k ≡ length bytes
      → k ≤ buffer_size - o.windex % buffer_size
      → new_windex ≡ o.windex + k
      → Stores new_windex bytes o (done (copied o which k c bytes))
  unfolding Stores
  copy_last k which nw bytes o {c} s a found all room e =
      let (t, s') = copy_step k which bytes o s a found (omega arith) room in
      let o' = copied o which k c bytes in
      (
        o'.buffers,
        ap (λ v. done (record o { buffers = o'.buffers; windex = v })) (sym e),
        s',
        length-set o.buffers which (splice c (o.windex % buffer_size) (take k bytes)),
        ap (λ v. take v (joined o'.buffers)) e
            ∙ t
            ∙ ap (λ l. take o.windex (joined o.buffers) ++ l) (take_all k bytes (omega arith)),
      )

  copy_more :
      (k which new_windex : ℕ) (bytes : List ℕ) (o : Ostream) (run : Run Ostream) {c : List ℕ}
      → Sized buffer_size o.buffers
      → which ≡ o.windex / buffer_size
      → get_elem? o.buffers which ≡ some c
      → k ≤ length bytes
      → k ≤ buffer_size - o.windex % buffer_size
      → Stores new_windex (drop k bytes) (copied o which k c bytes) run
      → Stores new_windex bytes o run
  unfolding Stores
  copy_more k which nw bytes o run {c} s a found all room (buffers, e, s', len, kept) =
      let (t, sized) = copy_step k which bytes o s a found all room in
      let stays = length-set o.buffers which (splice c (o.windex % buffer_size) (take k bytes)) in
      (
        buffers,
        e,
        s',
        len ∙ stays,
        kept
            ∙ ap (λ l. l ++ drop k bytes) t
            ∙ append_assoc (take o.windex (joined o.buffers)) (take k bytes) (drop k bytes)
            ∙ ap (λ l. take o.windex (joined o.buffers) ++ l) (take-append-drop k bytes),
      )

  pub copy_loop_lem :
      (fuel size begin : ℕ) (bytes : List ℕ) (which new_windex : ℕ) (o : Ostream)
      → Sized buffer_size o.buffers
      → which ≡ o.windex / buffer_size
      → size ≡ begin + length bytes
      → new_windex ≡ o.windex + length bytes
      → new_windex ≤ buffer_size * length o.buffers
      → 0 < length bytes
      → length bytes ≤ fuel
      → Stores new_windex bytes o
          (copy_loop buffer_size blank fuel size begin bytes which new_windex o)
  copy_loop_lem zero size begin bytes which nw o s a b c d e f = absurd (omega arith)
  copy_loop_lem (suc fuel) size begin bytes which nw o s a b c d e f =
      let w = o.windex in
      let k = min (size - begin) (buffer_size - w % buffer_size) in
      let small = mod-lt w positive in
      let there : which < length o.buffers =
        rw a (below_chunks buffer_size w (length o.buffers) positive (omega arith)) in
      let (chunk, found) = get_elem?_in o.buffers which there in
      subst (Stores nw bytes o) (sym (copy_loop_eq fuel size begin bytes which nw k o found refl))
        (elim (Bool-cases (leb nw (w + k))) [
          | inl t ↦
              rw t (
                copy_last k which nw bytes o s a found (ground arith) (ground arith) (ground arith))
          | inr t ↦
              let sized = (copy_step k which bytes o s a found (ground arith) (ground arith)).1 in
              let stays =
                length-set o.buffers which (splice chunk (w % buffer_size) (take k bytes)) in
              let full : k ≡ buffer_size - w % buffer_size = ground arith in
              let next : which + 1 ≡ (w + k) / buffer_size =
                ap (λ v. v + 1) a
                ∙ sym (div-next buffer_size w positive)
                ∙ ap (λ v. (w + v) / buffer_size) (sym full) in
              let k_small : k < length bytes = ground arith in
              let rest = length-drop k bytes in
              rw t (
                copy_more k which nw bytes o
                  (copy_loop buffer_size blank fuel size (begin + k) (drop k bytes) (which + 1) nw
                    (copied o which k chunk bytes))
                  s a found (omega arith) (omega arith)
                  (copy_loop_lem fuel size (begin + k) (drop k bytes) (which + 1) nw
                    (copied o which k chunk bytes) sized next (omega arith) (omega arith)
                    (rw stays d) (omega arith) (omega arith)))
        ])
