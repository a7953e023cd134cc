-- ===== src/Buffer/Bounds.antt =====
-- What the range checks of the two buffers let through.
use libkngin.Base.{
  ℕ, ◌+◌, ◌-◌, ◌^◌, ◌≤◌, ◌<◌, ◌≡◌, refl, ◌⊎◌, inl, inr, ◌↔◌, ◌++◌, List, ◌∙◌, arith, length,
}
use native.Mathlib.Decide.{dec_lt}
use libkngin.Base.Memory.{
  Memory, load, store, length-load, load-store_after, length-bytes_of, bytes_of, store_outside,
}
use libkngin.Base.Result.{ok, throw, not_writeable}
use libkngin.Buffer.Out
use libkngin.Buffer.Out.{OutBuffer}
use libkngin.Buffer.In
use libkngin.Buffer.In.{InBuffer, IsValid, written}

-- `out_buffer::at` returns the byte exactly for the indices below the size, and for the largest
-- `size_t`, at which `idx + 1` wraps to 0.
pub at-ok_iff :
    (m : Memory) (b : OutBuffer) (idx : ℕ)
    → idx < 2 ^ 64
    → (Out.at m b idx ≡ ok (m (b.arr + idx))) ↔ ((idx < b.size) ⊎ (idx ≡ 2 ^ 64 - 1))
unfolding Out.at
at-ok_iff m b idx h = ground arith

-- What a write leaves: a valid cursor over the same place, the bytes `bs` behind those written
-- before, and every other address of the memory as it was.
pub record Appended (m : Memory) (b : InBuffer) (bs : List ℕ) (m' : Memory) (b' : InBuffer)
    : Type 0 where
  pub valid : IsValid b'
  pub same_arr : b'.arr ≡ b.arr
  pub same_size : b'.size ≡ b.size
  pub bytes : written m' b' ≡ written m b ++ bs
  pub frame : (a : ℕ) → (a < b.arr + b.valid) ⊎ (b.arr + b.valid + length bs ≤ a) → m' a ≡ m a

Appended-store :
    (m : Memory) (b : InBuffer) (bs : List ℕ)
    → IsValid b
    → b.valid + length bs ≤ b.size
    → Appended m b bs (store m (b.arr + b.valid) bs) (record b { valid = b.valid + length bs })
Appended-store m b bs v h = record {
  valid = record { fits = v.fits; within = h };
  same_arr = refl;
  same_size = refl;
  bytes = load-store_after m b.arr b.valid bs;
  frame = store_outside m (b.arr + b.valid) bs;
}

write-ok :
    (m : Memory) (b : InBuffer) (p n : ℕ)
    → IsValid b
    → b.valid + n ≤ b.size
    → In.write m b p n
      ≡ ok (store m (b.arr + b.valid) (load m p n), record b { valid = b.valid + n })
unfolding In.write
write-ok m b p n v h = ground arith

write-throw :
    (m : Memory) (b : InBuffer) (p n : ℕ)
    → IsValid b
    → b.size < b.valid + n
    → In.write m b p n ≡ throw not_writeable
unfolding In.write
write-throw m b p n v h = ground arith

-- `in_buffer::write`, from a valid cursor. A block that fits is copied behind the bytes written so
-- far, and nothing else of the memory changes; any other block is refused with an exception.
pub write_lem :
    (m : Memory) (b : InBuffer) (p n : ℕ)
    → IsValid b
    → ((b.valid + n ≤ b.size)
        × (m' : Memory) × (b' : InBuffer) × (In.write m b p n ≡ ok (m', b'))
        × Appended m b (load m p n) m' b')
      ⊎ ((b.size < b.valid + n) × (In.write m b p n ≡ throw not_writeable))
write_lem m b p n v = elim (dec_lt b.size (b.valid + n)) [
  | yes h ↦ inr (h, write-throw m b p n v h)
  | no h ↦
      let e : length (load m p n) ≡ n = length-load m p n in
      inl (
        omega arith,
        store m (b.arr + b.valid) (load m p n),
        record b { valid = b.valid + length (load m p n) },
        write-ok m b p n v (omega arith) ∙ rw e refl,
        Appended-store m b (load m p n) v (omega arith),
      )
]

-- `in_buffer::write_value`, from a valid cursor: the same for the bytes of a word of `width` bytes.
pub write_value_lem :
    (m : Memory) (b : InBuffer) (width val : ℕ)
    → IsValid b
    → width ≤ 8
    → ((b.valid + width ≤ b.size)
        × (m' : Memory) × (b' : InBuffer) × (In.write_value m b width val ≡ ok (m', b'))
        × Appended m b (bytes_of width val) m' b')
      ⊎ ((b.size < b.valid + width) × (In.write_value m b width val ≡ throw not_writeable))
unfolding In.write_value
write_value_lem m b width val v w = elim (dec_lt b.size (b.valid + width)) [
  | yes h ↦ inr (h, ground arith)
  | no h ↦
      let e : length (bytes_of width val) ≡ width = length-bytes_of width val in
      inl (
        omega arith,
        store m (b.arr + b.valid) (bytes_of width val),
        record b { valid = b.valid + length (bytes_of width val) },
        ground arith,
        Appended-store m b (bytes_of width val) v (omega arith),
      )
]
