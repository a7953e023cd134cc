-- ===== src/Buffer/RoundTrip.antt =====
-- What `in_buffer` writes, `out_buffer` reads back.

use libkngin.Base.{
  ℕ, ◌+◌, ◌-◌, ◌^◌, ◌≤◌, ◌<◌, ◌≡◌, refl, ap, sym, ◌∙◌, List, [], ◌∷◌, ◌++◌, arith, length, inl, inr,
  append_inj, append_assoc, append-nil, length-append, map,
}
use libkngin.Base.Memory.{
  Memory, load, length-load, load-add, bytes_of, word_of, length-bytes_of, word_of-bytes_of,
}
use libkngin.Base.Result.{Result, ok, ◌>>=◌}
use libkngin.Buffer.Out
use libkngin.Buffer.Out.{OutBuffer, rest, out_buffer}
use libkngin.Buffer.In
use libkngin.Buffer.In.{InBuffer, IsValid, written}
use libkngin.Buffer.Bounds.{write_value_lem}

-- A field is the width of its type, in bytes, and its bit pattern.
abbrev pub Fields : Type 0
Fields = List (ℕ × ℕ)

abbrev pub AreWords : Fields → Type 0
AreWords [] = Unit {0}
AreWords ((w, v) ∷ fs) = (w ≤ 8) × (v < 256 ^ w) × AreWords fs

-- A caller's chain of `buf.write(a).write(b)...`, and of `buf.read(a).read(b)...`.
unfoldable pub write_all : Memory → InBuffer → Fields → Result (Memory × InBuffer)
write_all m b [] = ok (m, b)
write_all m b ((w, v) ∷ fs) = do (m', b') ← In.write_value m b w v; write_all m' b' fs

unfoldable pub read_all : Memory → OutBuffer → List ℕ → Result (List ℕ × OutBuffer)
read_all m q [] = ok ([], q)
read_all m q (w ∷ ws) = do
  (v, q') ← Out.read_word m w q
  (vs, end) ← read_all m q' ws
  ok (v ∷ vs, end)

encode : Fields → List ℕ
encode [] = []
encode ((w, v) ∷ fs) = bytes_of w v ++ encode fs

unfoldable pub total : Fields → ℕ
total [] = 0
total ((w, v) ∷ fs) = w + total fs

length-encode : (fs : Fields) → length (encode fs) ≡ total fs
unfolding encode total
length-encode [] = refl
length-encode ((w, v) ∷ fs) =
    omega (arith, length-append (bytes_of w v) (encode fs), length-bytes_of w v, length-encode fs)

-- One read takes its word off the front.
read_word-cons :
    (m : Memory) (q : OutBuffer) (w v : ℕ) (bs : List ℕ)
    → v < 256 ^ w
    → rest m q ≡ bytes_of w v ++ bs
    → (q' : OutBuffer) × (Out.read_word m w q ≡ ok (v, q')) × (rest m q' ≡ bs)
unfolding Out.read_word
read_word-cons m q w v bs small h =
    let n : q.size ≡ w + length bs = omega (
      arith,
      length-load m q.arr q.size,
      ap length h,
      length-append (bytes_of w v) bs,
      length-bytes_of w v,
    ) in
    let e : q.size ≡ w + (q.size - w) = omega arith in
    let parts : load m q.arr w ++ load m (q.arr + w) (q.size - w) ≡ bytes_of w v ++ bs =
      sym (load-add m q.arr w (q.size - w)) ∙ ap (λ k. load m q.arr k) (sym e) ∙ h in
    let both : (load m q.arr w ≡ bytes_of w v) × (load m (q.arr + w) (q.size - w) ≡ bs) =
      append_inj (load m q.arr w) (bytes_of w v) (length-load m q.arr w ∙ sym (length-bytes_of w v))
        parts in
    (
      record q { arr = q.arr + w; size = q.size - w },
      ground (arith, ap word_of both.0, word_of-bytes_of w v),
      both.1,
    )

-- Reading the types of the fields gives their values.
read_all-encode :
    (m : Memory) (q : OutBuffer) (fs : Fields) (bs : List ℕ)
    → AreWords fs
    → rest m q ≡ encode fs ++ bs
    → (q' : OutBuffer) × (read_all m q (map (λ f. f.0) fs) ≡ ok (map (λ f. f.1) fs, q'))
      × (rest m q' ≡ bs)
unfolding read_all encode
read_all-encode m q [] bs a h = (q, refl, h)
read_all-encode m q ((w, v) ∷ fs) bs a h =
    let (q', e, r) =
      read_word-cons m q w v (encode fs ++ bs) a.1
        (h ∙ append_assoc (bytes_of w v) (encode fs) bs) in
    let (q'', e', r') = read_all-encode m q' fs bs a.2 r in (q'', rw (e, e'), r')

-- A chain of writes that fit succeeds and appends the encoded fields.
write_all-encode :
    (m : Memory) (b : InBuffer) (fs : Fields)
    → AreWords fs
    → IsValid b
    → b.valid + total fs ≤ b.size
    → (m' : Memory) × (b' : InBuffer) × (write_all m b fs ≡ ok (m', b'))
      × IsValid b'
      × (b'.arr ≡ b.arr)
      × (written m' b' ≡ written m b ++ encode fs)
unfolding write_all encode total
write_all-encode m b [] a v h = (m, b, refl, v, refl, sym (append-nil (written m b)))
write_all-encode m b ((w, x) ∷ fs) a v h = elim (write_value_lem m b w x v a.0) [
  | inr (over, _) ↦ absurd (omega arith)
  | inl (_, m', b', e, ap') ↦
      let n : b'.valid ≡ b.valid + w = omega (
        arith,
        length-load m' b'.arr b'.valid,
        length-load m b.arr b.valid,
        ap length ap'.bytes,
        length-append (written m b) (bytes_of w x),
        length-bytes_of w x,
      ) in
      let s : b'.size ≡ b.size = ap'.same_size in
      let (m'', b'', e', v', p', r) = write_all-encode m' b' fs a.2 ap'.valid (omega arith) in
      (
        m'',
        b'',
        rw (e) e',
        v',
        p' ∙ ap'.same_arr,
        r ∙ rw ap'.bytes (append_assoc (written m b) (bytes_of w x) (encode fs)),
      )
]

-- A fresh `in_buffer` over `size` bytes at `arr`, filled with fields that fit, and an `out_buffer`
-- over what it has written: reading the types of the fields in order gives their values and uses
-- up the buffer.
pub read_all-write_all :
    (m : Memory) (arr size : ℕ) (fs : Fields)
    → arr + size ≤ 2 ^ 63
    → AreWords fs
    → total fs ≤ size
    → (m' : Memory) × (b : InBuffer) × (q : OutBuffer) × (write_all m (In.in_buffer arr size) fs
        ≡ ok (m', b))
      × (read_all m' (out_buffer arr b.valid) (map (λ f. f.0) fs) ≡ ok (map (λ f. f.1) fs, q))
      × (q.size ≡ 0)
unfolding load
read_all-write_all m arr size fs fits words room =
    let (m', b, e, v, p, r) =
      write_all-encode m (In.in_buffer arr size) fs words
        (record { fits = fits; within = omega arith }) (omega arith) in
    let same : rest m' (out_buffer arr b.valid) ≡ encode fs ++ [] =
      ap (λ a. load m' a b.valid) (sym p) ∙ r ∙ sym (append-nil (encode fs)) in
    let (q, e', r') = read_all-encode m' (out_buffer arr b.valid) fs [] words same in
    (m', b, q, e, e', omega (arith, length-load m' q.arr q.size, ap length r'))
