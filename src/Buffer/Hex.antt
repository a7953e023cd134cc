-- ===== src/Buffer/Hex.antt =====
-- `out_buffer::dump` and `in_buffer::dump`, which have one body: the bytes as pairs of hexadecimal
-- digits, in a string that is sized for one byte more.
use Prim.Native.Nat.{◌/◌, ◌%◌}
use mathlib.Core.Path.{ap₂}
use native.Mathlib.Nat.{add-zero}
use libkngin.Base.{
  ℕ, zero, suc, ◌+◌, ◌-◌, ◌*◌, ◌<◌, ◌≡◌, refl, ap, ◌∙◌, List, [], ◌∷◌, ◌++◌, arith, length, set,
  replicate, set-append, ltb, if◌then◌else◌, append_assoc, length-append,
}
use libkngin.Base.Memory.{Memory, load}

-- The character of a digit, as `%02x` prints it.
unfoldable pub hex_digit : ℕ → ℕ
hex_digit d = if ltb d 10 then b'0' + d else b'a' + (d - 10)

-- The `for` loop, with `k` rounds left from index `i` on.
pub dump_loop : Memory → ℕ → ℕ → ℕ → List ℕ → List ℕ
unfolding hex_digit
dump_loop m arr zero i result = result
dump_loop m arr (suc k) i result = dump_loop m arr k (i + 1) (
    set (set result (2 * i) (hex_digit (m (arr + i) / 16))) (2 * i + 1)
      (hex_digit (m (arr + i) % 16)))

-- `result.resize(size_ * 2 + 1)` fills the string with zero bytes.
unfoldable pub dump : Memory → ℕ → ℕ → List ℕ
unfolding dump_loop
dump m arr size = dump_loop m arr size 0 (replicate (size * 2 + 1) 0)

-- Two digits for each byte.
pub hex : List ℕ → List ℕ
hex [] = []
hex (b ∷ bs) = hex_digit (b / 16) ∷ hex_digit (b % 16) ∷ hex bs

-- A reader of hexadecimal digits, which stops at the end of the string or at a zero byte.
unfoldable pub digit_value : ℕ → ℕ
digit_value c = if ltb c b'a' then c - b'0' else c - b'a' + 10

pub unhex : List ℕ → List ℕ
unfolding digit_value
unhex [] = []
unhex (c ∷ []) = []
unhex (c ∷ d ∷ cs) = (digit_value c * 16 + digit_value d) ∷ unhex cs

dump_loop-hex :
    (m : Memory) (arr k i : ℕ) (pre : List ℕ)
    → length pre ≡ 2 * i
    → dump_loop m arr k i (pre ++ replicate (k * 2 + 1) 0)
      ≡ pre ++ (hex (load m (arr + i) k) ++ 0 ∷ [])
unfolding dump_loop hex load
dump_loop-hex m arr zero i pre h = refl
dump_loop-hex m arr (suc k) i pre h =
    let hi = hex_digit (m (arr + i) / 16) in
    let lo = hex_digit (m (arr + i) % 16) in
    let r : List ℕ = replicate (k * 2 + 1) 0 in
    let e : suc k * 2 + 1 ≡ suc (suc (k * 2 + 1)) = omega arith in
    let first : set (pre ++ 0 ∷ 0 ∷ r) (2 * i) hi ≡ pre ++ hi ∷ 0 ∷ r =
      set-append pre 0 hi (0 ∷ r) (2 * i) (omega arith) in
    let second : set (pre ++ hi ∷ 0 ∷ r) (2 * i + 1) lo ≡ (pre ++ hi ∷ []) ++ lo ∷ r =
      rw (← append_assoc pre (hi ∷ []) (0 ∷ r)) (
        set-append (pre ++ hi ∷ []) 0 lo r (2 * i + 1)
          (omega (arith, length-append pre (hi ∷ [])))) in
    let pre' : List ℕ = (pre ++ hi ∷ []) ++ lo ∷ [] in
    let tail : List ℕ = hex (load m (suc (arr + i)) k) ++ 0 ∷ [] in
    let f : arr + (i + 1) ≡ suc (arr + i) = omega arith in
    let whole : pre' ++ tail ≡ pre ++ (hi ∷ lo ∷ tail) =
      append_assoc (pre ++ hi ∷ []) (lo ∷ []) tail ∙ append_assoc pre (hi ∷ []) (lo ∷ tail) in
    let ih : dump_loop m arr k (i + 1) (pre' ++ r)
        ≡ pre' ++ (hex (load m (arr + (i + 1)) k) ++ 0 ∷ []) =
      dump_loop-hex m arr k (i + 1) pre'
        (omega (arith, length-append (pre ++ hi ∷ []) (lo ∷ []), length-append pre (hi ∷ []))) in
    rw (e, first, second, ← append_assoc (pre ++ hi ∷ []) (lo ∷ []) r) (ih ∙ rw f whole)

-- The dump of a buffer is two lowercase digits for each of its bytes, and then one zero byte.
pub dump-hex : (m : Memory) (arr size : ℕ) → dump m arr size ≡ hex (load m arr size) ++ 0 ∷ []
unfolding dump
dump-hex m arr size =
    dump_loop-hex m arr size 0 [] refl ∙ ap (λ a. hex (load m a size) ++ 0 ∷ []) (add-zero arr)

abbrev pub AreBytes : List ℕ → Type 0
AreBytes [] = Unit {0}
AreBytes (b ∷ bs) = (b < 256) × AreBytes bs

digit_value-hex_digit : (d : ℕ) → d < 16 → digit_value (hex_digit d) ≡ d
unfolding digit_value hex_digit
digit_value-hex_digit d h = ground arith

unhex-hex : (bs : List ℕ) → AreBytes bs → unhex (hex bs ++ 0 ∷ []) ≡ bs
unfolding unhex hex
unhex-hex [] h = refl
unhex-hex (b ∷ bs) h =
    ap₂ ◌∷◌
      (omega (
        arith,
        digit_value-hex_digit (b / 16) (omega arith),
        digit_value-hex_digit (b % 16) (omega arith),
      ))
      (unhex-hex bs h.1)

-- What a buffer holds can be read back from its dump, if every cell of it is a byte: no two such buffers
-- have one dump.
pub unhex-dump :
    (m : Memory) (arr size : ℕ)
    → AreBytes (load m arr size)
    → unhex (dump m arr size) ≡ load m arr size
unhex-dump m arr size h = rw (dump-hex m arr size) (unhex-hex (load m arr size) h)
