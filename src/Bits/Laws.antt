-- ===== src/Bits/Laws.antt =====
-- What the functions of bits.h do to each bit.
use Prim.Native.Nat.{bit_and, bit_or}
use libkngin.Base.{
  ℕ, ◌-◌, ◌^◌, ◌≤◌, ◌<◌, ◌≡◌, refl, ◌∙◌, ◌⊎◌, inl, inr, Bool, true, false, ◌&&◌, ◌||◌, not, List,
  [], ◌∷◌, ◌==◌, arith, Bool-cases,
}
use libkngin.Base.Bits.{
  test_bit, test_bit-or, test_bit-and, test_bit-two_pow, test_bit-clear_mask, bit_and-two_pow,
  two_pow_ne_zero,
}
use libkngin.Base.Int.{ℤ, pos, negsuc, pos_part}
use libkngin.Base.Result.{ok, throw, out_of_range}
use libkngin.Bits.{is_bit_set, clear_bit, in_range, set_bits, clear_bits, is_bits_set, bits_value}

-- Every position is one of the word; the bit `k` is among the positions.
abbrev pub are_in_range : ℕ → List ℤ → Bool
are_in_range w [] = true
are_in_range w (p ∷ ps) = in_range w p && are_in_range w ps

abbrev pub names : ℕ → List ℤ → Bool
names k [] = false
names k (p ∷ ps) = (k == pos_part p) || names k ps

-- `set_bits` sets the bits at the positions and leaves the others, if every position is one of the
-- word, and throws if one is not.
pub set_bits_lem :
    (w val : ℕ) (ps : List ℤ)
    → ((are_in_range w ps ≡ true)
        × (r : ℕ) × (set_bits w val ps ≡ ok r)
        × ((k : ℕ) → test_bit r k ≡ (names k ps || test_bit val k)))
      ⊎ ((are_in_range w ps ≡ false) × (set_bits w val ps ≡ throw out_of_range))
unfolding set_bits
set_bits_lem w val [] = inl (refl, val, refl, λ k. refl)
set_bits_lem w val (p ∷ ps) = elim (Bool-cases (in_range w p)) [
  | inr bad ↦ inr (rw bad, ground arith)
  | inl ok' ↦ elim (set_bits_lem w val ps) [
    | inr (bad, e) ↦ inr (ground arith, ground arith)
    | inl (good, r, e, bits) ↦ inl (
      ground arith,
      bit_or (2 ^ pos_part p) r,
      ground arith,
      λ k.
          ground (arith, test_bit-or k (2 ^ pos_part p) r, test_bit-two_pow k (pos_part p), bits k),
    )
  ]
]

test_bit-clear :
    (w val : ℕ) (p : ℤ) (k : ℕ)
    → in_range w p ≡ true
    → k < w
    → test_bit (clear_bit w val (pos_part p)) k ≡ (not (k == pos_part p) && test_bit val k)
unfolding in_range clear_bit
test_bit-clear w val (pos p) k good h =
    ground (arith, test_bit-and k (2 ^ w - 1 - 2 ^ p) val, test_bit-clear_mask w k p (ground arith))
test_bit-clear w val (negsuc p) k good h = cc

-- `clear_bits` clears the bits of the word at the positions and leaves its others, if every
-- position is one of the word, and throws if one is not.
pub clear_bits_lem :
    (w val : ℕ) (ps : List ℤ)
    → ((are_in_range w ps ≡ true)
        × (r : ℕ) × (clear_bits w val ps ≡ ok r)
        × ((k : ℕ) → k < w → test_bit r k ≡ (not (names k ps) && test_bit val k)))
      ⊎ ((are_in_range w ps ≡ false) × (clear_bits w val ps ≡ throw out_of_range))
unfolding clear_bits
clear_bits_lem w val [] = inl (refl, val, refl, λ k h. refl)
clear_bits_lem w val (p ∷ ps) = elim (Bool-cases (in_range w p)) [
  | inr bad ↦ inr (rw bad, ground arith)
  | inl good ↦ elim (clear_bits_lem w val ps) [
    | inr (bad, e) ↦ inr (ground arith, ground arith)
    | inl (goods, r, e, bits) ↦ inl (
      ground arith,
      bit_and (clear_bit w val (pos_part p)) r,
      ground arith,
      λ k h. ground (
        arith,
        test_bit-and k (clear_bit w val (pos_part p)) r,
        test_bit-clear w val p k good h,
        bits k h,
      ),
    )
  ]
]

is_bit_set-test : (val p : ℕ) → is_bit_set val p ≡ test_bit val p
unfolding is_bit_set
is_bit_set-test val p = ground (arith, bit_and-two_pow p val, two_pow_ne_zero p)

abbrev pub all_set : ℕ → List ℤ → Bool
all_set val [] = true
all_set val (p ∷ ps) = test_bit val (pos_part p) && all_set val ps

-- For positions of the word `is_bits_set` says whether all of them are set.
pub is_bits_set_lem :
    (w val : ℕ) (ps : List ℤ)
    → are_in_range w ps ≡ true
    → is_bits_set w val ps ≡ ok (all_set val ps)
unfolding is_bits_set
is_bits_set_lem w val [] h = refl
is_bits_set_lem w val (p ∷ ps) h =
    ground (arith, is_bit_set-test val (pos_part p), is_bits_set_lem w val ps)

all_set-names :
    (val : ℕ) (ps qs : List ℤ)
    → ((k : ℕ) → names k qs ≡ true → test_bit val k ≡ true)
    → ((k : ℕ) → names k ps ≡ true → names k qs ≡ true)
    → all_set val ps ≡ true
all_set-names val [] qs h sub = refl
all_set-names val (p ∷ ps) qs h sub = ground (
  arith,
  h (pos_part p) (sub (pos_part p) (ground arith)),
  all_set-names val ps qs h (λ k m. sub k (ground arith)),
)

-- What `set_bits` has set, `is_bits_set` finds set.
pub is_bits_set-set_bits :
    (w val r : ℕ) (ps : List ℤ) → set_bits w val ps ≡ ok r → is_bits_set w r ps ≡ ok true
is_bits_set-set_bits w val r ps e = elim (set_bits_lem w val ps) [
  | inr (_, e') ↦ cc
  | inl (good, r', e', bits) ↦
      let same : r' ≡ r = cc in
      let all : all_set r' ps ≡ true =
        all_set-names r' ps ps (λ k m. ground (arith, bits k)) (λ k m. m) in
      rw (← same) (is_bits_set_lem w r' ps good ∙ rw all refl)
]

-- `bits_value<Type>` refuses every position from 32 on, whatever the width of `Type`.
pub bits_value-throw :
    (w p : ℕ) (ps : List ℤ) → 32 ≤ p → bits_value w (pos p ∷ ps) ≡ throw out_of_range
unfolding bits_value
bits_value-throw w p ps h = ground arith
