-- ===== src/Socket/Flags/Laws.antt =====
-- What setting a flag of a descriptor does to that flag and to the others.
use Prim.Native.Nat.{bit_and, bit_or}
use libkngin.Base.{
  ℕ, ◌-◌, ◌^◌, ◌<◌, ◌≡◌, refl, sym, ap, ◌∙◌, ◌⊎◌, inl, inr, Bool, true, false, ◌==◌, arith,
  Bool-cases, if◌then◌else◌,
}
use libkngin.Base.Bits.{
  test_bit, test_bit-or, test_bit-and, test_bit-two_pow, test_bit-clear_mask, test_bit-mask,
  bit_and-two_pow_right, two_pow_ne_zero,
}
use libkngin.Base.Int.{ℤ}
use libkngin.Base.Result.{Result, ok, throw, system_error}
use libkngin.Base.Run.{Run, done, fault}
use libkngin.Tcp.World.{Errno, success}
use libkngin.Socket.{Answer, returned, refused}
use libkngin.Socket.Flags.{
  invalid, value_of, with_flag, has_flag, set_flag, set_flag_ec, flag, flag_ec,
}

has_flag-test : (p flags : ℕ) → has_flag p flags ≡ test_bit flags p
unfolding has_flag
has_flag-test p flags = ground (arith, bit_and-two_pow_right p flags, two_pow_ne_zero p)

-- The flag `p` of a word is as it has been set, and each other as it was.
has_flag-with_flag :
    (p q flags : ℕ) (on : Bool)
    → p < 32
    → q < 32
    → has_flag q (with_flag p on flags) ≡ (if q == p then on else has_flag q flags)
unfolding with_flag
has_flag-with_flag p q flags true hp hq = ground (
  arith,
  has_flag-test q (bit_or flags (2 ^ p)),
  has_flag-test q flags,
  test_bit-or q flags (2 ^ p),
  test_bit-two_pow q p,
)
has_flag-with_flag p q flags false hp hq = ground (
  arith,
  has_flag-test q (bit_and flags (2 ^ 32 - 1 - 2 ^ p)),
  has_flag-test q flags,
  test_bit-and q flags (2 ^ 32 - 1 - 2 ^ p),
  test_bit-clear_mask 32 q p hp,
)

has_flag-ones : (q : ℕ) → q < 32 → has_flag q (2 ^ 32 - 1) ≡ true
has_flag-ones q h = has_flag-test q (2 ^ 32 - 1) ∙ test_bit-mask 32 q ∙ ground arith

-- `fcntl` keeps the flags that it has been given, of those that it can change: a call that succeeds
-- is followed by one that reads them back.
module _ {K : Type 0} (get : ℤ → K → Answer ℕ) (set : ℤ → ℕ → K → Answer (Unit {0}) × K) where
  abbrev pub Keeps : (ℕ → Bool) → Type 0
  Keeps settable =
      (h : ℤ) (flags : ℕ) (k k' : K)
      → set h flags k ≡ (returned tt, k')
      → (flags' : ℕ) × (get h k' ≡ returned flags')
        × ((q : ℕ) → settable q ≡ true → has_flag q flags' ≡ has_flag q flags)

  abbrev answered : Answer (Unit {0}) × K → Run (Result (Unit {0}) × K)
  answered (returned v, k1) = done (ok tt, k1)
  answered (refused er, k1) = done (throw system_error, k1)

  to_answered :
      (r : Answer (Unit {0}) × K)
      → elim r.0 [ returned v ↦ done (ok tt, r.1) | refused er ↦ done (throw system_error, r.1) ]
        ≡ answered r
  to_answered (returned v, k1) = refl
  to_answered (refused er, k1) = refl

  from_answered :
      (r : Answer (Unit {0}) × K) (k' : K) → answered r ≡ done (ok tt, k') → r ≡ (returned tt, k')
  from_answered (returned v, k1) k' h =
      let same : k1 ≡ k' = cc in ap (λ (x : K). (returned tt, x)) same
  from_answered (refused er, k1) k' h = cc

  set_flag-fault :
      (p : ℕ) (h : ℤ) (on : Bool) (k : K) → invalid h ≡ true → set_flag get set p h on k ≡ fault
  unfolding set_flag
  set_flag-fault p h on k bad = rw bad refl

  set_flag-answered :
      (p : ℕ) (h : ℤ) (on : Bool) (k : K)
      → invalid h ≡ false
      → set_flag get set p h on k ≡ answered (set h (with_flag p on (value_of (get h k))) k)
  unfolding set_flag
  set_flag-answered p h on k good =
      rw good (to_answered (set h (with_flag p on (value_of (get h k))) k))

  -- The call of `fcntl` behind a `set_flag` that returns.
  set_flag-set :
      (p : ℕ) (h : ℤ) (on : Bool) (k k' : K)
      → set_flag get set p h on k ≡ done (ok tt, k')
      → (invalid h ≡ false) × (set h (with_flag p on (value_of (get h k))) k ≡ (returned tt, k'))
  set_flag-set p h on k k' e = elim (Bool-cases (invalid h)) [
    | inl bad ↦ cc (sym (set_flag-fault p h on k bad) ∙ e)
    | inr good ↦ (
      good,
      from_answered (set h (with_flag p on (value_of (get h k))) k) k'
          (sym (set_flag-answered p h on k good) ∙ e),
    )
  ]

  -- The flag `q` once `p` has been set.
  flag-after :
      (settable : ℕ → Bool) (keeps : Keeps settable) (p q : ℕ) (h : ℤ) (on : Bool) (k k' : K)
      → p < 32
      → q < 32
      → settable q ≡ true
      → set_flag get set p h on k ≡ done (ok tt, k')
      → (flag get set q h k' ≡ done (ok (if q == p then on else has_flag q (value_of (get h k)))))
        × (flag_ec get set q h k'
            ≡ done (if q == p then on else has_flag q (value_of (get h k)), success))
  unfolding flag flag_ec
  flag-after settable keeps p q h on k k' hp hq s e =
      let (good, call) = set_flag-set p h on k k' e in
      let (flags', read, same) = keeps h (with_flag p on (value_of (get h k))) k k' call in
      let bit = same q s ∙ has_flag-with_flag p q (value_of (get h k)) on hp hq in
      (rw (good, read, bit) refl, rw (good, read, bit) refl)

  abbrev answered_ec : Answer (Unit {0}) × K → Run (Errno × K)
  answered_ec r = elim r.0 [ returned v ↦ done (success, r.1) | refused er ↦ done (er, r.1) ]

  set_flag_ec-set_flag :
      (p : ℕ) (h : ℤ) (on : Bool) (k k' : K)
      → set_flag get set p h on k ≡ done (ok tt, k')
      → set_flag_ec get set p h on k ≡ done (success, k')
  unfolding set_flag_ec
  set_flag_ec-set_flag p h on k k' e =
      let (good, call) = set_flag-set p h on k k' e in rw good (ap answered_ec call)

  -- With an `fcntl` that keeps what it is given of the flags that it can change, for such a flag:
  -- where `set_nonblock` or `set_closeexec` returns, its variant with `ec` has the same effect and
  -- sets no error, and both variants of `nonblock` or `closeexec` then give the flag as it was set.
  pub flag-set_flag :
      (settable : ℕ → Bool)
      → Keeps settable
      → (p : ℕ) (h : ℤ) (on : Bool) (k k' : K) → p < 32
      → settable p ≡ true
      → set_flag get set p h on k ≡ done (ok tt, k')
      → (set_flag_ec get set p h on k ≡ done (success, k'))
        × (flag get set p h k' ≡ done (ok on))
        × (flag_ec get set p h k' ≡ done (on, success))
  flag-set_flag settable keeps p h on k k' hp s e =
      let (a, b) = flag-after settable keeps p p h on k k' hp hp s e in
      let self : (if p == p then on else has_flag p (value_of (get h k))) ≡ on = ground arith in
      (
        set_flag_ec-set_flag p h on k k' e,
        a ∙ ap (λ (b : Bool). done (ok b)) self,
        b ∙ ap (λ (b : Bool). done (b, success)) self,
      )

  -- With an `fcntl` that keeps what it is given of the flags that it can change, setting a flag leaves
  -- every other one that can be changed as it was when the flags could be read; when they could not,
  -- and the write succeeds all the same, it sets all of these others.
  pub flag-set_flag_other :
      (settable : ℕ → Bool)
      → Keeps settable
      → (p q : ℕ) (h : ℤ) (on : Bool) (k k' : K) → p < 32
      → q < 32
      → (q == p) ≡ false
      → settable q ≡ true
      → set_flag get set p h on k ≡ done (ok tt, k')
      → ((flag get set q h k' ≡ flag get set q h k)
          × (flag_ec get set q h k' ≡ flag_ec get set q h k))
        ⊎ ((flag get set q h k ≡ done (throw system_error))
            × (flag get set q h k' ≡ done (ok true)))
  unfolding flag flag_ec
  flag-set_flag_other settable keeps p q h on k k' hp hq d s e =
      let (good, call) = set_flag-set p h on k k' e in
      let (a, b) = flag-after settable keeps p q h on k k' hp hq s e in
      elim (answers (get h k)) [
        | inl (flags, read) ↦
            let other : (if q == p then on else has_flag q (value_of (get h k)))
                ≡ has_flag q flags =
              rw (d, read) refl in
            inl (rw (a, other, good, read) refl, rw (b, other, good, read) refl)
        | inr (er, read) ↦
            let other : (if q == p then on else has_flag q (value_of (get h k))) ≡ true =
              rw (d, read) (has_flag-ones q hq) in
            inr (rw (good, read) refl, a ∙ ap (λ (v : Bool). done (ok v)) other)
      ]
    where
      answers :
          (a : Answer ℕ) → ((flags : ℕ) × (a ≡ returned flags)) ⊎ ((er : Errno) × (a ≡ refused er))
      answers (returned flags) = inl (flags, refl)
      answers (refused er) = inr (er, refl)
