-- ===== src/EpollReactor/Laws.antt =====
-- What `wait` of libkngin/detail/core/event/impl/epoll_reactor.cpp makes of the kernel's reports.
use mathlib.Core.Path.{ap₂}
use Prim.Native.Nat.{bit_and, bit_or}
use libkngin.Base.{
  ℕ, zero, suc, ◌+◌, ◌/◌, ◌^◌, Option-cases, ◌≡◌, ◌≤◌, ◌<◌, refl, ap, sym, ◌∙◌, Bool, true, false,
  ◌||◌, List, [], ◌∷◌, ◌++◌, append_assoc, append-nil, Option, none, some, ◌==◌, if◌then◌else◌,
  length, arith, Bool-cases, inl, inr, ◌⊎◌,
}
use libkngin.Base.Bits.{test_bit, and-digit, bit_and-two_pow_right, two_pow_ne_zero}
use libkngin.Base.Result.{ok, throw, system_error}
use libkngin.EpollReactor.{Report, Actived, reports, meets, add_type, type_of, wait_loop, wait}

-- The events of the reports in order, without the waker's.
pub actives : List Report → List Actived
actives [] = []
actives (r ∷ rs) = elim r.event [
  | none ↦ actives rs
  | some ev ↦ record { event = ev; type = type_of r.bits } ∷ actives rs
]

pub wakers : List Report → ℕ
wakers [] = 0
wakers (r ∷ rs) = elim r.event [ none ↦ suc (wakers rs) | some ev ↦ wakers rs ]

pair : List Actived → ℕ → List Actived × ℕ
pair list n = (list, n)

-- Whether a read of the waker fails, and the reports up to the first at which it does.
pub any_fails : List Report → Bool
any_fails [] = false
any_fails (r ∷ rs) = elim r.event [ none ↦ r.read_fails || any_fails rs | some ev ↦ any_fails rs ]

pub handled : List Report → List Report
handled [] = []
handled (r ∷ rs) = elim r.event [
  | none ↦ if r.read_fails then r ∷ [] else r ∷ handled rs
  | some ev ↦ r ∷ handled rs
]

wait_loop_lem :
    (rs : List Report) (list : List Actived) (n : ℕ)
    → wait_loop rs list n ≡ (any_fails rs, list ++ actives (handled rs), n + wakers (handled rs))
unfolding wait_loop actives wakers any_fails handled
wait_loop_lem [] list n =
    ap₂ (λ (l : List Actived) (k : ℕ). (false, l, k)) (sym (append-nil list)) (omega arith)
wait_loop_lem (r ∷ rs) list n = elim (Option-cases r.event) [
  | inl e ↦ elim (Bool-cases r.read_fails) [
    | inl f ↦
        rw (e, f, e)
          (ap₂ (λ (l : List Actived) (k : ℕ). (true, l, k)) (sym (append-nil list)) (omega arith))
    | inr f ↦
        rw (e, f, e)
          (wait_loop_lem rs list (n + 1)
            ∙ ap (λ (k : ℕ). (any_fails rs, list ++ actives (handled rs), k)) (omega arith))
  ]
  | inr (ev, e) ↦
      let a : Actived = record { event = ev; type = type_of r.bits } in
      rw (e, e)
        (wait_loop_lem rs (list ++ a ∷ []) n
          ∙ ap (λ (l : List Actived). (any_fails rs, l, n + wakers (handled rs)))
              (append_assoc list (a ∷ []) (actives (handled rs))))
]

handled-all : (rs : List Report) → any_fails rs ≡ false → handled rs ≡ rs
unfolding any_fails handled
handled-all [] h = refl
handled-all (r ∷ rs) h = elim (Option-cases r.event) [
  | inl e ↦
      let fails : (r.read_fails || any_fails rs) ≡ false =
        sym (
          ap
            (λ (o : Option ℕ). elim o [
              | none ↦ r.read_fails || any_fails rs
              | some ev ↦ any_fails rs
            ])
            e)
        ∙ h in
      let reads : r.read_fails ≡ false = ground arith in
      let later : any_fails rs ≡ false = ground arith in
      ap
        (λ (o : Option ℕ). elim o [
          | none ↦ if r.read_fails then r ∷ [] else r ∷ handled rs
          | some ev ↦ r ∷ handled rs
        ])
        e
      ∙ ap (λ (b : Bool). if b then r ∷ [] else r ∷ handled rs) reads
      ∙ ap (λ (l : List Report). r ∷ l) (handled-all rs later)
  | inr (ev, e) ↦
      let later : any_fails rs ≡ false =
        sym (
          ap
            (λ (o : Option ℕ). elim o [
              | none ↦ r.read_fails || any_fails rs
              | some ev' ↦ any_fails rs
            ])
            e)
        ∙ h in
      ap
        (λ (o : Option ℕ). elim o [
          | none ↦ if r.read_fails then r ∷ [] else r ∷ handled rs
          | some ev' ↦ r ∷ handled rs
        ])
        e
      ∙ ap (λ (l : List Report). r ∷ l) (handled-all rs later)
]

meets-flag : (bits flag : ℕ) → meets bits (2 ^ flag) ≡ test_bit bits flag
unfolding meets
meets-flag bits flag = ground (arith, bit_and-two_pow_right flag bits, two_pow_ne_zero flag)

and_zero : (n b : ℕ) → b ≤ n → bit_and b 0 ≡ 0
and_zero zero zero h = refl
and_zero zero (suc b) h = absurd (omega arith)
and_zero (suc n) b h = elim (Bool-cases (b == 0)) [
  | inl e ↦ let none_left : b ≡ 0 = ground arith in rw none_left refl
  | inr e ↦
      let some_left : 0 < b = ground arith in
      omega (arith, and-digit b 0, and_zero n (b / 2) (omega arith))
]

-- The three types that are combined.
types :
    (a b c : Bool)
    → let in_flags = if a then bit_or 0 1 else 0 in
      let out_flags = if b then bit_or in_flags 2 else in_flags in
      (if c then bit_or out_flags 8 else out_flags)
      ≡ (if a then 1 else 0) + (if b then 2 else 0) + (if c then 8 else 0)
types true true true = refl
types true true false = refl
types true false true = refl
types true false false = refl
types false true true = refl
types false true false = refl
types false false true = refl
types false false false = refl

meets-lost : (bits : ℕ) → meets bits 24 ≡ (test_bit bits 3 || test_bit bits 4)
unfolding meets test_bit
meets-lost bits =
    let s0 = and-digit bits 24 in
    let s1 = and-digit (bits / 2) 12 in
    let s2 = and-digit (bits / 2 / 2) 6 in
    let s3 = and-digit (bits / 2 / 2 / 2) 3 in
    let s4 = and-digit (bits / 2 / 2 / 2 / 2) 1 in
    let s5 = and_zero bits (bits / 2 / 2 / 2 / 2 / 2) (omega arith) in ground arith

-- An event that the kernel reports with an error or a hangup is an error only; any other is a read,
-- a write and urgent data as `EPOLLIN`, `EPOLLOUT` and `EPOLLPRI` are set.
pub type_of_lem :
    (bits : ℕ)
    → (type_of bits ≡ (
        if test_bit bits 3 || test_bit bits 4
        then 4
        else (if test_bit bits 0 then 1 else 0)
          + (if test_bit bits 2 then 2 else 0)
          + (if test_bit bits 1 then 8 else 0)))
unfolding type_of add_type
type_of_lem bits =
    rw (meets-lost, meets-flag bits 0, meets-flag bits 1, meets-flag bits 2)
      (ap (λ (t : ℕ). if test_bit bits 3 || test_bit bits 4 then 4 else t)
        (types (test_bit bits 0) (test_bit bits 2) (test_bit bits 1)))

counts : (rs : List Report) → length rs ≡ length (actives rs) + wakers rs
unfolding actives wakers
counts [] = refl
counts (r ∷ rs) = elim (Option-cases r.event) [
  | inl e ↦ rw e (omega (arith, counts rs))
  | inr (ev, e) ↦ rw e (omega (arith, counts rs))
]

-- `wait` appends one active event for each report but those of the waker, in their order, answers each
-- of those with one `on_wakeup`, and returns the number of reports, these included. At the first read
-- of the waker that fails it throws instead, and what it has appended by then stays in the list.
pub wait_lem :
    (rs : List Report) (list : List Actived)
    → (wait (reports rs) list ≡ (
      if any_fails rs then throw system_error else ok (length rs),
      list ++ actives (handled rs),
      wakers (handled rs),
    ))
      × ((any_fails rs ≡ true) ⊎ (handled rs ≡ rs))
      × (length rs ≡ length (actives rs) + wakers rs)
unfolding wait
wait_lem rs list = (
  ap
        (λ (r : Bool × List Actived × ℕ).
          (if r.0 then throw system_error else ok (length rs), r.1, r.2))
        (wait_loop_lem rs list 0)
      ∙ ap
          (λ (n : ℕ). (
            if any_fails rs then throw system_error else ok (length rs),
            list ++ actives (handled rs),
            n,
          ))
          (omega arith),
  elim (Bool-cases (any_fails rs)) [ inl f ↦ inl f | inr f ↦ inr (handled-all rs f) ],
  counts rs,
)
