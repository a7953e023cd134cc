-- ===== src/Tcp/Ostream/Chunks.antt =====
-- Chunks of one size as one sequence of bytes, and writes into a chunk.

use libkngin.Base.{
  ℕ, zero, suc, ◌+◌, ◌*◌, ◌≤◌, ◌<◌, ◌≡◌, ◌⊎◌, inl, inr, refl, ap, sym, ◌∙◌, List, [], ◌∷◌, ◌++◌,
  append_assoc, some, arith, length, length-append, length-take, length-drop, take, drop, set,
  get_elem?,
}
use libkngin.Tcp.Ostream.{splice}

module _ {ℓ} {A : Type ℓ} where
  pub take-append_le : (n : ℕ) (xs ys : List A) → n ≤ length xs → take n (xs ++ ys) ≡ take n xs
  take-append_le zero xs ys h = refl
  take-append_le (suc n) [] ys h = absurd (omega arith)
  take-append_le (suc n) (x ∷ xs) ys h = ap (λ l. x ∷ l) (take-append_le n xs ys (omega arith))

  pub take-append_add :
      (n k : ℕ) (xs ys : List A) → n ≡ length xs + k → take n (xs ++ ys) ≡ xs ++ take k ys
  take-append_add n k [] ys h = ap (λ j. take j ys) (omega arith)
  take-append_add zero k (x ∷ xs) ys h = absurd (omega arith)
  take-append_add (suc n) k (x ∷ xs) ys h =
      ap (λ l. x ∷ l) (take-append_add n k xs ys (omega arith))

  pub take_all : (n : ℕ) (xs : List A) → length xs ≤ n → take n xs ≡ xs
  take_all zero [] h = refl
  take_all zero (x ∷ xs) h = absurd (omega arith)
  take_all (suc n) [] h = refl
  take_all (suc n) (x ∷ xs) h = ap (λ l. x ∷ l) (take_all n xs (omega arith))

  pub drop_all : (n : ℕ) (xs : List A) → length xs ≤ n → drop n xs ≡ []
  drop_all zero [] h = refl
  drop_all zero (x ∷ xs) h = absurd (omega arith)
  drop_all (suc n) [] h = refl
  drop_all (suc n) (x ∷ xs) h = drop_all n xs (omega arith)

  pub drop-append_le :
      (n : ℕ) (xs ys : List A) → n ≤ length xs → drop n (xs ++ ys) ≡ drop n xs ++ ys
  drop-append_le zero xs ys h = refl
  drop-append_le (suc n) [] ys h = absurd (omega arith)
  drop-append_le (suc n) (x ∷ xs) ys h = drop-append_le n xs ys (omega arith)

  pub take-take : (m n : ℕ) (xs : List A) → m ≤ n → take m (take n xs) ≡ take m xs
  take-take zero n xs h = refl
  take-take (suc m) zero xs h = absurd (omega arith)
  take-take (suc m) (suc n) [] h = refl
  take-take (suc m) (suc n) (x ∷ xs) h = ap (λ l. x ∷ l) (take-take m n xs (omega arith))

  pub List-cases : (xs : List A) → (xs ≡ []) ⊎ ((x : A) × (ys : List A) × (xs ≡ x ∷ ys))
  List-cases [] = inl refl
  List-cases (x ∷ xs) = inr (x, xs, refl)

  pub length-set : (xs : List A) (i : ℕ) (v : A) → length (set xs i v) ≡ length xs
  length-set [] i v = refl
  length-set (x ∷ xs) zero v = refl
  length-set (x ∷ xs) (suc i) v = ap suc (length-set xs i v)

  pub get_elem?_in : (xs : List A) (i : ℕ) → i < length xs → (x : A) × (get_elem? xs i ≡ some x)
  get_elem?_in [] i h = absurd (omega arith)
  get_elem?_in (x ∷ xs) zero h = (x, refl)
  get_elem?_in (x ∷ xs) (suc i) h = get_elem?_in xs i (omega arith)

unfoldable pub joined : List (List ℕ) → List ℕ
joined [] = []
joined (c ∷ cs) = c ++ joined cs

-- Every chunk has `n` bytes.
abbrev pub Sized : ℕ → List (List ℕ) → Type 0
Sized n [] = Unit {0}
Sized n (c ∷ cs) = (length c ≡ n) × Sized n cs

pub length-joined : (n : ℕ) (cs : List (List ℕ)) → Sized n cs → length (joined cs) ≡ n * length cs
unfolding joined
length-joined n [] s = omega arith
length-joined n (c ∷ cs) s = omega (arith, length-append c (joined cs), length-joined n cs s.1, s.0)

pub Sized-append : (n : ℕ) (cs ds : List (List ℕ)) → Sized n cs → Sized n ds → Sized n (cs ++ ds)
Sized-append n [] ds s t = t
Sized-append n (c ∷ cs) ds s t = (s.0, Sized-append n cs ds s.1 t)

pub joined-append : (cs ds : List (List ℕ)) → joined (cs ++ ds) ≡ joined cs ++ joined ds
unfolding joined
joined-append [] ds = refl
joined-append (c ∷ cs) ds =
    ap (λ l. c ++ l) (joined-append cs ds) ∙ sym (append_assoc c (joined cs) (joined ds))

length-splice :
    (c : List ℕ) (i : ℕ) (bs : List ℕ)
    → i + length bs ≤ length c
    → length (splice c i bs) ≡ length c
unfolding splice
length-splice c i bs h = omega (
  arith,
  length-append (take i c) (bs ++ drop (i + length bs) c),
  length-append bs (drop (i + length bs) c),
  length-take i c,
  length-drop (i + length bs) c,
)

take-splice :
    (c : List ℕ) (index m k : ℕ) (bs rest : List ℕ)
    → m ≡ index + length bs
    → k ≡ index
    → m ≤ length c
    → take m (splice c index bs ++ rest) ≡ take k (c ++ rest) ++ bs
unfolding splice
take-splice c index m k bs rest e f h =
    let tail = drop (index + length bs) c in
    let inner : take (length bs) ((bs ++ tail) ++ rest) ≡ bs =
      take-append_le (length bs) (bs ++ tail) rest (omega (arith, length-append bs tail))
      ∙ take-append_le (length bs) bs tail (omega arith)
      ∙ take_all (length bs) bs (omega arith) in
    ap (λ l. take m l) (append_assoc (take index c) (bs ++ tail) rest)
    ∙ take-append_add m (length bs) (take index c) ((bs ++ tail) ++ rest)
        (omega (arith, length-take index c))
    ∙ ap (λ l. take index c ++ l) inner
    ∙ ap (λ j. take j c ++ bs) (sym f)
    ∙ ap (λ l. l ++ bs) (sym (take-append_le k c rest (omega arith)))

-- A write into the chunk `which` leaves what is before it, and the chunks keep their size.
pub write_chunk :
    (n : ℕ) (cs : List (List ℕ)) (which index : ℕ) (bs : List ℕ) {c : List ℕ}
    → Sized n cs
    → get_elem? cs which ≡ some c
    → index + length bs ≤ n
    → (take (which * n + (index + length bs)) (joined (set cs which (splice c index bs)))
        ≡ take (which * n + index) (joined cs) ++ bs)
      × Sized n (set cs which (splice c index bs))
unfolding joined
write_chunk n [] which index bs s e h = cc
write_chunk n (d ∷ cs) zero index bs {c} s e h =
    let same : d ≡ c = cc in
    let len : length d ≡ n = s.0 in
    let clen : length c ≡ n = rw (← same) len in
    (
      take-splice c index (0 * n + (index + length bs)) (0 * n + index) bs (joined cs) (omega arith)
            (omega arith) (omega arith)
          ∙ ap (λ l. take (0 * n + index) (l ++ joined cs) ++ bs) (sym same),
      (length-splice c index bs (omega arith) ∙ clen, s.1),
    )
write_chunk n (d ∷ cs) (suc which) index bs {c} s e h =
    let (ih, sized) = write_chunk n cs which index bs s.1 e h in
    (
      take-append_add (suc which * n + (index + length bs)) (which * n + (index + length bs)) d
            (joined (set cs which (splice c index bs))) (omega (arith, s.0))
          ∙ ap (λ l. d ++ l) ih
          ∙ sym (append_assoc d (take (which * n + index) (joined cs)) bs)
          ∙ ap (λ l. l ++ bs)
              (sym (
                take-append_add (suc which * n + index) (which * n + index) d (joined cs)
                  (omega (arith, s.0)))),
      (s.0, sized),
    )
