-- ===== src/ObjMgr/Owners.antt =====
-- Which object each node holds: the nodes of a manager and the objects in them, in one order.
use libkngin.Base.{
  ℕ, ◌≡◌, refl, ◌∙◌, ap, true, false, List, [], ◌∷◌, ◌++◌, length, arith, mem, Option, some, ◌==◌,
  Bool-cases, inl, inr, ==_iff,
}

module _ (ptr node : ℕ → Option ℕ) where
  -- The nodes hold the objects, one each, and the objects know their nodes.
  abbrev pub Owns : List ℕ → List ℕ → Type 0
  Owns [] [] = Unit {0}
  Owns (x ∷ xs) (o ∷ os) = (ptr x ≡ some o) × (node o ≡ some x) × Owns xs os
  Owns [] (o ∷ os) = ⊥
  Owns (x ∷ xs) [] = ⊥

  pub length-Owns : (xs os : List ℕ) → Owns xs os → length xs ≡ length os
  length-Owns [] [] w = refl
  length-Owns [] (o ∷ os) w = elim w [ ]
  length-Owns (x ∷ xs) [] w = elim w [ ]
  length-Owns (x ∷ xs) (o ∷ os) w = omega (arith, length-Owns xs os w.2)

  pub Owns-append : (xs ys os ps : List ℕ) → Owns xs os → Owns ys ps → Owns (xs ++ ys) (os ++ ps)
  Owns-append [] ys [] ps v w = w
  Owns-append [] ys (o ∷ os) ps v w = elim v [ ]
  Owns-append (x ∷ xs) ys [] ps v w = elim v [ ]
  Owns-append (x ∷ xs) ys (o ∷ os) ps v w = (v.0, v.1, Owns-append xs ys os ps v.2 w)

  -- Where an object is, the nodes split like the objects.
  pub Owns-split :
      (ns os ps : List ℕ) (o : ℕ)
      → Owns ns (os ++ o ∷ ps)
      → (xs : List ℕ) × (x : ℕ) × (ys : List ℕ) × (ns ≡ xs ++ x ∷ ys)
        × (ptr x ≡ some o)
        × (node o ≡ some x)
        × Owns xs os
        × Owns ys ps
  Owns-split [] [] ps o w = elim w [ ]
  Owns-split [] (p ∷ os) ps o w = elim w [ ]
  Owns-split (x ∷ xs) [] ps o w = ([], x, xs, refl, w.0, w.1, tt, w.2)
  Owns-split (x ∷ xs) (p ∷ os) ps o w =
      let (us, y, vs, e, a, b, c, d) = Owns-split xs os ps o w.2 in
      (x ∷ us, y, vs, ap (λ l. x ∷ l) e, a, b, (w.0, w.1, c), d)

  -- An object that a node holds points to that node, which is among the nodes.
  pub node_of :
      (xs os : List ℕ) (o : ℕ)
      → Owns xs os
      → mem o os ≡ true
      → (x : ℕ) × (node o ≡ some x) × (mem x xs ≡ true)
  node_of xs [] o w m = cc
  node_of [] (p ∷ os) o w m = elim w [ ]
  node_of (x ∷ xs) (p ∷ os) o w m = elim (Bool-cases (o == p)) [
    | inl e ↦ (x, rw ((==_iff o p).0 e) w.1, ground arith)
    | inr e ↦ let (y, a, b) = node_of xs os o w.2 (ground arith) in (y, a, ground arith)
  ]

  -- An object whose node is not among the nodes is in none of them.
  pub not_among :
      (xs os : List ℕ) (o x : ℕ)
      → Owns xs os
      → node o ≡ some x
      → mem x xs ≡ false
      → mem o os ≡ false
  not_among xs os o x w e out = elim (Bool-cases (mem o os)) [
    | inl t ↦ let (y, a, b) = node_of xs os o w t in let same : y ≡ x = cc in ground arith
    | inr f ↦ f
  ]

  -- A node among those that hold objects holds one, which points to it.
  pub object_of :
      (xs os : List ℕ) (x : ℕ)
      → Owns xs os
      → mem x xs ≡ true
      → (o : ℕ) × (ptr x ≡ some o) × (node o ≡ some x) × (mem o os ≡ true)
  object_of [] os x w m = cc
  object_of (y ∷ xs) [] x w m = elim w [ ]
  object_of (y ∷ xs) (p ∷ os) x w m = elim (Bool-cases (x == y)) [
    | inl e ↦ (p, rw ((==_iff x y).0 e) w.0, rw ((==_iff x y).0 e) w.1, ground arith)
    | inr e ↦ let (o, a, b, c) = object_of xs os x w.2 (ground arith) in (o, a, b, ground arith)
  ]

-- A change of the two functions elsewhere is not seen.
pub Owns-frame :
    (ptr node ptr' node' : ℕ → Option ℕ) (xs os : List ℕ)
    → Owns ptr node xs os
    → ((c : ℕ) → mem c xs ≡ true → ptr' c ≡ ptr c)
    → ((o : ℕ) → mem o os ≡ true → node' o ≡ node o)
    → Owns ptr' node' xs os
Owns-frame p n p' n' [] [] w f g = tt
Owns-frame p n p' n' [] (o ∷ os) w f g = elim w [ ]
Owns-frame p n p' n' (x ∷ xs) [] w f g = elim w [ ]
Owns-frame p n p' n' (x ∷ xs) (o ∷ os) w f g = (
  f x (ground arith) ∙ w.0,
  g o (ground arith) ∙ w.1,
  Owns-frame p n p' n' xs os w.2 (λ c m. f c (ground arith)) (λ q m. g q (ground arith)),
)
