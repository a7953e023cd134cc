-- ===== src/ObjMgr/Holds.antt =====
-- What a manager promises: it holds a sequence of objects. Its nodes are forgotten.
use Prim.Native.Nat.{max}
use mathlib.Core.Path.{subst}
use libkngin.Base.{
  ℕ, ◌+◌, ◌*◌, ◌^◌, ◌≤◌, ◌<◌, ◌≡◌, refl, ◌∙◌, sym, ap, ◌⊎◌, inl, inr, true, false, List, [], ◌∷◌,
  ◌++◌, length, arith, mem, none, Bool-cases, ◌==◌, ==_iff,
}
use libkngin.Base.Run.{done, fault}
use libkngin.KernelList.{Heap, init_list_head}
use libkngin.KernelList.Chain.{Ring-frame}
use libkngin.KernelList.Insert.{init_list_head-Ring, init_outside}
use libkngin.ObjMgr.{ObjMgr, insert, remove, obj_mgr}
use libkngin.ObjMgr.Owners.{length-Owns}
use libkngin.ObjMgr.Spare.{IsValid, resize-IsValid}
use libkngin.ObjMgr.Members.{exist-IsValid, insert_of, remove_of}

pub record Holds (m : ObjMgr) (os : List ℕ) : Type 0 where
  pub nodes : List ℕ
  pub spare : List ℕ
  pub valid : IsValid m nodes spare os

-- The manager counts its objects.
pub size-Holds : {m : ObjMgr} {os : List ℕ} → Holds m os → m.size ≡ length os
size-Holds {m} {os} h = h.valid.count ∙ length-Owns m.ptr m.node h.nodes os h.valid.owns

module _ {m : ObjMgr} {os : List ℕ} (h : Holds m os) where
  nodes_below : (bound : ℕ) → length os < bound → length h.nodes < bound
  nodes_below bound b = omega (arith, size-Holds h, h.valid.count)

  nodes_small : length os + m.size_free < 2 ^ 61 → length h.nodes + length h.spare < 2 ^ 61
  nodes_small b = omega (arith, size-Holds h, h.valid.count, h.valid.count_free)

-- Where an address stands in a list.
split_at :
    (a : ℕ) (xs : List ℕ) → mem a xs ≡ true → (us : List ℕ) × (vs : List ℕ) × (xs ≡ us ++ a ∷ vs)
split_at a [] m = cc
split_at a (x ∷ xs) m = elim (Bool-cases (a == x)) [
  | inl e ↦ ([], xs, ap (λ y. y ∷ xs) (sym ((==_iff a x).0 e)))
  | inr e ↦ let (us, vs, f) = split_at a xs (ground arith) in (x ∷ us, vs, ap (λ l. x ∷ l) f)
]

-- A new manager, on two different addresses below those that `new` returns, while no object has a
-- node, holds nothing and has `size` nodes spare.
pub obj_mgr-Holds :
    (h : Heap) (list free unused size : ℕ)
    → (list == free) ≡ false
    → list < unused
    → free < unused
    → size < 2 ^ 62
    → (m : ObjMgr) × (obj_mgr h (λ o. none) list free unused size ≡ done m)
      × Holds m []
      × (m.size_free ≡ size)
unfolding obj_mgr
obj_mgr-Holds h list free unused size ne l f b =
    let h1 = init_list_head h list in
    let start : ObjMgr = record {
      heap = init_list_head h1 free;
      ptr = λ n. none;
      node = λ o. none;
      list = list;
      free = free;
      size = 0;
      size_free = 0;
      unused = unused;
    } in
    let v : IsValid start [] [] [] = record {
      rings = record {
        one =
            Ring-frame (free ∷ []) (init_list_head-Ring h list) (init_outside h1 free)
              (λ c m. ground arith);
        two = init_list_head-Ring h1 free;
        apart = λ c m. ground arith;
        one_below = λ c m. ground arith;
        two_below = λ c m. ground arith;
      };
      owns = tt;
      linked = λ o c e. cc;
      count = refl;
      count_free = refl;
      small = omega arith;
    } in
    let (m, fs, e, v', n) = resize-IsValid size v b in
    (m, e, record { nodes = []; spare = fs; valid = v' }, ground (arith, v'.count_free))

module _ (prealloc fuel obj : ℕ) {m : ObjMgr} {os : List ℕ} (h : Holds m os)
    (room : length os < fuel) (small : length os + m.size_free < 2 ^ 61) where
  pub insert_new :
      mem obj os ≡ false
      → (m' : ObjMgr) × (insert prealloc fuel obj m ≡ done m')
        × Holds m' (os ++ obj ∷ [])
        × (m'.size_free ≤ max m.size_free m'.size)
  insert_new out =
      let (m', xs, fs, e, v, b) =
        insert_of prealloc fuel obj m h.nodes h.spare os h.valid out (nodes_below h fuel room)
          (nodes_small h small) in
      (
        m',
        e,
        record { nodes = xs; spare = fs; valid = v },
        omega (arith, v.count, v.count_free, h.valid.count_free),
      )

  insert_again : mem obj os ≡ true → insert prealloc fuel obj m ≡ fault
  unfolding insert
  insert_again t = rw (exist-IsValid fuel obj h.valid (nodes_below h fuel room), t) refl

  -- With fuel for one round more than it holds objects, and fewer than `2 ^ 61` nodes, `insert` of an
  -- object that is new to the manager returns, puts it behind the others, and leaves at most as many
  -- spare nodes as there were or as there are objects now; of another one it fails an assertion.
  pub insert_lem :
      ((mem obj os ≡ false)
        × ((m' : ObjMgr) × (insert prealloc fuel obj m ≡ done m')
            × Holds m' (os ++ obj ∷ [])
            × (m'.size_free ≤ max m.size_free m'.size)))
      ⊎ ((mem obj os ≡ true) × (insert prealloc fuel obj m ≡ fault))
  insert_lem = elim (Bool-cases (mem obj os)) [
    | inl t ↦ inr (t, insert_again t)
    | inr out ↦ inl (out, insert_new out)
  ]

  remove_other : mem obj os ≡ false → remove prealloc fuel obj m ≡ fault
  unfolding remove
  remove_other f = rw (exist-IsValid fuel obj h.valid (nodes_below h fuel room), f) refl

  -- With fuel for one round more than the manager holds objects, and fewer than `2 ^ 61` nodes,
  -- `remove` of an object that the manager holds returns, takes it out from
  -- between the others, and leaves at most twice as many spare nodes as there are objects, or at most
  -- `prealloc`; of another one it fails an assertion.
  pub remove_lem :
      ((us : List ℕ) × (vs : List ℕ) × (os ≡ us ++ obj ∷ vs)
        × ((m' : ObjMgr) × (remove prealloc fuel obj m ≡ done m')
            × Holds m' (us ++ vs)
            × (m'.size_free ≤ max (m'.size * 2) prealloc)))
      ⊎ ((mem obj os ≡ false) × (remove prealloc fuel obj m ≡ fault))
  remove_lem = elim (Bool-cases (mem obj os)) [
    | inr f ↦ inr (f, remove_other f)
    | inl t ↦
        let (us, vs, e) = split_at obj os t in
        let (m', xs, fs, r, v, b) =
          remove_of prealloc fuel obj m h.nodes h.spare us vs
            (subst (λ l. IsValid m h.nodes h.spare l) e h.valid) (nodes_below h fuel room)
            (nodes_small h small) in
        inl (
          us,
          vs,
          e,
          (
            m',
            r,
            record { nodes = xs; spare = fs; valid = v },
            omega (arith, v.count, v.count_free),
          ),
        )
  ]
