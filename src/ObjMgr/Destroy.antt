-- ===== src/ObjMgr/Destroy.antt =====
-- `shrink_to_fix`, `empty` and the destructor of libkngin/detail/core/base/obj_mgr.h.
use mathlib.Core.Path.{subst}
use libkngin.Base.{
  ℕ, zero, suc, ◌+◌, ◌<◌, ◌≡◌, refl, ◌∙◌, sym, ap, true, false, Bool, List, [], ◌∷◌, length, arith,
  none, ◌==◌, Bool-cases, Option-cases, inl, inr,
}
use libkngin.Base.Run.{done}
use libkngin.KernelList.{Heap, list_del, list_empty_careful}
use libkngin.KernelList.Chain.{next-first}
use libkngin.KernelList.Insert.{emptiness_lem}
use libkngin.ObjMgr.{ObjMgr, max_size}
use libkngin.ObjMgr.Rings.{Rings, del-Rings}
use libkngin.ObjMgr.Owners.{length-Owns}
use libkngin.ObjMgr.Spare.{IsValid}
use libkngin.ObjMgr.Holds.{Holds, size-Holds}
use libkngin.ObjMgr.Clear.{clear_lem}
use libkngin.ObjMgr.Sweep.{empty, clear_free_loop, clear_free, destroy}

clear_free_step :
    (fuel pos n : ℕ) (m : ObjMgr)
    → (pos == m.free) ≡ false
    → clear_free_loop (suc fuel) pos n m
      ≡ clear_free_loop fuel n
          ((list_del m.heap pos).next n)
          (record m { heap = list_del m.heap pos })
unfolding clear_free_loop
clear_free_step fuel pos n m more = rw more refl

clear_free_of :
    (fuel : ℕ) (m : ObjMgr) (xs fs : List ℕ)
    → Rings m.heap m.list m.free m.unused xs fs
    → length fs < fuel
    → (g : Heap) × (clear_free_loop fuel (m.heap.next m.free) (m.heap.next (m.heap.next m.free)) m
        ≡ done (record m { heap = g; size_free = 0 }))
      × Rings g m.list m.free m.unused xs []
unfolding clear_free_loop
clear_free_of zero m xs fs r room = absurd (omega arith)
clear_free_of (suc fuel) m xs [] r room = (m.heap, ground (arith, r.two.chain), r)
clear_free_of (suc fuel) m xs (x ∷ fs) r room =
    let h1 = list_del m.heap x in
    let r1 : Rings h1 m.list m.free m.unused xs fs = del-Rings x xs [] fs r in
    let (g, e, r2) = clear_free_of fuel (record m { heap = h1 }) xs fs r1 (omega arith) in
    let at : m.heap.next m.free ≡ x = r.two.chain.0.0 in
    let then' : m.heap.next x ≡ h1.next m.free =
      next-first m.heap x m.free fs r.two.chain.1
      ∙ sym (next-first h1 m.free m.free fs r1.two.chain) in
    let more : (x == m.free) ≡ false = ground (arith, r.two.apart) in
    let whole =
      ap (λ (p : ℕ). clear_free_loop (suc fuel) p (m.heap.next p) m) at
      ∙ clear_free_step fuel x (m.heap.next x) m more
      ∙ ap (λ (p : ℕ). clear_free_loop fuel p (h1.next p) (record m { heap = h1 })) then'
      ∙ e in
    (g, whole, r2)

-- `shrink_to_fix` gives the spare nodes back and leaves the objects alone.
pub clear_free-Holds :
    (fuel : ℕ) {m : ObjMgr} {os : List ℕ}
    → Holds m os
    → m.size_free < fuel
    → (m' : ObjMgr) × (clear_free fuel m ≡ done m') × Holds m' os × (m'.size_free ≡ 0)
unfolding clear_free
clear_free-Holds fuel {m} {os} h room =
    let v = h.valid in
    let (g, e, r) = clear_free_of fuel m h.nodes h.spare v.rings (omega (arith, v.count_free)) in
    (
      record m { heap = g; size_free = 0 },
      e,
      record {
        nodes = h.nodes;
        spare = [];
        valid = record {
          rings = r;
          owns = v.owns;
          linked = v.linked;
          count = v.count;
          count_free = refl;
          small = omega (arith, v.small);
        };
      },
      refl,
    )

length-nil : (ys : List ℕ) → length ys ≡ 0 → ys ≡ []
length-nil [] e = refl
length-nil (y ∷ ys) e = cc

empty_of : (m : ObjMgr) (xs fs os : List ℕ) → IsValid m xs fs os → empty m ≡ done (length os == 0)
unfolding empty
empty_of m xs fs os v =
    let n = length-Owns m.ptr m.node xs os v.owns in
    let k : m.size ≡ length os = v.count ∙ n in
    elim (Bool-cases (m.size == 0)) [
      | inl z ↦
          let nil : xs ≡ [] = length-nil xs (ground (arith, v.count)) in
          let e : list_empty_careful m.heap m.list ≡ true = (emptiness_lem v.rings.one).1.1 nil in
          rw (z, e) (ap (λ (b : Bool). done b) (sym z ∙ ap (λ (q : ℕ). q == 0) k))
      | inr s ↦ rw s (ap (λ (b : Bool). done b) (sym s ∙ ap (λ (q : ℕ). q == 0) k))
    ]

-- The assertion of `empty` holds, and it says whether there are no objects.
pub empty_lem : {m : ObjMgr} {os : List ℕ} → Holds m os → empty m ≡ done (length os == 0)
empty_lem {m} {os} h = empty_of m h.nodes h.spare os h.valid

-- A manager that holds nothing is in no object.
no_node : {m : ObjMgr} → Holds m [] → (o : ℕ) → m.node o ≡ none
no_node {m} h o = elim (Option-cases (m.node o)) [
  | inl e ↦ e
  | inr (c, e) ↦ cc (h.valid.linked o c e)
]

-- With fuel for one round more than there are nodes, the destructor returns: no object has a node any
-- more, and no node is left.
pub destroy_lem :
    (fuel : ℕ) {m : ObjMgr} {os : List ℕ}
    → Holds m os
    → length os + m.size_free < fuel
    → (m' : ObjMgr) × (destroy fuel m ≡ done m')
      × Holds m' []
      × (m'.size_free ≡ 0)
      × ((o : ℕ) → m'.node o ≡ none)
unfolding destroy max_size
destroy_lem fuel {m} {os} h room = elim (Bool-cases (max_size m == 0)) [
  | inl z ↦
      let nil : os ≡ [] =
        length-nil os
          (ground (arith, size-Holds h, h.valid.small, h.valid.count, h.valid.count_free)) in
      let h' : Holds m [] = subst (Holds m) nil h in
      (
        m,
        rw z refl,
        h',
        ground (arith, h.valid.small, h.valid.count, h.valid.count_free),
        no_node h',
      )
  | inr s ↦
      let (m1, e1, h1, n1) = clear_lem fuel h (omega arith) in
      let (m2, e2, h2, n2) = clear_free-Holds fuel h1 (omega arith) in
      (m2, rw (s, e1) e2, h2, n2, λ o. no_node h2 o)
]
