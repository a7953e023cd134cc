-- ===== src/ObjMgr/Visit.antt =====
-- `for_each` of libkngin/detail/core/base/obj_mgr.h.
use libkngin.Base.{
  ℕ, zero, suc, ◌<◌, ◌≡◌, refl, ◌∙◌, ap, false, List, [], ◌∷◌, length, arith, mem, Option, some,
  ◌==◌,
}
use libkngin.Base.Run.{done}
use libkngin.KernelList.{Heap}
use libkngin.KernelList.Chain.{Chain}
use libkngin.ObjMgr.{ObjMgr}
use libkngin.ObjMgr.Owners.{Owns}
use libkngin.ObjMgr.Holds.{Holds, size-Holds}
use libkngin.ObjMgr.Sweep.{for_each_loop, for_each}

-- A function applied for each object, in order.
abbrev pub each : (Option ℕ → ObjMgr → ObjMgr) → List ℕ → ObjMgr → ObjMgr
each fn [] m = m
each fn (o ∷ os) m = each fn os (fn (some o) m)

-- A callback that leaves the lists of a manager, and what its nodes hold, alone.
abbrev pub Leaves : (Option ℕ → ObjMgr → ObjMgr) → Type 0
Leaves fn =
    (o : Option ℕ) (m : ObjMgr)
    → ((fn o m).heap ≡ m.heap) × ((fn o m).ptr ≡ m.ptr) × ((fn o m).list ≡ m.list)

for_each_step :
    (fn : Option ℕ → ObjMgr → ObjMgr) (fuel pos n o : ℕ) (m : ObjMgr)
    → (pos == m.list) ≡ false
    → m.ptr pos ≡ some o
    → for_each_loop (suc fuel) fn pos n m
      ≡ for_each_loop fuel fn n ((fn (some o) m).heap.next n) (fn (some o) m)
unfolding for_each_loop
for_each_step fn fuel pos n o m more holds =
    rw more (ap (λ (p : Option ℕ). for_each_loop fuel fn n ((fn p m).heap.next n) (fn p m)) holds)

for_each-Chain :
    (fn : Option ℕ → ObjMgr → ObjMgr) (leaves : Leaves fn) (fuel : ℕ) (h : Heap)
    (ptr node : ℕ → Option ℕ) (head a : ℕ) (xs os : List ℕ) (m : ObjMgr)
    → m.heap ≡ h
    → m.ptr ≡ ptr
    → m.list ≡ head
    → Chain h a xs head
    → mem head xs ≡ false
    → Owns ptr node xs os
    → length xs < fuel
    → for_each_loop fuel fn (h.next a) (h.next (h.next a)) m ≡ done (each fn os m)
unfolding for_each_loop
for_each-Chain fn leaves zero h ptr node head a xs os m e f g c out w room = absurd (omega arith)
for_each-Chain fn leaves (suc fuel) h ptr node head a [] [] m e f g c out w room = ground arith
for_each-Chain fn leaves (suc fuel) h ptr node head a [] (o ∷ os) m e f g c out w room = elim w [ ]
for_each-Chain fn leaves (suc fuel) h ptr node head a (x ∷ xs) [] m e f g c out w room = elim w [ ]
for_each-Chain fn leaves (suc fuel) h ptr node head a (x ∷ xs) (o ∷ os) m e f g c out w room =
    let (l1, l2, l3) = leaves (some o) m in
    let ih =
      for_each-Chain fn leaves fuel h ptr node head x xs os (fn (some o) m) (l1 ∙ e) (l2 ∙ f)
        (l3 ∙ g) c.1 (ground arith) w.2 (omega arith) in
    let at : h.next a ≡ x = c.0.0 in
    let holds : m.ptr x ≡ some o = ap (λ (p : ℕ → Option ℕ). p x) f ∙ w.0 in
    let more : (x == m.list) ≡ false = ground arith in
    ap (λ (p : ℕ). for_each_loop (suc fuel) fn p (h.next p) m) at
    ∙ for_each_step fn fuel x (h.next x) o m more holds
    ∙ ap (λ (g : Heap). for_each_loop fuel fn (h.next x) (g.next (h.next x)) (fn (some o) m))
        (l1 ∙ e)
    ∙ ih

-- With fuel for one round more than there are objects, and a callback that leaves the manager's lists
-- and nodes alone, `for_each` calls it for each object that the manager holds, once and in order.
pub for_each_lem :
    (fn : Option ℕ → ObjMgr → ObjMgr) (fuel : ℕ) {m : ObjMgr} {os : List ℕ}
    → Leaves fn
    → Holds m os
    → length os < fuel
    → for_each fuel fn m ≡ done (each fn os m)
unfolding for_each
for_each_lem fn fuel {m} {os} leaves h room =
    let v = h.valid in
    for_each-Chain fn leaves fuel m.heap m.ptr m.node m.list m.list h.nodes os m refl refl refl
      v.rings.one.chain v.rings.one.apart v.owns (omega (arith, size-Holds h, v.count))
