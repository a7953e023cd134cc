-- ===== src/ObjMgr/Clear.antt =====
-- `clear` of libkngin/detail/core/base/obj_mgr.h.
use libkngin.Base.{
  ℕ, zero, suc, ◌+◌, ◌<◌, ◌≡◌, refl, ◌∙◌, sym, ap, false, List, [], ◌∷◌, ◌++◌, length,
  length-append, arith, none, some, ◌==◌,
}
use libkngin.Base.Run.{done}
use libkngin.KernelList.Chain.{next-first}
use libkngin.ObjMgr.{ObjMgr, update, move_to_free}
use libkngin.ObjMgr.Spare.{IsValid}
use libkngin.ObjMgr.Members.{freed-IsValid}
use libkngin.ObjMgr.Holds.{Holds, size-Holds}
use libkngin.ObjMgr.Sweep.{clear_loop, clear}

-- An object's node becomes spare, as `clear` does it.
abbrev freed : ℕ → ℕ → ObjMgr → ObjMgr
freed x o m =
    let m1 = move_to_free x m in
    record m1 { ptr = update m1.ptr x none; node = update m1.node o none }

clear_step :
    (fuel pos n o : ℕ) (m : ObjMgr)
    → (pos == m.list) ≡ false
    → m.ptr pos ≡ some o
    → clear_loop (suc fuel) pos n m
      ≡ clear_loop fuel n ((move_to_free pos m).heap.next n) (freed pos o m)
unfolding clear_loop
clear_step fuel pos n o m more holds = rw (more, holds) refl

clear_of :
    (fuel : ℕ) (m : ObjMgr) (xs fs os : List ℕ)
    → IsValid m xs fs os
    → length xs < fuel
    → (m' : ObjMgr) × (fs' : List ℕ) × (clear_loop fuel
          (m.heap.next m.list)
          (m.heap.next (m.heap.next m.list))
          m
        ≡ done m')
      × IsValid m' [] fs' []
      × (length fs' ≡ length xs + length fs)
unfolding clear_loop
clear_of zero m xs fs os v room = absurd (omega arith)
clear_of (suc fuel) m [] fs [] v room = (m, fs, ground (arith, v.rings.one.chain), v, omega arith)
clear_of (suc fuel) m [] fs (o ∷ os) v room = elim v.owns [ ]
clear_of (suc fuel) m (x ∷ xs) fs [] v room = elim v.owns [ ]
clear_of (suc fuel) m (x ∷ xs) fs (o ∷ os) v room =
    let m2 = freed x o m in
    let v2 : IsValid m2 xs (fs ++ x ∷ []) os =
      freed-IsValid o x [] xs fs [] os v v.owns.1 tt v.owns.2 in
    let (m', fs', e, v', n) = clear_of fuel m2 xs (fs ++ x ∷ []) os v2 (omega arith) in
    let at : m.heap.next m.list ≡ x = v.rings.one.chain.0.0 in
    let then' : m.heap.next x ≡ m2.heap.next m.list =
      next-first m.heap x m.list xs v.rings.one.chain.1
      ∙ sym (next-first m2.heap m.list m.list xs v2.rings.one.chain) in
    let more : (x == m.list) ≡ false = ground (arith, v.rings.one.apart) in
    let whole =
      ap (λ (p : ℕ). clear_loop (suc fuel) p (m.heap.next p) m) at
      ∙ clear_step fuel x (m.heap.next x) o m more v.owns.0
      ∙ ap (λ (p : ℕ). clear_loop fuel p (m2.heap.next p) m2) then'
      ∙ e in
    (m', fs', whole, v', omega (arith, length-append fs (x ∷ [])))

-- With fuel for one round more than there are objects, `clear` returns, holds nothing any more, and
-- keeps all nodes as spare ones.
pub clear_lem :
    (fuel : ℕ) {m : ObjMgr} {os : List ℕ}
    → Holds m os
    → length os < fuel
    → (m' : ObjMgr) × (clear fuel m ≡ done m')
      × Holds m' []
      × (m'.size_free ≡ length os + m.size_free)
unfolding clear
clear_lem fuel {m} {os} h room =
    let v = h.valid in
    let n = size-Holds h in
    let (m', fs, e, v', k) = clear_of fuel m h.nodes h.spare os v (omega (arith, v.count)) in
    (
      m',
      e,
      record { nodes = []; spare = fs; valid = v' },
      omega (arith, v.count, v.count_free, v'.count_free),
    )
