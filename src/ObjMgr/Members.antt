-- ===== src/ObjMgr/Members.antt =====
-- `exist`, `insert` and `remove` of a manager, by the sequence of the objects that it holds.
use Prim.Native.Nat.{max}
use mathlib.Core.Path.{subst}
use libkngin.Base.{
  ℕ, ◌+◌, ◌*◌, ◌^◌, ◌≤◌, ◌<◌, ◌≡◌, refl, ◌∙◌, ap, inl, inr, true, false, List, [], ◌∷◌, ◌++◌,
  length, length-append, arith, mem, mem-append, Option, none, some, ◌==◌, Bool-cases, Option-cases,
}
use libkngin.Base.Run.{done}
use libkngin.KernelList.{list_move_tail, list_add_tail}
use libkngin.EntryList.Laws.{exist-Chain}
use libkngin.KernelList.Delete.{Distinct-without}
use libkngin.ObjMgr.{
  ObjMgr, update, wrap, sub_size, make_node, move_to_free, free_to_list, exist, insert, remove,
}
use libkngin.ObjMgr.Rings.{flip, add-Rings, move-Rings}
use libkngin.ObjMgr.Owners.{Owns, Owns-append, Owns-split, Owns-frame, node_of, not_among}
use libkngin.ObjMgr.Spare.{IsValid, first_free-cons, auto_fix-IsValid}

exist-node :
    (fuel obj n : ℕ) {m : ObjMgr} {xs fs os : List ℕ}
    → IsValid m xs fs os
    → length xs < fuel
    → m.node obj ≡ some n
    → exist fuel obj m ≡ done (mem n xs)
unfolding exist
exist-node fuel obj n {m} {xs} v room e =
    rw
      (
        e,
        exist,
        exist-Chain fuel m.heap m.list n m.list xs v.rings.one.chain v.rings.one.apart room,
      )
      refl

-- `exist` says whether the manager holds an object.
pub exist-IsValid :
    (fuel obj : ℕ) {m : ObjMgr} {xs fs os : List ℕ}
    → IsValid m xs fs os
    → length xs < fuel
    → exist fuel obj m ≡ done (mem obj os)
unfolding exist
exist-IsValid fuel obj {m} {xs} {fs} {os} v room = elim (Option-cases (m.node obj)) [
  | inl e ↦ elim (Bool-cases (mem obj os)) [
    | inl t ↦ let (x, a, _) = node_of m.ptr m.node xs os obj v.owns t in cc
    | inr f ↦ rw (e, exist, f) refl
  ]
  | inr (n, e) ↦
      let t = v.linked obj n e in
      let (x, a, b) = node_of m.ptr m.node xs os obj v.owns t in
      let same : x ≡ n = cc in exist-node fuel obj n v room e ∙ rw (t, ← same, b) refl
]

-- An object joins the others in a node that held none.
joined-Owns :
    (ptr node : ℕ → Option ℕ) (x obj : ℕ) (xs os : List ℕ)
    → Owns ptr node xs os
    → mem x xs ≡ false
    → mem obj os ≡ false
    → Owns (update ptr x (some obj)) (update node obj (some x)) (xs ++ x ∷ []) (os ++ obj ∷ [])
joined-Owns ptr node x obj xs os w nx ne =
    let p = update ptr x (some obj) in
    let n = update node obj (some x) in
    Owns-append p n xs (x ∷ []) os (obj ∷ [])
      (Owns-frame ptr node p n xs os w (λ c m. ground arith) (λ o m. ground arith))
      (ground arith, ground arith, tt)

joined-linked :
    (node : ℕ → Option ℕ) (x obj : ℕ) (os : List ℕ)
    → ((o c : ℕ) → node o ≡ some c → mem o os ≡ true)
    → (o c : ℕ) → update node obj (some x) o ≡ some c
    → mem o (os ++ obj ∷ []) ≡ true
joined-linked node x obj os h o c e = ground (arith, mem-append o os (obj ∷ []), h o c)

-- In a node from `new`.
in_new_node :
    (obj : ℕ) {m : ObjMgr} {xs fs os : List ℕ}
    → IsValid m xs fs os
    → mem obj os ≡ false
    → length xs + length fs + 1 < 2 ^ 62
    → IsValid
        (let m2 = make_node (some obj) m in
          record m2 {
            heap = list_add_tail m2.heap m.unused m2.list;
            node = update m2.node obj (some m.unused);
            size = wrap (m2.size + 1);
          })
        (xs ++ m.unused ∷ [])
        fs
        (os ++ obj ∷ [])
unfolding make_node
in_new_node obj {m} {xs} {fs} {os} v out room =
    let n : length (xs ++ m.unused ∷ []) ≡ length xs + 1 = length-append xs (m.unused ∷ []) in
    record {
      rings = add-Rings v.rings;
      owns =
          joined-Owns m.ptr m.node m.unused obj xs os v.owns
            (ground (arith, v.rings.one_below m.unused)) out;
      linked = joined-linked m.node m.unused obj os v.linked;
      count = omega (arith, v.count, v.small);
      count_free = v.count_free;
      small = omega arith;
    }

-- In a spare node.
in_spare_node :
    (obj x : ℕ) {m : ObjMgr} {xs fs os : List ℕ}
    → IsValid m xs (x ∷ fs) os
    → mem obj os ≡ false
    → IsValid
        (record m {
          heap = list_move_tail m.heap x m.list;
          ptr = update m.ptr x (some obj);
          node = update m.node obj (some x);
          size = wrap (m.size + 1);
          size_free = sub_size m.size_free 1;
        })
        (xs ++ x ∷ [])
        fs
        (os ++ obj ∷ [])
in_spare_node obj x {m} {xs} {fs} {os} v out =
    let n : length (xs ++ x ∷ []) ≡ length xs + 1 = length-append xs (x ∷ []) in
    record {
      rings = flip (move-Rings x [] fs xs (flip v.rings));
      owns = joined-Owns m.ptr m.node x obj xs os v.owns (ground (arith, v.rings.apart x)) out;
      linked = joined-linked m.node x obj os v.linked;
      count = omega (arith, v.count, v.small);
      count_free = omega (arith, v.count_free, v.small);
      small = omega (arith, v.small);
    }

-- A node that holds an object becomes spare.
pub freed-IsValid :
    (obj x : ℕ) {m : ObjMgr} (xs ys fs os ps : List ℕ)
    → IsValid m (xs ++ x ∷ ys) fs (os ++ obj ∷ ps)
    → m.node obj ≡ some x
    → Owns m.ptr m.node xs os
    → Owns m.ptr m.node ys ps
    → (let m1 = move_to_free x m in
        IsValid
          (record m1 { ptr = update m1.ptr x none; node = update m1.node obj none })
          (xs ++ ys)
          (fs ++ x ∷ [])
          (os ++ ps))
unfolding move_to_free
freed-IsValid obj x {m} xs ys fs os ps v e v1 v2 =
    let (_, out) = Distinct-without x xs ys v.rings.one.distinct in
    let p = update m.ptr x none in
    let n = update m.node obj none in
    let nx : (mem x xs ≡ false) × (mem x ys ≡ false) = ground (arith, mem-append x xs ys) in
    let no = not_among m.ptr m.node xs os obj x v1 e nx.0 in
    let np = not_among m.ptr m.node ys ps obj x v2 e nx.1 in
    record {
      rings = move-Rings x xs ys fs v.rings;
      owns =
          Owns-append p n xs ys os ps
            (Owns-frame m.ptr m.node p n xs os v1 (λ c i. ground arith) (λ o i. ground arith))
            (Owns-frame m.ptr m.node p n ys ps v2 (λ c i. ground arith) (λ o i. ground arith));
      linked =
          λ o c k. ground (arith, v.linked o c, mem-append o os ps, mem-append o os (obj ∷ ps));
      count = omega (arith, v.count, v.small, length-append xs ys, length-append xs (x ∷ ys));
      count_free =
          omega
            (arith, v.count_free, v.small, length-append fs (x ∷ []), length-append xs (x ∷ ys));
      small = omega (
        arith,
        v.small,
        length-append xs ys,
        length-append xs (x ∷ ys),
        length-append fs (x ∷ []),
      );
    }

module _ (prealloc : ℕ) where
  -- The manager that `insert` leaves holds one object more, and never more spare nodes than it had,
  -- or than there are nodes in use.
  pub insert_of :
      (fuel obj : ℕ) (m : ObjMgr) (xs fs os : List ℕ)
      → IsValid m xs fs os
      → mem obj os ≡ false
      → length xs < fuel
      → length xs + length fs < 2 ^ 61
      → (m' : ObjMgr) × (xs' : List ℕ) × (fs' : List ℕ) × (insert prealloc fuel obj m ≡ done m')
        × IsValid m' xs' fs' (os ++ obj ∷ [])
        × (length fs' ≤ max (length fs) (length xs'))
  unfolding insert free_to_list
  insert_of fuel obj m xs [] os v out room small =
      let there = exist-IsValid fuel obj v room in
      let (m1, fs', e, v', n) = auto_fix-IsValid prealloc v small in
      let none_left : (m.size_free == 0) ≡ true = ground (arith, v.count_free) in
      let k : length (xs ++ m1.unused ∷ []) ≡ length xs + 1 = length-append xs (m1.unused ∷ []) in
      let v2 = in_new_node obj v' out (omega arith) in
      (_, _, _, rw (there, out, none_left, e) refl, v2, omega arith)
  insert_of fuel obj m xs (x ∷ fs) os v out room small =
      let there = exist-IsValid fuel obj v room in
      let some_left : (m.size_free == 0) ≡ false = ground (arith, v.count_free) in
      (
        _,
        _,
        _,
        rw (there, out, some_left, free_to_list, first_free-cons x v) refl,
        in_spare_node obj x v out,
        omega arith,
      )

  -- `remove` of an object.
  pub remove_of :
      (fuel obj : ℕ) (m : ObjMgr) (ns fs os ps : List ℕ)
      → IsValid m ns fs (os ++ obj ∷ ps)
      → length ns < fuel
      → length ns + length fs < 2 ^ 61
      → (m' : ObjMgr) × (xs' : List ℕ) × (fs' : List ℕ) × (remove prealloc fuel obj m ≡ done m')
        × IsValid m' xs' fs' (os ++ ps)
        × (length fs' ≤ max (length xs' * 2) prealloc)
  unfolding remove
  remove_of fuel obj m ns fs os ps v room small =
      let (xs, x, ys, e, held, at, v1, v2) = Owns-split m.ptr m.node ns os ps obj v.owns in
      let there = exist-IsValid fuel obj v room in
      let yes' : mem obj (os ++ obj ∷ ps) ≡ true = ground (arith, mem-append obj os (obj ∷ ps)) in
      let v3 =
        freed-IsValid obj x xs ys fs os ps (subst (λ l. IsValid m l fs (os ++ obj ∷ ps)) e v) at v1
          v2 in
      let n : length ns ≡ length xs + length ys + 1 =
        ap length e ∙ omega (arith, length-append xs (x ∷ ys)) in
      let k : length (fs ++ x ∷ []) ≡ length fs + 1 = length-append fs (x ∷ []) in
      let (m', fs', f, v4, b) = auto_fix-IsValid prealloc v3 (omega (arith, length-append xs ys)) in
      (m', xs ++ ys, fs', rw (there, yes', at) f, v4, ground arith)
