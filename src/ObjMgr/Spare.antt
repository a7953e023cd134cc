-- ===== src/ObjMgr/Spare.antt =====
-- The spare nodes of a manager: `resize` and `auto_fix` change them, and nothing else.
use libkngin.Base.{
  ℕ, zero, suc, ◌+◌, ◌-◌, ◌*◌, ◌^◌, ◌≤◌, ◌<◌, ◌≡◌, refl, inl, inr, true, ◌||◌, ◌&&◌, List, [], ◌∷◌,
  ◌++◌, length, length-append, arith, mem, Option, none, some, ◌==◌, ltb, leb, if◌then◌else◌,
  Bool-cases,
}
use libkngin.Base.Run.{done}
use libkngin.KernelList.{list_del, list_empty}
use libkngin.KernelList.Insert.{emptiness_lem}
use libkngin.ObjMgr.{
  ObjMgr, update, wrap, sub_size, max_size, first_free, add_free, drop_free, resize, auto_fix,
}
use libkngin.ObjMgr.Rings.{Rings, flip, add-Rings, del-Rings}
use libkngin.ObjMgr.Owners.{Owns, Owns-frame}

-- The manager holds the objects `os` in the nodes `xs`, and the nodes `fs` are spare. No object
-- outside points to a node.
pub record IsValid (m : ObjMgr) (xs fs os : List ℕ) : Type 0 where
  pub rings : Rings m.heap m.list m.free m.unused xs fs
  pub owns : Owns m.ptr m.node xs os
  pub linked : (o c : ℕ) → m.node o ≡ some c → mem o os ≡ true
  pub count : m.size ≡ length xs
  pub count_free : m.size_free ≡ length fs
  pub small : length xs + length fs < 2 ^ 62

-- A new node holds nothing that is in use.
pub make_node-Owns :
    {m : ObjMgr} {xs fs os : List ℕ} (obj : Option ℕ)
    → IsValid m xs fs os
    → Owns (update m.ptr m.unused obj) m.node xs os
make_node-Owns {m} {xs} {fs} {os} obj v =
    Owns-frame m.ptr m.node (update m.ptr m.unused obj) m.node xs os v.owns
      (λ c i. ground (arith, v.rings.one_below c)) (λ o i. refl)

add_free-IsValid :
    (num : ℕ) (m : ObjMgr) (xs fs os : List ℕ)
    → IsValid m xs fs os
    → length xs + length fs + num < 2 ^ 62
    → (fs' : List ℕ) × IsValid (add_free num m) xs fs' os × (length fs' ≡ length fs + num)
unfolding add_free
add_free-IsValid zero m xs fs os v h = (fs, v, omega arith)
add_free-IsValid (suc num) m xs fs os v h =
    let n : length (fs ++ m.unused ∷ []) ≡ length fs + 1 = length-append fs (m.unused ∷ []) in
    let (fs', v', e) =
      add_free-IsValid num _ xs (fs ++ m.unused ∷ []) os
        (record {
          rings = flip (add-Rings (flip v.rings));
          owns = make_node-Owns none v;
          linked = v.linked;
          count = v.count;
          count_free = omega (arith, v.count_free, v.small);
          small = omega arith;
        })
        (omega arith) in
    (fs', v', omega arith)

pub first_free-cons :
    {m : ObjMgr} {xs fs os : List ℕ} (x : ℕ) → IsValid m xs (x ∷ fs) os → first_free m ≡ some x
unfolding first_free
first_free-cons {m} x v = elim (Bool-cases (list_empty m.heap m.free)) [
  | inl t ↦ cc ((emptiness_lem v.rings.two).0.0 t)
  | inr f ↦ rw (f, v.rings.two.chain.0.0) refl
]

drop_free-IsValid :
    (num : ℕ) (m : ObjMgr) (xs fs os : List ℕ)
    → IsValid m xs fs os
    → num ≤ length fs
    → (m' : ObjMgr) × (fs' : List ℕ) × (drop_free num m ≡ done m')
      × IsValid m' xs fs' os
      × (length fs' + num ≡ length fs)
unfolding drop_free
drop_free-IsValid zero m xs fs os v h = (m, fs, refl, v, omega arith)
drop_free-IsValid (suc num) m xs [] os v h = absurd (omega arith)
drop_free-IsValid (suc num) m xs (x ∷ fs) os v h =
    let (m', fs', e, v', n) =
      drop_free-IsValid num
        (record m { heap = list_del m.heap x; size_free = sub_size m.size_free 1 }) xs fs os
        (record {
          rings = del-Rings x xs [] fs v.rings;
          owns = v.owns;
          linked = v.linked;
          count = v.count;
          count_free = omega (arith, v.count_free, v.small);
          small = omega (arith, v.small);
        })
        (omega arith) in
    (m', fs', rw (first_free-cons x v, drop_free) e, v', omega arith)

-- `resize` leaves `size` nodes in all, but none of those in use go.
pub resize-IsValid :
    (size : ℕ) {m : ObjMgr} {xs fs os : List ℕ}
    → IsValid m xs fs os
    → size < 2 ^ 62
    → (m' : ObjMgr) × (fs' : List ℕ) × (resize size m ≡ done m')
      × IsValid m' xs fs' os
      × (length fs' ≡ (if leb (length xs) size then size - length xs else length fs))
unfolding resize max_size
resize-IsValid size {m} {xs} {fs} {os} v h =
    let c = v.count in
    let d = v.count_free in
    let total : max_size m ≡ length xs + length fs = omega (arith, v.small) in
    elim (Bool-cases (ltb (max_size m) size)) [
      | inl more ↦
          let num : sub_size size (max_size m) ≡ size - (length xs + length fs) =
            ground (arith, total, v.small) in
          let (fs', v', e) =
            add_free-IsValid (sub_size size (max_size m)) m xs fs os v (ground arith) in
          (add_free (sub_size size (max_size m)) m, fs', rw more refl, v', ground arith)
      | inr few ↦ elim (Bool-cases (ltb size m.size || (size == max_size m))) [
        | inl same ↦ (m, fs, rw (few, same) refl, v, ground arith)
        | inr less ↦
            let num : sub_size m.size_free (sub_size size m.size) ≡ length fs - (size - length xs) =
              ground (arith, v.small) in
            let (m', fs', e, v', n) =
              drop_free-IsValid (sub_size m.size_free (sub_size size m.size)) m xs fs os v
                (ground arith) in
            (m', fs', rw (few, less) e, v', ground arith)
      ]
    ]

-- How many nodes `auto_fix` leaves spare.
abbrev pub fixed : ℕ → ℕ → ℕ → ℕ
fixed prealloc used spare =
    if spare == 0
    then used
    else if ltb (used * 2) spare && ltb prealloc spare
    then prealloc
    else spare

pub auto_fix-IsValid :
    (prealloc : ℕ) {m : ObjMgr} {xs fs os : List ℕ}
    → IsValid m xs fs os
    → length xs + length fs < 2 ^ 61
    → (m' : ObjMgr) × (fs' : List ℕ) × (auto_fix prealloc m ≡ done m')
      × IsValid m' xs fs' os
      × (length fs' ≡ fixed prealloc (length xs) (length fs))
unfolding auto_fix max_size
auto_fix-IsValid prealloc {m} {xs} {fs} {os} v h =
    let c = v.count in
    let d = v.count_free in
    elim (Bool-cases (m.size_free == 0)) [
      | inl none_left ↦
          let (m', fs', e, v', n) = resize-IsValid (wrap (max_size m * 2)) v (omega arith) in
          (m', fs', rw none_left e, v', ground arith)
      | inr some_left ↦
          elim (Bool-cases (ltb (wrap (m.size * 2)) m.size_free && ltb prealloc m.size_free)) [
            | inl many ↦
                let to : sub_size (max_size m) (sub_size m.size_free prealloc)
                    ≡ length xs + prealloc =
                  ground arith in
                let (m', fs', e, v', n) =
                  resize-IsValid (sub_size (max_size m) (sub_size m.size_free prealloc)) v
                    (ground arith) in
                (m', fs', rw (some_left, many) e, v', ground arith)
            | inr few ↦ (m, fs, rw (some_left, few) refl, v, ground arith)
          ]
    ]
