-- ===== src/ObjMgr/Rings.antt =====
-- The two lists of a manager as lists in the heap, and what moves a node from one to the other.
use libkngin.Base.{ℕ, suc, ◌<◌, ◌≡◌, true, List, [], ◌∷◌, ◌++◌, arith, mem, mem-append}
use libkngin.KernelList.{Heap, init_list_head, list_add_tail, list_move_tail, list_del}
use libkngin.KernelList.Chain.{Ring, Ring-frame}
use libkngin.KernelList.Insert.{IsFresh, init_outside, list_add_tail-Ring}
use libkngin.KernelList.Delete.{Distinct-without, list_del-Ring}
use libkngin.KernelList.Move.{AreApart, list_move_tail-Ring}

-- The lists at `a` and `b` hold `xs` and `ys`, have no node in common, and lie below `top`.
pub record Rings (h : Heap) (a b top : ℕ) (xs ys : List ℕ) : Type 0 where
  pub one : Ring h a xs
  pub two : Ring h b ys
  pub apart : AreApart a xs b ys
  pub one_below : (c : ℕ) → mem c (a ∷ xs) ≡ true → c < top
  pub two_below : (c : ℕ) → mem c (b ∷ ys) ≡ true → c < top

pub flip : {h : Heap} {a b top : ℕ} {xs ys : List ℕ} → Rings h a b top xs ys → Rings h b a top ys xs
flip {h} {a} {b} {top} {xs} {ys} r = record {
  one = r.two;
  two = r.one;
  apart = λ c m. ground (arith, r.apart c);
  one_below = r.two_below;
  two_below = r.one_below;
}

-- A new node goes to the end of the first list.
pub add-Rings :
    {h : Heap} {a b top : ℕ} {xs ys : List ℕ}
    → Rings h a b top xs ys
    → Rings (list_add_tail (init_list_head h top) top a) a b (suc top) (xs ++ top ∷ []) ys
add-Rings {h} {a} {b} {top} {xs} {ys} r =
    let one' : Ring (init_list_head h top) a xs =
      Ring-frame (top ∷ []) r.one (init_outside h top) (λ c m. ground (arith, r.one_below c)) in
    let two' : Ring (init_list_head h top) b ys =
      Ring-frame (top ∷ []) r.two (init_outside h top) (λ c m. ground (arith, r.two_below c)) in
    let fresh : IsFresh top a xs = record {
      ne_head = λ e. ground (arith, r.one_below top);
      not_in = ground (arith, r.one_below top);
    } in
    let (k, same) = list_add_tail-Ring top one' fresh in
    record {
      one = k;
      two = Ring-frame (top ∷ a ∷ xs) two' same (λ c m. ground (arith, r.apart c, r.two_below c));
      apart = λ c m. ground (arith, r.apart c, mem-append c xs (top ∷ []), r.two_below c);
      one_below = λ c m. ground (arith, r.one_below c, mem-append c xs (top ∷ []));
      two_below = λ c m. ground (arith, r.two_below c);
    }

-- A node of the first list moves to the end of the second.
pub move-Rings :
    {h : Heap} {a b top : ℕ} (x : ℕ) (xs zs ys : List ℕ)
    → Rings h a b top (xs ++ x ∷ zs) ys
    → Rings (list_move_tail h x b) a b top (xs ++ zs) (ys ++ x ∷ [])
move-Rings {h} {a} {b} {top} x xs zs ys r =
    let (k, l) = list_move_tail-Ring x xs zs ys r.one r.two (λ c m. (flip r).apart c m) in
    record {
      one = k;
      two = l;
      apart = λ c m. ground (
        arith,
        r.apart c,
        mem-append c xs zs,
        mem-append c xs (x ∷ zs),
        mem-append c ys (x ∷ []),
        (Distinct-without x xs zs r.one.distinct).1,
      );
      one_below =
          λ c m. ground (arith, r.one_below c, mem-append c xs zs, mem-append c xs (x ∷ zs));
      two_below = λ c m.
          ground (
            arith,
            r.two_below c,
            r.one_below c,
            mem-append c ys (x ∷ []),
            mem-append c xs (x ∷ zs),
          );
    }

-- A node of the second list is taken out and deleted.
pub del-Rings :
    {h : Heap} {a b top : ℕ} (x : ℕ) (xs ys zs : List ℕ)
    → Rings h a b top xs (ys ++ x ∷ zs)
    → Rings (list_del h x) a b top xs (ys ++ zs)
del-Rings {h} {a} {b} {top} x xs ys zs r =
    let (k, _, _, same) = list_del-Ring x ys zs r.two in
    record {
      one =
          Ring-frame (x ∷ b ∷ (ys ++ zs)) r.one same
            (λ c m. ground (arith, r.apart c, mem-append c ys zs, mem-append c ys (x ∷ zs)));
      two = k;
      apart = λ c m. ground (arith, r.apart c, mem-append c ys zs, mem-append c ys (x ∷ zs));
      one_below = r.one_below;
      two_below =
          λ c m. ground (arith, r.two_below c, mem-append c ys zs, mem-append c ys (x ∷ zs));
    }
