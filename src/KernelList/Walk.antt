-- ===== src/KernelList/Walk.antt =====
-- `list_for_each` visits the nodes of a list in order and comes back to the head.
use libkngin.Base.{ℕ, zero, suc, ◌<◌, ◌≡◌, false, List, [], ◌∷◌, arith, length, mem, some}
use libkngin.KernelList.{Heap, walk, list_for_each}
use libkngin.KernelList.Chain.{Chain, Ring}

walk-Chain :
    (fuel : ℕ) (h : Heap) (head a : ℕ) (xs : List ℕ)
    → Chain h a xs head
    → mem head xs ≡ false
    → length xs < fuel
    → walk fuel h head (h.next a) ≡ some xs
unfolding walk
walk-Chain zero h head a xs c out room = absurd (omega arith)
walk-Chain (suc fuel) h head a [] c out room = ground arith
walk-Chain (suc fuel) h head a (x ∷ xs) c out room =
    ground (arith, walk-Chain fuel h head x xs c.1 (ground arith) (omega arith))

-- `list_for_each` visits exactly the nodes of the list, in their order, in one round more than
-- there are nodes.
pub list_for_each-Ring :
    {h : Heap} {head : ℕ} {xs : List ℕ} (fuel : ℕ)
    → Ring h head xs
    → length xs < fuel
    → list_for_each fuel h head ≡ some xs
unfolding list_for_each
list_for_each-Ring {h} {head} {xs} fuel r room = walk-Chain fuel h head head xs r.chain r.apart room
