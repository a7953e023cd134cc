-- ===== src/Base/Memory.antt =====
-- The host's memory as bytes at addresses, with `memcpy` and little-endian words: a word of `n`
-- bytes at `p` has its lowest byte at `p`.
use Prim.Native.Nat.{ℕ, zero, suc, ◌+◌, ◌*◌, ◌/◌, ◌%◌, ◌^◌, ◌≤◌, ◌<◌}
use mathlib.Core.Path.{◌≡◌, refl, ap, ap₂, ◌∙◌}
use mathlib.Core.Logic.{◌⊎◌, inl, inr}
use mathlib.Core.List.{List, [], ◌∷◌, ◌++◌}
use native.Mathlib.Omega.{arith}
use native.Mathlib.Nat.{pow-suc}
use libkngin.Base.Tests.{◌==◌, if◌then◌else◌}
use libkngin.Base.Lists.{length}

abbrev pub Memory : Type 0
Memory = ℕ → ℕ

abbrev pub update : Memory → ℕ → ℕ → Memory
update m p v a = if a == p then v else m a

-- The `n` bytes from `p` on.
unfoldable pub load : Memory → ℕ → ℕ → List ℕ
load m p zero = []
load m p (suc n) = m p ∷ load m (suc p) n

-- `memcpy(p, bs, length bs)`.
unfoldable pub store : Memory → ℕ → List ℕ → Memory
store m p [] = m
store m p (b ∷ bs) = update (store m (suc p) bs) p b

pub length-load : (m : Memory) (p n : ℕ) → length (load m p n) ≡ n
unfolding load
length-load m p zero = refl
length-load m p (suc n) = ap suc (length-load m (suc p) n)

pub load-update_below : (m : Memory) (q v p n : ℕ) → q < p → load (update m q v) p n ≡ load m p n
unfolding load
load-update_below m q v p zero h = refl
load-update_below m q v p (suc n) h =
    ap₂ ◌∷◌ (ground arith) (load-update_below m q v (suc p) n (omega arith))

pub load-store : (m : Memory) (p : ℕ) (bs : List ℕ) → load (store m p bs) p (length bs) ≡ bs
unfolding load store
load-store m p [] = refl
load-store m p (b ∷ bs) = ap₂ ◌∷◌ (ground arith) (
    load-update_below (store m (suc p) bs) p b (suc p) (length bs) (omega arith)
    ∙ load-store m (suc p) bs)

-- `memcpy` writes nowhere else.
pub store_outside :
    (m : Memory) (p : ℕ) (bs : List ℕ) (a : ℕ)
    → (a < p) ⊎ (p + length bs ≤ a)
    → store m p bs a ≡ m a
unfolding store
store_outside m p [] a h = refl
store_outside m p (b ∷ bs) a (inl h) =
    ground (arith, store_outside m (suc p) bs a (inl (omega arith)))
store_outside m p (b ∷ bs) a (inr h) =
    ground (arith, store_outside m (suc p) bs a (inr (omega arith)))

pub load_cong :
    (m k : Memory) (p n : ℕ) → ((a : ℕ) → p ≤ a → a < p + n → m a ≡ k a) → load m p n ≡ load k p n
unfolding load
load_cong m k p zero h = refl
load_cong m k p (suc n) h =
    ap₂ ◌∷◌ (h p (omega arith) (omega arith))
      (load_cong m k (suc p) n λ a lo hi. h a (omega arith) (omega arith))

pub load-add : (m : Memory) (p n k : ℕ) → load m p (n + k) ≡ load m p n ++ load m (p + n) k
unfolding load
load-add m p zero k =
    let e : zero + k ≡ k = omega arith in let f : p + zero ≡ p = omega arith in rw (e, f)
load-add m p (suc n) k =
    let e : suc n + k ≡ suc (n + k) = omega arith in
    let f : suc p + n ≡ p + suc n = omega arith in
    rw (e, ← f) (ap (λ l. m p ∷ l) (load-add m (suc p) n k))

-- Bytes stored right behind `k` others.
pub load-store_after :
    (m : Memory) (p k : ℕ) (bs : List ℕ)
    → load (store m (p + k) bs) p (k + length bs) ≡ load m p k ++ bs
load-store_after m p k bs =
    load-add (store m (p + k) bs) p k (length bs)
    ∙ ap₂ ◌++◌
        (load_cong (store m (p + k) bs) m p k
          λ a lo hi. store_outside m (p + k) bs a (inl (omega arith)))
        (load-store m (p + k) bs)

-- The value of a little-endian word, and the `n` bytes of a word.
unfoldable pub word_of : List ℕ → ℕ
word_of [] = 0
word_of (b ∷ bs) = b + 256 * word_of bs

unfoldable pub bytes_of : ℕ → ℕ → List ℕ
bytes_of zero v = []
bytes_of (suc n) v = (v % 256) ∷ bytes_of n (v / 256)

pub length-bytes_of : (n v : ℕ) → length (bytes_of n v) ≡ n
unfolding bytes_of
length-bytes_of zero v = refl
length-bytes_of (suc n) v = ap suc (length-bytes_of n (v / 256))

pub word_of-bytes_of : (n v : ℕ) → v < 256 ^ n → word_of (bytes_of n v) ≡ v
unfolding word_of bytes_of
word_of-bytes_of zero v h = omega arith
word_of-bytes_of (suc n) v h =
    omega (arith, word_of-bytes_of n (v / 256) (omega (arith, pow-suc 256 n)))
