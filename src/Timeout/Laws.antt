-- ===== src/Timeout/Laws.antt =====
-- How the operations of libkngin/include/kngin/core/base/timeout.h fit together.
use libkngin.Base.{
  ℕ, ◌+◌, ◌-◌, ◌≡◌, ◌∙◌, ap, not, Bool-cases, refl, true, false, ◌⊎◌, inl, inr, arith,
}
use libkngin.Base.Int.{ℤ, pos, negsuc, pos_part, neg_part, sub_ℕ, ◌+ℤ◌, ◌-ℤ◌, ltb_ℤ}
use libkngin.Timestamp.{Timestamp, timestamp, plus, minus, diff, zero_time}
use libkngin.Timeout.{Timeout, update, timed_out, remaining}

sub-add : (a b : ℤ) → (b +ℤ (a -ℤ b)) ≡ a
unfolding ◌+ℤ◌ ◌-ℤ◌
sub-add (pos a) (pos b) = ground arith
sub-add (pos a) (negsuc b) = ground arith
sub-add (negsuc a) (pos b) = ground arith
sub-add (negsuc a) (negsuc b) = ground arith

parts : (a b : ℕ) → (pos_part (sub_ℕ a b) ≡ a - b) × (neg_part (sub_ℕ a b) ≡ b - a)
parts a b = ground arith

diff-order : (x y : ℤ) → ltb_ℤ (pos 0) (y -ℤ x) ≡ ltb_ℤ x y
unfolding ◌-ℤ◌
diff-order x y =
    let (p, n) = parts (pos_part y + neg_part x) (neg_part y + pos_part x) in
    rw (p, n) (ground arith)

pub shift-order : (x y d : ℤ) → ltb_ℤ x y ≡ ltb_ℤ (x +ℤ d) (y +ℤ d)
unfolding ◌+ℤ◌
shift-order x y d =
    let (p, n) = parts (pos_part x + pos_part d) (neg_part x + neg_part d) in
    let (q, m) = parts (pos_part y + pos_part d) (neg_part y + neg_part d) in
    rw (p, n, q, m) (ground arith)

-- Either a timeout has expired and no time remains, or it has not, and the time that remains is
-- positive and leads from `now` to the expiry.
pub remaining-timed_out :
    (t : Timeout) (now : Timestamp)
    → ((timed_out t now ≡ true) × (remaining t now ≡ zero_time))
      ⊎ ((timed_out t now ≡ false)
          × (ltb_ℤ (pos 0) (remaining t now).ms ≡ true)
          × (plus now (remaining t now) ≡ t.next))
unfolding timed_out remaining diff minus plus
remaining-timed_out t now =
    let order = diff-order now.ms t.next.ms in
    elim (Bool-cases (ltb_ℤ now.ms t.next.ms)) [
      | inl h ↦ inr (
        rw h refl,
        rw (order, h) (order ∙ h),
        rw (order, h) (ap timestamp (sub-add t.next.ms now.ms)),
      )
      | inr h ↦ inl (rw h refl, rw (order, h) refl)
    ]

-- An update moves the expiry by one period: the updated timeout has expired a period after `now`
-- exactly if the old one has expired at `now`.
pub update-timed_out :
    (t : Timeout) (now : Timestamp) → timed_out t now ≡ timed_out (update t) (plus now t.interval)
unfolding timed_out update plus
update-timed_out t now = ap not (shift-order now.ms t.next.ms t.interval.ms)
