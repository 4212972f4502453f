-- ===== src/Sched/Ratio.antt =====
-- Ratios of integers with positive denominators, compared by their cross products.
use native.Mathlib.Decide.{dec_le}
use spring_os_mp.Prelude.{ℕ, ◌+◌, ◌*◌, ◌≤◌, ◌<◌, ◌≡◌, refl, true, arith}
use spring_os_mp.Prelude.Int.{ℤ, pos, negsuc, ltb_ℤ, pos_part, neg_part, sub_ℕ, ◌*ℤ◌, ◌≤ℤ◌}

sub_ℕ_parts : (a b : ℕ) → pos_part (sub_ℕ a b) + b ≡ neg_part (sub_ℕ a b) + a
sub_ℕ_parts a b = ground arith

pub *ℤ_parts :
    (a b : ℤ)
    → pos_part (a *ℤ b) + (pos_part a * neg_part b + neg_part a * pos_part b)
      ≡ neg_part (a *ℤ b) + (pos_part a * pos_part b + neg_part a * neg_part b)
unfolding ◌*ℤ◌
*ℤ_parts a b = sub_ℕ_parts _ _

cancel-le : (q k m : ℕ) → 0 < q → q * k ≤ q * m → k ≤ m
cancel-le q k m p h = elim (dec_le k m) [ yes le ↦ le | no gt ↦ absurd (grind arith) ]

-- The middle denominator cancels, over the parts of the three numerators.
cross_parts :
    (xp xn yp yn zp zn p q r : ℕ)
    → 0 < q
    → yp * p + xn * q ≤ xp * q + yn * p
    → zp * q + yn * r ≤ yp * r + zn * q
    → zp * p + xn * r ≤ xp * r + zn * p
cross_parts xp xn yp yn zp zn p q r h a b =
    cancel-le q (zp * p + xn * r) (xp * r + zn * p) h (omega (arith, mul_le r a, mul_le p b))
  where
    mul_le : {m n : ℕ} (k : ℕ) → m ≤ n → k * m ≤ k * n
    mul_le k l = grind arith

pos_of_lt : (b : ℤ) → ltb_ℤ (pos 0) b ≡ true → (n : ℕ) × (b ≡ pos n) × (0 < n)
pos_of_lt (pos n) h = (n, refl, ground arith)
pos_of_lt (negsuc n) h = absurd (ground arith)

-- If y / q ≤ x / p and z / r ≤ y / q then z / r ≤ x / p.
pub cross-le :
    (x y z p q r : ℤ)
    → ltb_ℤ (pos 0) p ≡ true
    → ltb_ℤ (pos 0) q ≡ true
    → ltb_ℤ (pos 0) r ≡ true
    → y *ℤ p ≤ℤ x *ℤ q
    → z *ℤ q ≤ℤ y *ℤ r
    → z *ℤ p ≤ℤ x *ℤ r
cross-le x y z p q r hp hq hr a b =
    let (p', ep, _) = pos_of_lt p hp in
    let (q', eq, q_pos) = pos_of_lt q hq in
    let (r', er, _) = pos_of_lt r hr in
    rw (ep, er)
      (back z p' x r' (
        cross_parts (pos_part x) (neg_part x) (pos_part y) (neg_part y) (pos_part z) (neg_part z) p'
          q' r' q_pos (forth y p' x q' (rw (ep, eq) at a)) (forth z q' y r' (rw (eq, er) at b))))
  where
    forth :
        (a : ℤ) (m : ℕ) (b : ℤ) (n : ℕ)
        → a *ℤ pos m ≤ℤ b *ℤ pos n
        → pos_part a * m + neg_part b * n ≤ pos_part b * n + neg_part a * m
    forth a m b n h = omega (arith, *ℤ_parts a (pos m), *ℤ_parts b (pos n))

    back :
        (a : ℤ) (m : ℕ) (b : ℤ) (n : ℕ)
        → pos_part a * m + neg_part b * n ≤ pos_part b * n + neg_part a * m
        → a *ℤ pos m ≤ℤ b *ℤ pos n
    back a m b n h = omega (arith, *ℤ_parts a (pos m), *ℤ_parts b (pos n))
