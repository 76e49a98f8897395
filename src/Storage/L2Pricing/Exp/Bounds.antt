-- ===== src/Storage/L2Pricing/Exp/Bounds.antt =====
-- The exponential is at least one for what is not negative, at most one otherwise, and grows with
-- its argument.
use arb_revm.Base.{arith, min, saturating_mul, suc, u256_max, zero, ℕ, ◌*◌, ◌+◌, ◌-◌, ◌/◌, ◌<◌, ◌≤◌}
use native.Mathlib.Nat.{le-div_iff_mul-le, div-mul-le_self, le_trans, div-le_of_le-mul}
use arb_revm.Base.Int.{pos, negsuc}
use arb_revm.Storage.L2Pricing.Exp.{
  one_in_bips, i64_max, horner, exp_of_magnitude, approx_exp_basis_points, big_mul_by_bips,
}

pub div_mono : (k : ℕ) {m n : ℕ} → 0 < k → m ≤ n → m / k ≤ n / k
div_mono k {m} {n} hk h = (le-div_iff_mul-le hk).1 (le_trans (div-mul-le_self m k) h)

pub mul_mono : (a b c d : ℕ) → a ≤ b → c ≤ d → a * c ≤ b * d
mul_mono a b c d h k = grind arith

horner_ge : (i x r : ℕ) → one_in_bips ≤ r → one_in_bips ≤ horner i x r
unfolding horner
horner_ge zero x r h = h
horner_ge (suc i) x r h =
    horner_ge i x (one_in_bips + saturating_mul 64 r x / (suc i * one_in_bips)) (omega arith)

exp_ge_one : (x a : ℕ) → one_in_bips ≤ exp_of_magnitude x a
unfolding exp_of_magnitude
exp_ge_one x a = horner_ge (a - 1) x (one_in_bips + x / a) (omega arith)

-- The approximation lies on the right side of one: e^x is at least 10000 basis points for a value
-- that is not negative and at most 10000 for a negative one, and it fits an `i64`, at an accuracy that
-- is not 0.
pub approx_exp_bounds :
    (x accuracy : ℕ) (positive : 0 < accuracy)
    → (one_in_bips ≤ approx_exp_basis_points (pos x) accuracy positive)
      × (approx_exp_basis_points (pos x) accuracy positive ≤ i64_max)
      × (approx_exp_basis_points (negsuc x) accuracy positive ≤ one_in_bips)
unfolding approx_exp_basis_points
approx_exp_bounds x accuracy positive =
    (omega (arith, exp_ge_one x accuracy), omega arith, negative)
  where
    negative :
        min (one_in_bips * one_in_bips / exp_of_magnitude (suc x) accuracy) i64_max ≤ one_in_bips
    negative = omega (
      arith,
      div-le_of_le-mul (exp_of_magnitude (suc x) accuracy) {m = one_in_bips * one_in_bips}
          {n = one_in_bips} (omega (arith, exp_ge_one (suc x) accuracy)),
    )

horner_mono : (i x y q r : ℕ) → x ≤ y → q ≤ r → horner i x q ≤ horner i y r
unfolding horner
horner_mono zero x y q r hx hq = hq
horner_mono (suc i) x y q r hx hq =
    horner_mono i x y (one_in_bips + saturating_mul 64 q x / (suc i * one_in_bips))
      (one_in_bips + saturating_mul 64 r y / (suc i * one_in_bips)) hx
      (omega (
        arith,
        div_mono (suc i * one_in_bips) {m = saturating_mul 64 q x} {n = saturating_mul 64 r y}
            (omega arith) (omega (arith, mul_mono q r x y hq hx)),
      ))

-- On the numbers from 0 on, and at an accuracy that is not 0, the approximation does not fall as
-- its argument grows.
pub approx_exp_mono :
    (x y accuracy : ℕ) (positive : 0 < accuracy)
    → x ≤ y
    → approx_exp_basis_points (pos x) accuracy positive
      ≤ approx_exp_basis_points (pos y) accuracy positive
unfolding approx_exp_basis_points exp_of_magnitude
approx_exp_mono x y a ha h = omega (
  arith,
  horner_mono (a - 1) x y (one_in_bips + x / a) (one_in_bips + y / a) h
      (omega (arith, div_mono a {m = x} {n = y} ha h)),
)

-- Scaling by at least one does not lower a price, as long as ten thousand times the price fits a
-- word.
pub big_mul_by_bips_ge :
    (v b : ℕ) → one_in_bips ≤ b → v * one_in_bips ≤ u256_max → v ≤ big_mul_by_bips v b
unfolding big_mul_by_bips
big_mul_by_bips_ge v b h fits =
    (le-div_iff_mul-le {k = one_in_bips} {x = v} {y = saturating_mul 256 v b} (omega arith)).1
      (omega (arith, mul_mono v v one_in_bips b (omega arith) h))
