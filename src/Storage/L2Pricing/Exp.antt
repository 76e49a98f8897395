-- ===== src/Storage/L2Pricing/Exp.antt =====
-- `approx_exp_basis_points` and `big_mul_by_bips` of crates/arb-revm/src/storage/l2_pricing.rs (the
-- first stands once more in storage/programs.rs), and the casts around them.
pub mod Bounds
use arb_revm.Base.{
  Bool, Bool-cases, List, Option, Option-cases, [], ap, append-nil, append_assoc, ap₂, arith,
  bit_and, bit_or, bit_xor, checked_add, checked_mul, checked_sub, dec_le, dec_lt, drop, eq_self,
  eq_true→eq, false, fun_ext, if◌then◌else◌, inl, inr, leb, length, length-append, le→leb, le→ltb,
  ltb, ltb→lt, lt→ltb, min, ne→eq_false, none, not, refl, replicate, saturating_add, saturating_mul,
  some, subst, suc, sym, take, true, u256_max, u64_max, unwrap_or, zero, ℕ, ℕ_discrete, ◌%◌, ◌&&◌,
  ◌*◌, ◌++◌, ◌+◌, ◌-◌, ◌/◌, ◌<◌, ◌==◌, ◌^◌, ◌||◌, ◌↔◌, ◌∎, ◌∙◌, ◌∷◌, ◌≡◌, ◌≡⟨◌⟩◌, ◌≢◌, ◌≤◌, ◌⊎◌,
}
use arb_revm.Base.Int.{ℤ, pos, negsuc, pos_part, neg_part, ltb_ℤ, sub_ℕ, ◌+ℤ◌}

abbrev pub one_in_bips : ℕ
one_in_bips = 10000

abbrev pub i64_max : ℕ
i64_max = 2 ^ 63 - 1

-- `as i64` of a `u64`.
unfoldable pub as_i64 : ℕ → ℤ
as_i64 v = if ltb v (2 ^ 63) then pos v else negsuc (2 ^ 64 - v - 1)

-- `(v as i128).saturating_mul(ONE_IN_BIPS).min(i64::MAX) as i64`, for a `u64`.
unfoldable pub natural_to_bips : ℕ → ℕ
natural_to_bips v = min (v * one_in_bips) i64_max

-- `i64::saturating_add`.
unfoldable pub saturating_add_i64 : ℤ → ℤ → ℤ
unfolding ◌+ℤ◌
saturating_add_i64 a b =
    let sum = a +ℤ b in
    if ltb i64_max (pos_part sum)
    then pos i64_max
    else if ltb (2 ^ 63) (neg_part sum)
    then sub_ℕ 0 (2 ^ 63)
    else sum

-- The loop `for i in (1..accuracy).rev()`, from `i` down to 1.
pub horner : ℕ → ℕ → ℕ → ℕ
horner zero x result = result
horner (suc i) x result =
    horner i x (one_in_bips + saturating_mul 64 result x / (suc i * one_in_bips))

-- The Maclaurin polynomial of degree `accuracy` in Horner form, on a magnitude.
unfoldable pub exp_of_magnitude : ℕ → ℕ → ℕ
unfolding horner
exp_of_magnitude x accuracy = horner (accuracy - 1) x (one_in_bips + x / accuracy)

-- The source divides by the accuracy and panics at 0: a caller shows that its accuracy is not 0.
unfoldable pub approx_exp_basis_points : ℤ → (accuracy : ℕ) → 0 < accuracy → ℕ
unfolding exp_of_magnitude
approx_exp_basis_points (pos x) accuracy positive = min (exp_of_magnitude x accuracy) i64_max
approx_exp_basis_points (negsuc n) accuracy positive =
    min (one_in_bips * one_in_bips / exp_of_magnitude (suc n) accuracy) i64_max

-- The accuracies that the callers ask for.
pub four_positive : 0 < 4
four_positive = omega arith

pub twelve_positive : 0 < 12
twelve_positive = omega arith

-- `big_mul_by_bips`: the bips come from `approx_exp_basis_points`, which is never negative.
unfoldable pub big_mul_by_bips : ℕ → ℕ → ℕ
big_mul_by_bips value bips = saturating_mul 256 value bips / one_in_bips
