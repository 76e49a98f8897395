-- ===== src/Storage/L1Pricing/Arithmetic.antt =====
-- The arithmetic of crates/arb-revm/src/storage/l1_pricing.rs: saturating operations on words and
-- on signed words, Go's division, and the gas that a batch of a given size costs.
use arb_revm.Base.{
  checked_add, checked_mul, checked_sub, if◌then◌else◌, ltb, map_option, saturating_add,
  saturating_mul, u256_max, unwrap_or, ℕ, ◌&&◌, ◌-◌, ◌/◌, ◌^◌,
}
use arb_revm.Base.Int.{ℤ, pos, pos_part, checked, truncated_div, ltb_ℤ, leb_ℤ, ◌+ℤ◌, ◌-ℤ◌, ◌*ℤ◌}

abbrev pub i256_max : ℤ
i256_max = pos (2 ^ 255 - 1)

unfoldable pub add_u256_saturating : ℕ → ℕ → ℕ
add_u256_saturating a b = unwrap_or (checked_add 256 a b) u256_max

unfoldable pub sub_u256_floor_zero : ℕ → ℕ → ℕ
sub_u256_floor_zero a b = unwrap_or (checked_sub a b) 0

unfoldable pub mul_u256_u64_saturating : ℕ → ℕ → ℕ
mul_u256_u64_saturating value multiplier = unwrap_or (checked_mul 256 value multiplier) u256_max

unfoldable pub mul_u256_by_bips_saturating : ℕ → ℕ → ℕ
mul_u256_by_bips_saturating value bips = mul_u256_u64_saturating value bips / 10000

unfoldable pub u256_to_i256_saturating : ℕ → ℤ
u256_to_i256_saturating value = if ltb (2 ^ 255 - 1) value then i256_max else pos value

unfoldable pub i256_nonnegative_to_u256 : ℤ → ℕ
i256_nonnegative_to_u256 value = if leb_ℤ value (pos 0) then 0 else pos_part value

unfoldable pub add_i256_u256_saturating : ℤ → ℕ → ℤ
add_i256_u256_saturating a b = unwrap_or (checked 255 (a +ℤ u256_to_i256_saturating b)) i256_max

-- `-x` of an `I256` wraps at its least value.
unfoldable pub neg_i256 : ℤ → ℤ
neg_i256 x = unwrap_or (checked 255 (pos 0 -ℤ x)) x

-- Go's `big.Int.Div` by a positive divisor, from a division that cuts off towards zero.
unfoldable pub div_i256_like_go_bigint : ℤ → ℤ → ℤ
div_i256_like_go_bigint dividend divisor =
    let quotient = unwrap_or (checked 255 (truncated_div dividend divisor)) (pos 0) in
    let product = unwrap_or (checked 255 (quotient *ℤ divisor)) (pos 0) in
    let remainder = unwrap_or (checked 255 (dividend -ℤ product)) (pos 0) in
    if leb_ℤ divisor (pos 0)
    then pos 0
    else if ltb_ℤ remainder (pos 0)
    then unwrap_or (checked 255 (quotient -ℤ pos 1)) quotient
    else quotient

unfoldable pub words_for_bytes : ℕ → ℕ
words_for_bytes byte_len = saturating_add 64 byte_len 31 / 32

unfoldable pub signed_i64_to_u64_floor_zero : ℤ → ℕ
signed_i64_to_u64_floor_zero value = if leb_ℤ value (pos 0) then 0 else pos_part value

unfoldable pub legacy_batch_cost_for_stats : ℕ → ℕ → ℕ
legacy_batch_cost_for_stats len non_zeros =
    let calldata_gas =
      saturating_add 64 (saturating_mul 64 4 (len - non_zeros)) (saturating_mul 64 16 non_zeros) in
    saturating_add 64
      (saturating_add 64 (saturating_add 64 calldata_gas 30)
        (saturating_mul 64 (words_for_bytes len) 6))
      (saturating_mul 64 2 20000)

-- The price moves by the difference between the derivative that would even out the surplus and the
-- one that was seen, weighed by the units that were allocated.
unfoldable pub price_change : ℤ → ℤ → ℤ → ℤ → ℤ → ℤ
price_change surplus old_surplus equilibration_units units_allocated alloc_plus_inert =
    let desired = div_i256_like_go_bigint (neg_i256 surplus) equilibration_units in
    let actual =
      unwrap_or
        (map_option (λ delta. div_i256_like_go_bigint delta units_allocated)
          (checked 255 (surplus -ℤ old_surplus)))
        (pos 0) in
    let change = unwrap_or (checked 255 (desired -ℤ actual)) (pos 0) in
    unwrap_or
      (map_option (λ v. div_i256_like_go_bigint v alloc_plus_inert)
        (checked 255 (change *ℤ units_allocated)))
      (pos 0)

-- The price after the change; an unchanged price is not converted.
unfoldable pub next_price : ℕ → ℤ → ℕ
next_price price change =
    let next = unwrap_or (checked 255 (u256_to_i256_saturating price +ℤ change)) i256_max in
    if leb_ℤ change (pos 0) && leb_ℤ (pos 0) change
    then price
    else if leb_ℤ next (pos 0)
    then 0
    else i256_nonnegative_to_u256 next
