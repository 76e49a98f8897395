-- ===== src/Storage/L2Pricing/Update.antt =====
-- `update_pricing_model`: the backlog shrinks with the time passed, and the base fee follows the
-- exponential of what is left of it.
use arb_revm.Base.{
  List, [], if◌then◌else◌, ltb, min, replicate, saturating_mul, suc, zero, ℕ, ◌+◌, ◌-◌, ◌/◌, ◌==◌,
  ◌∷◌, max,
}
use arb_revm.Base.Int.{ℤ, pos, ltb_ℤ, truncated_div}
use arb_revm.Journal.{ArbJournal, M, pure, ◌>>=◌, ◌>>◌}
use arb_revm.Storage.Space.{StorageSlot}
use arb_revm.Storage.Slot.{get_u256, set_u256, get_u64, get_u32, set_u64}
use arb_revm.Storage.L2Pricing.{
  L2Pricing, GasModel, MultiGasConstraint, GasConstraint, legacy, single_gas_constraints,
  multi_gas_constraints, resource_kind_single_dim, open_gas_constraint, open_multi_gas_constraint,
  gas_constraints_len, multi_gas_constraints_len, gas_model, num_resource_kinds,
}
use arb_revm.Storage.L2Pricing.Exp.{
  natural_to_bips, as_i64, saturating_add_i64, approx_exp_basis_points, four_positive,
  big_mul_by_bips, i64_max,
}

-- The exponent of the legacy and the single-constraint model; a divisor of 0 gives 0.
unfoldable pub exponent_bips : ℕ → ℕ → ℤ
unfolding natural_to_bips as_i64
exponent_bips excess divisor =
    if ltb 0 divisor then truncated_div (pos (natural_to_bips excess)) (as_i64 divisor) else pos 0

unfoldable pub legacy_base_fee : ℕ → ℕ → ℕ → ℕ → ℕ → ℕ
unfolding exponent_bips
legacy_base_fee backlog speed_limit inertia tolerance min_base_fee =
    let threshold = saturating_mul 64 tolerance speed_limit in
    if ltb threshold backlog
    then big_mul_by_bips min_base_fee (
        approx_exp_basis_points
          (exponent_bips (backlog - threshold) (saturating_mul 64 inertia speed_limit)) 4
          four_positive)
    else min_base_fee

-- The fee of a total exponent, where only a positive one raises the price.
unfoldable pub fee_of_exponent : ℕ → ℤ → ℕ
fee_of_exponent min_base_fee exponent =
    if ltb_ℤ (pos 0) exponent
    then big_mul_by_bips min_base_fee (approx_exp_basis_points exponent 4 four_positive)
    else min_base_fee

-- The contribution of one multi-gas constraint to one resource, from `dividend` to `contribution`.
unfoldable pub contribution : ℕ → ℕ → ℕ → ℕ
unfolding natural_to_bips
contribution backlog weight divisor =
    natural_to_bips (saturating_mul 64 backlog weight) / min divisor i64_max

module _ (J : ArbJournal) where
  open J use {State}

  unfoldable pub update_pricing_model_legacy : L2Pricing → ℕ → M State (Unit {0})
  update_pricing_model_legacy l time_passed = do
    speed_limit ← get_u64 J l.speed_limit_per_second
    current_backlog ← get_u64 J l.gas_backlog
    let new_backlog = current_backlog - saturating_mul 64 time_passed speed_limit
    set_u64 J l.gas_backlog new_backlog
    inertia ← get_u64 J l.pricing_inertia
    tolerance ← get_u64 J l.backlog_tolerance
    min_base_fee ← get_u256 J l.min_base_fee_wei
    set_u256 J l.base_fee_wei
        (legacy_base_fee new_backlog speed_limit inertia tolerance min_base_fee)

  -- The exponent of one constraint with backlog left.
  unfoldable pub single_exponent : GasConstraint → ℕ → ℕ → M State ℤ
  single_exponent c target backlog =
      if ltb 0 backlog
      then (get_u64 J c.adjustment_window >>= λ inertia.
          pure (exponent_bips backlog (saturating_mul 64 inertia target)))
      else pure (pos 0)

  -- The rounds from index `i` on, `n` of them.
  unfoldable pub single_exponents : L2Pricing → ℕ → ℕ → ℕ → ℤ → M State ℤ
  single_exponents l time_passed zero i total = pure total
  single_exponents l time_passed (suc n) i total = do
    let constraint = open_gas_constraint J l i
    target ← get_u64 J constraint.target
    old_backlog ← get_u64 J constraint.backlog
    let backlog = old_backlog - saturating_mul 64 time_passed target
    set_u64 J constraint.backlog backlog
    exponent ← single_exponent constraint target backlog
    single_exponents l time_passed n (i + 1) (saturating_add_i64 total exponent)

  unfoldable pub update_pricing_model_single_constraints : L2Pricing → ℕ → M State (Unit {0})
  update_pricing_model_single_constraints l time_passed = do
    len ← gas_constraints_len J l
    total ← single_exponents l time_passed len 0 (pos 0)
    min_base_fee ← get_u256 J l.min_base_fee_wei
    set_u256 J l.base_fee_wei (fee_of_exponent min_base_fee total)

  -- The first loop of `update_pricing_model_multi_constraints`.
  unfoldable pub pay_down : L2Pricing → ℕ → ℕ → ℕ → M State (Unit {0})
  pay_down l time_passed zero i = pure tt
  pay_down l time_passed (suc n) i = do
    let constraint = open_multi_gas_constraint J l i
    target ← get_u64 J constraint.target
    backlog ← get_u64 J constraint.backlog
    set_u64 J constraint.backlog (backlog - saturating_mul 64 time_passed target)
    pay_down l time_passed n (i + 1)

  -- The exponents are not negative: numbers up to `i64::MAX`.
  unfoldable pub exponent_of_kind : MultiGasConstraint → ℕ → ℕ → ℕ → ℕ → M State ℕ
  exponent_of_kind c backlog divisor kind exponent =
      if kind == resource_kind_single_dim
      then pure exponent
      else (get_u64 J (c.weighted_resources kind) >>= λ weight. pure (
          if weight == 0
          then exponent
          else min (exponent + contribution backlog weight divisor) i64_max))

  unfoldable pub exponents_of_kinds : MultiGasConstraint → ℕ → ℕ → ℕ → List ℕ → M State (List ℕ)
  exponents_of_kinds c backlog divisor kind [] = pure []
  exponents_of_kinds c backlog divisor kind (e ∷ es) = do
    e' ← exponent_of_kind c backlog divisor kind e
    es' ← exponents_of_kinds c backlog divisor (kind + 1) es
    pure (e' ∷ es')

  -- A constraint with a divisor of 0 adds nothing.
  unfoldable pub weigh : MultiGasConstraint → ℕ → ℕ → List ℕ → M State (List ℕ)
  weigh c target backlog exponents = do
    adjustment_window ← get_u32 J c.adjustment_window
    max_weight ← get_u64 J c.max_weight
    let divisor = saturating_mul 64 (saturating_mul 64 adjustment_window target) max_weight
    if divisor == 0 then pure exponents else exponents_of_kinds c backlog divisor 0 exponents

  unfoldable pub multi_exponents : L2Pricing → ℕ → ℕ → List ℕ → M State (List ℕ)
  multi_exponents l zero i exponents = pure exponents
  multi_exponents l (suc n) i exponents = do
    let constraint = open_multi_gas_constraint J l i
    target ← get_u64 J constraint.target
    backlog ← get_u64 J constraint.backlog
    exponents' ← if backlog == 0 then pure exponents else weigh constraint target backlog exponents
    multi_exponents l n (i + 1) exponents'

  unfoldable pub multi_gas_constraint_exponents : L2Pricing → M State (List ℕ)
  multi_gas_constraint_exponents l = do
    len ← multi_gas_constraints_len J l
    multi_exponents l len 0 (replicate num_resource_kinds 0)

  -- Writes the next fee of each resource, and keeps the largest.
  unfoldable pub set_next_fees : (ℕ → StorageSlot) → ℕ → ℕ → ℕ → List ℕ → M State ℕ
  set_next_fees next min_base_fee max_base_fee kind [] = pure max_base_fee
  set_next_fees next min_base_fee max_base_fee kind (e ∷ es) = do
    let base_fee = fee_of_exponent min_base_fee (pos e)
    set_u256 J (next kind) base_fee
    set_next_fees next min_base_fee (max max_base_fee base_fee) (kind + 1) es

  unfoldable pub update_pricing_model_multi_constraints : L2Pricing → ℕ → M State (Unit {0})
  update_pricing_model_multi_constraints l time_passed = do
    len ← multi_gas_constraints_len J l
    pay_down l time_passed len 0
    exponents ← multi_gas_constraint_exponents l
    min_base_fee ← get_u256 J l.min_base_fee_wei
    max_base_fee ← set_next_fees l.multi_gas_fees.next min_base_fee min_base_fee 0 exponents
    set_u256 J l.base_fee_wei max_base_fee

  abbrev update_under : L2Pricing → ℕ → GasModel → M State (Unit {0})
  update_under l time_passed legacy = update_pricing_model_legacy l time_passed
  update_under l time_passed single_gas_constraints =
      update_pricing_model_single_constraints l time_passed
  update_under l time_passed multi_gas_constraints =
      update_pricing_model_multi_constraints l time_passed

  unfoldable pub update_pricing_model : L2Pricing → ℕ → ℕ → M State (Unit {0})
  update_pricing_model l time_passed arbos_version = do
    model ← gas_model J l arbos_version
    update_under l time_passed model
