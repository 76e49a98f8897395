-- ===== src/Storage/L2Pricing/Backlog.antt =====
-- Growing and shrinking the gas backlog, and what `ArbRetryableTx.Redeem` reserves for it.
use arb_revm.Base.{
  Option, if◌then◌else◌, leb, ltb, none, saturating_add, saturating_mul, some, suc, unwrap_or, zero,
  ℕ, ◌&&◌, ◌*◌, ◌+◌, ◌-◌, ◌==◌,
}
use arb_revm.Journal.{ArbJournal, M, pure, raise, unsupported, panic, ◌>>=◌, ◌>>◌}
use arb_revm.Journal.Metered.{storage_read_cost, storage_write_cost, storage_write_zero_cost}
use arb_revm.Storage.Slot.{get_u64, set_u64}
use arb_revm.Storage.L2Pricing.{
  L2Pricing, GasModel, legacy, single_gas_constraints, multi_gas_constraints,
  resource_kind_single_dim, open_gas_constraint, open_multi_gas_constraint, gas_constraints_len,
  multi_gas_constraints_len, gas_model, arbos_single_gas_constraints_version,
  arbos_multi_constraint_fix_version, arbos_multi_gas_constraints_version,
}

-- What a backlog write costs: a word that becomes 0 is cheaper.
unfoldable pub update_cost : ℕ → ℕ
update_cost updated = if updated == 0 then storage_write_zero_cost else storage_write_cost

unfoldable pub backlog_update_cost_for_constraints : ℕ → ℕ → ℕ
backlog_update_cost_for_constraints arbos_version constraints_len =
    let gas_model_read =
      if leb arbos_single_gas_constraints_version arbos_version then storage_read_cost else 0 in
    if leb arbos_multi_gas_constraints_version arbos_version
    then storage_read_cost + storage_write_cost
    else if leb arbos_multi_constraint_fix_version arbos_version && ltb 0 constraints_len
    then saturating_add 64 (saturating_add 64 gas_model_read storage_read_cost)
        (saturating_mul 64 constraints_len (storage_read_cost + storage_write_cost))
    else saturating_add 64 gas_model_read (storage_read_cost + storage_write_cost)

abbrev pub fixed_cost : ℕ → Option ℕ
fixed_cost arbos_version =
    if leb arbos_multi_gas_constraints_version arbos_version
    then some (storage_read_cost + storage_write_cost)
    else none

module _ (J : ArbJournal) where
  open J use {State}

  unfoldable pub grow_constraints : L2Pricing → ℕ → ℕ → ℕ → M State (Unit {0})
  grow_constraints l used_gas zero i = pure tt
  grow_constraints l used_gas (suc n) i = do
    let constraint = open_gas_constraint J l i
    backlog ← get_u64 J constraint.backlog
    set_u64 J constraint.backlog (saturating_add 64 backlog used_gas)
    grow_constraints l used_gas n (i + 1)

  -- The multi-gas model refuses: it would need the gas of each resource.
  unfoldable pub grow_under : L2Pricing → ℕ → GasModel → M State (Unit {0})
  grow_under l used_gas legacy = do
    current ← get_u64 J l.gas_backlog
    set_u64 J l.gas_backlog (saturating_add 64 current used_gas)
  grow_under l used_gas single_gas_constraints = do
    len ← gas_constraints_len J l
    grow_constraints l used_gas len 0
  grow_under l used_gas multi_gas_constraints = raise unsupported

  unfoldable pub grow_backlog : L2Pricing → ℕ → ℕ → M State (Unit {0})
  grow_backlog l used_gas arbos_version = do
    model ← gas_model J l arbos_version
    grow_under l used_gas model

  unfoldable pub shrink_constraints : L2Pricing → ℕ → ℕ → ℕ → ℕ → M State ℕ
  shrink_constraints l gas zero i metered_cost = pure metered_cost
  shrink_constraints l gas (suc n) i metered_cost = do
    let constraint = open_gas_constraint J l i
    backlog ← get_u64 J constraint.backlog
    set_u64 J constraint.backlog (backlog - gas)
    shrink_constraints l gas n (i + 1)
        (saturating_add 64 metered_cost (storage_read_cost + update_cost (backlog - gas)))

  unfoldable pub shrink_multi_constraints : L2Pricing → ℕ → ℕ → ℕ → M State (Unit {0})
  shrink_multi_constraints l gas zero i = pure tt
  shrink_multi_constraints l gas (suc n) i = do
    let constraint = open_multi_gas_constraint J l i
    backlog ← get_u64 J constraint.backlog
    weight ← get_u64 J (constraint.weighted_resources resource_kind_single_dim)
    set_u64 J constraint.backlog (backlog - saturating_mul 64 gas weight)
    shrink_multi_constraints l gas n (i + 1)

  -- The state changes, and the gas that the call is charged for them.
  unfoldable pub shrink_under : L2Pricing → ℕ → ℕ → GasModel → M State ℕ
  shrink_under l gas arbos_version legacy = do
    current ← get_u64 J l.gas_backlog
    let updated = current - gas
    set_u64 J l.gas_backlog updated
    let model_read =
        if leb arbos_single_gas_constraints_version arbos_version then storage_read_cost else 0
    pure (
        unwrap_or (fixed_cost arbos_version) (model_read + storage_read_cost + update_cost updated))
  shrink_under l gas arbos_version single_gas_constraints = do
    len ← gas_constraints_len J l
    metered_cost ← shrink_constraints l gas len 0 (2 * storage_read_cost)
    pure (unwrap_or (fixed_cost arbos_version) metered_cost)
  shrink_under l gas arbos_version multi_gas_constraints = do
    len ← multi_gas_constraints_len J l
    shrink_multi_constraints l gas len 0
    elim (fixed_cost arbos_version) [ some cost ↦ pure cost | none ↦ raise panic ]

  unfoldable pub shrink_backlog : L2Pricing → ℕ → ℕ → M State ℕ
  shrink_backlog l gas arbos_version = do
    model ← gas_model J l arbos_version
    shrink_under l gas arbos_version model

  -- The length of the vector counts only from the fix on, and below version 60.
  unfoldable pub backlog_update_cost : L2Pricing → ℕ → M State ℕ
  backlog_update_cost l arbos_version = do
    len ←
        if leb arbos_multi_constraint_fix_version arbos_version
          && ltb arbos_version arbos_multi_gas_constraints_version
        then gas_constraints_len J l
        else pure 0
    pure (backlog_update_cost_for_constraints arbos_version len)
