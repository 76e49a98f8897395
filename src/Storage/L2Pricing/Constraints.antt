-- ===== src/Storage/L2Pricing/Constraints.antt =====
-- The vectors of gas constraints: appending, clearing, and the rotation of the multi-gas fees.
use arb_revm.Base.{List, [], saturating_add, suc, zero, ℕ, ◌%◌, ◌+◌, ◌-◌, ◌^◌, ◌∷◌, max}
use arb_revm.Journal.{ArbJournal, M, pure, ◌>>=◌, ◌>>◌}
use arb_revm.Storage.Space.{StorageSlot}
use arb_revm.Storage.Slot.{get_u256, set_u256, set_u64, set_u32}
use arb_revm.Storage.L2Pricing.{
  L2Pricing, GasModel, MultiGasFees, multi_gas_constraints, num_resource_kinds, open_gas_constraint,
  open_multi_gas_constraint, gas_constraints_len, multi_gas_constraints_len, gas_constraints_length,
  multi_gas_constraints_length, gas_model,
}

-- `max().unwrap_or(0)`.
abbrev pub max_weight_of : List ℕ → ℕ
max_weight_of [] = 0
max_weight_of (w ∷ ws) = max w (max_weight_of ws)

module _ (J : ArbJournal) where
  open J use {State}

  -- `commit_next_to_current`, from `kind` for `n` kinds.
  unfoldable pub commit_from : MultiGasFees → ℕ → ℕ → M State (Unit {0})
  commit_from fees zero kind = pure tt
  commit_from fees (suc n) kind = do
    next ← get_u256 J (fees.next kind)
    set_u256 J (fees.current kind) next
    commit_from fees n (kind + 1)

  abbrev commit_if : MultiGasFees → GasModel → M State (Unit {0})
  commit_if fees multi_gas_constraints = commit_from fees num_resource_kinds 0
  commit_if fees _ = pure tt

  -- A no-op unless the multi-gas model is in force.
  unfoldable pub commit_multi_gas_fees : L2Pricing → ℕ → M State (Unit {0})
  unfolding commit_from
  commit_multi_gas_fees l arbos_version = do
    model ← gas_model J l arbos_version
    commit_if l.multi_gas_fees model

  -- The weights go to the slots of kinds `kind`, `kind + 1`, … in order.
  unfoldable pub set_weights : (ℕ → StorageSlot) → ℕ → List ℕ → M State (Unit {0})
  set_weights slots kind [] = pure tt
  set_weights slots kind (w ∷ ws) = do set_u64 J (slots kind) w; set_weights slots (kind + 1) ws

  unfoldable pub add_multi_gas_constraint : L2Pricing → ℕ → ℕ → ℕ → List ℕ → M State (Unit {0})
  unfolding set_weights
  add_multi_gas_constraint l target adjustment_window backlog weights = do
    len ← multi_gas_constraints_len J l
    let constraint = open_multi_gas_constraint J l len
    set_u64 J (multi_gas_constraints_length J l) (saturating_add 64 len 1)
    set_u64 J constraint.target target
    set_u32 J constraint.adjustment_window adjustment_window
    set_u64 J constraint.backlog backlog
    set_u64 J constraint.max_weight (max_weight_of weights)
    set_weights constraint.weighted_resources 0 weights

  unfoldable pub add_gas_constraint : L2Pricing → ℕ → ℕ → ℕ → M State (Unit {0})
  add_gas_constraint l target adjustment_window backlog = do
    len ← gas_constraints_len J l
    let constraint = open_gas_constraint J l len
    set_u64 J (gas_constraints_length J l) ((len + 1) % 2 ^ 64)
    set_u64 J constraint.target target
    set_u64 J constraint.adjustment_window adjustment_window
    set_u64 J constraint.backlog backlog

  -- One round of `clear_gas_constraints`: the last element is popped and zeroed.
  unfoldable pub pop_gas_constraint : L2Pricing → M State (Unit {0})
  pop_gas_constraint l = do
    current ← gas_constraints_len J l
    let constraint = open_gas_constraint J l ((current + 2 ^ 64 - 1) % 2 ^ 64)
    set_u64 J (gas_constraints_length J l) ((current + 2 ^ 64 - 1) % 2 ^ 64)
    set_u64 J constraint.target 0
    set_u64 J constraint.adjustment_window 0
    set_u64 J constraint.backlog 0

  unfoldable pub pop_times : L2Pricing → ℕ → M State (Unit {0})
  pop_times l zero = pure tt
  pop_times l (suc n) = do pop_gas_constraint l; pop_times l n

  unfoldable pub clear_gas_constraints : L2Pricing → M State (Unit {0})
  unfolding pop_times
  clear_gas_constraints l = do len ← gas_constraints_len J l; pop_times l len
