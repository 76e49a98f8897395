-- ===== src/Storage/L1Pricing/Update.antt =====
-- `update_for_batch_poster_spending` of crates/arb-revm/src/storage/l1_pricing.rs and the two
-- reports of a posted batch that call it.
use arb_revm.Base.{
  Bool, checked_mul, if◌then◌else◌, leb, ltb, saturating_add, saturating_mul, true, u256_max,
  unwrap_or, ℕ, ◌&&◌, ◌-◌, ◌/◌, ◌==◌, ◌||◌,
}
use arb_revm.Base.Int.{ℤ, pos, checked, ◌-ℤ◌}
use arb_revm.Storage.BatchPosterTable.{
  BatchPosterState, funds_due, set_funds_due, open_poster_checked, total_funds_due,
}
use arb_revm.Storage.L1Pricing.{L1Pricing}
use arb_revm.Storage.Slot.{
  get_u256, set_u256, get_u64, set_u64, get_i256, get_i64, set_pre_version7,
  set_saturating_with_warning,
}
use arb_revm.Journal.{ArbJournal, M, pure, raise, invalid_timestamp, ◌>>=◌, ◌>>◌}
use arb_revm.Storage.L1Pricing.Arithmetic.{
  price_change, legacy_batch_cost_for_stats, signed_i64_to_u64_floor_zero, add_u256_saturating,
  u256_to_i256_saturating, add_i256_u256_saturating, next_price, mul_u256_u64_saturating,
}
use arb_revm.Storage.L1Pricing.Payments.{cap_wei_spent, available_funds, pay_rewards, pay_poster}

-- The first update starts its window just before itself.
abbrev pub window_start : ℕ → ℕ → ℕ
window_start last_update_time update_time =
    if (last_update_time == 0) && ltb 0 update_time then update_time - 1 else last_update_time

-- The share of the units that falls before the update.
abbrev pub units_allocated : ℕ → ℕ → ℕ → ℕ → ℕ
units_allocated units start update_time current_time =
    if current_time - start == 0
    then saturating_mul 64 units 1 / 1
    else saturating_mul 64 units (update_time - start) / (current_time - start)

module _ (J : ArbJournal) where
  open J use {State}

  -- ArbOS 1 keeps no last surplus, and before ArbOS 7 it keeps the magnitude only.
  unfoldable pub set_last_surplus : L1Pricing → ℕ → ℤ → M State (Unit {0})
  set_last_surplus p arbos_version surplus =
      if ltb arbos_version 2
      then pure tt
      else if ltb arbos_version 7
      then set_pre_version7 J p.last_surplus surplus
      else set_saturating_with_warning J p.last_surplus surplus

  unfoldable pub move_price : L1Pricing → ℕ → ℤ → ℕ → ℕ → ℕ → M State (Unit {0})
  move_price p arbos_version surplus equilibration_units units alloc_plus_inert = do
    old_surplus ← get_i256 J p.last_surplus
    let change =
        price_change surplus old_surplus (u256_to_i256_saturating equilibration_units)
          (u256_to_i256_saturating units) (u256_to_i256_saturating alloc_plus_inert)
    set_last_surplus p arbos_version surplus
    price ← get_u256 J p.price_per_unit
    set_u256 J p.price_per_unit (next_price price change)

  -- The last stage, when units were allocated: without inertia or equilibration units the price
  -- stays. The source checks besides that the units are not 0 as signed words, which they are not.
  unfoldable pub update_price : L1Pricing → ℕ → Bool → ℕ → M State (Unit {0})
  update_price p arbos_version use_l1_fees_available units = do
    total ← total_funds_due J p.batch_poster_table
    rewards ← get_i256 J p.funds_due_for_rewards
    available ← available_funds J p use_l1_fees_available
    let surplus =
        unwrap_or
          (checked 255
            (u256_to_i256_saturating available -ℤ add_i256_u256_saturating rewards total))
          (pos 0)
    inertia ← get_u64 J p.inertia
    if inertia == 0 then pure tt else (do
      equilibration_units ← get_u256 J p.equilibration_units
      let alloc_plus_inert = add_u256_saturating (equilibration_units / inertia) units
      if (equilibration_units == 0) || (alloc_plus_inert == 0)
          then pure tt
          else move_price p arbos_version surplus equilibration_units units alloc_plus_inert)

  -- The window must end between the last update and now.
  unfoldable pub update_in_window :
      L1Pricing → BatchPosterState → ℕ → ℤ → ℕ → ℕ → ℕ → ℕ → ℕ → ℕ → M State (Unit {0})
  update_in_window p poster arbos_version rewards funds start update_time current_time wei_spent
        l1_base_fee =
      do
        let use_l1_fees_available = leb 10 arbos_version
        units_since ← get_u64 J p.units_since_update
        let units = units_allocated units_since start update_time current_time
        set_u64 J p.units_since_update (units_since - units)
        wei ← cap_wei_spent J p arbos_version l1_base_fee units wei_spent
        due ← funds_due J poster
        set_funds_due J poster (add_u256_saturating due wei)
        per_unit_reward ← get_u64 J p.per_unit_reward
        left ←
            pay_rewards J p use_l1_fees_available rewards
              (mul_u256_u64_saturating per_unit_reward units) funds
        pay_poster J p poster use_l1_fees_available left
        set_u64 J p.last_update_time update_time
        if units == 0 then pure tt else update_price p arbos_version use_l1_fees_available units

  unfoldable pub update_for_batch_poster_spending :
      L1Pricing → ℕ → ℕ → ℕ → ℕ → ℕ → ℕ → M State (Unit {0})
  update_for_batch_poster_spending p arbos_version update_time current_time batch_poster wei_spent
        l1_base_fee =
      do
        poster ← open_poster_checked J p.batch_poster_table batch_poster true
        rewards ← get_i256 J p.funds_due_for_rewards
        funds ← available_funds J p (leb 10 arbos_version)
        last_update_time ← get_u64 J p.last_update_time
        let start = window_start last_update_time update_time
        if ltb current_time update_time || ltb update_time start
            then raise invalid_timestamp
            else update_in_window p poster arbos_version rewards funds start update_time
                current_time wei_spent l1_base_fee

  unfoldable pub apply_batch_posting_report : L1Pricing → ℕ → ℕ → ℕ → ℕ → ℕ → ℕ → M State (Unit {0})
  apply_batch_posting_report p arbos_version batch_timestamp current_time batch_poster
        batch_data_gas l1_base_fee =
      do
        per_batch_gas ← get_i64 J p.per_batch_gas_cost
        let gas_spent =
            saturating_add 64 (signed_i64_to_u64_floor_zero per_batch_gas) batch_data_gas
        update_for_batch_poster_spending p arbos_version batch_timestamp current_time batch_poster
            (unwrap_or (checked_mul 256 l1_base_fee gas_spent) u256_max) l1_base_fee

  -- From ArbOS 50 on a batch costs at least its floor gas.
  unfoldable pub floor_gas : L1Pricing → ℕ → ℕ → ℕ → ℕ → M State ℕ
  floor_gas p arbos_version len non_zeros gas_spent =
      if leb 50 arbos_version
      then (do
        gas_floor_per_token ← get_u64 J p.gas_floor_per_token
        let tokens = saturating_add 64 (saturating_add 64 len (saturating_mul 64 non_zeros 3)) 172
        let floor = saturating_add 64 (saturating_mul 64 gas_floor_per_token tokens) 21000
        pure (if ltb gas_spent floor then floor else gas_spent))
      else pure gas_spent

  unfoldable pub apply_batch_posting_report_v2 :
      L1Pricing → ℕ → ℕ → ℕ → ℕ → ℕ → ℕ → ℕ → ℕ → M State (Unit {0})
  apply_batch_posting_report_v2 p arbos_version batch_timestamp current_time batch_poster len
        non_zeros extra_gas l1_base_fee =
      do
        per_batch_gas ← get_i64 J p.per_batch_gas_cost
        gas_spent ← floor_gas p arbos_version len non_zeros (
            saturating_add 64
              (saturating_add 64 (legacy_batch_cost_for_stats len non_zeros) extra_gas)
              (signed_i64_to_u64_floor_zero per_batch_gas))
        update_for_batch_poster_spending p arbos_version batch_timestamp current_time batch_poster
            (unwrap_or (checked_mul 256 l1_base_fee gas_spent) u256_max) l1_base_fee
