-- ===== src/Precompiles/ArbGasInfo.antt =====
-- `ArbGasInfo` of crates/arb-revm/src/precompiles/arb_gas_info.rs: what the prices, limits and backlogs
-- of ArbOS are. Every read but the version's is billed.
use arb_revm.Base.{
  List, Option, [], if◌then◌else◌, ltb, min, none, saturating_mul, some, ℕ, ◌-◌, ◌/◌, ◌∷◌,
}
use arb_revm.Journal.{ok, err, ArbJournal, M, ◌>>=◌, Result, pure}
use arb_revm.Precompiles.{
  ok_result, InstructionResult, take_burned, Host, InterpreterResult, gated_revert_result,
  run_metered, or_result, revert_result, Message,
}
use arb_revm.Base.Int.{ℤ, pos_part}
use arb_revm.Storage.ArbosState.{ArbosState, open_arbos}
use arb_revm.Transactions.{Block}
use arb_revm.Journal.Metered.{metered}
use arb_revm.Storage.Slot.{
  i256_to_u256_twos_complement, get_u256, get_i256, get_u64, get_address, get_i64,
}
use arb_revm.Storage.L1Pricing.{get_l1_pricing_surplus}

-- A call that the ABI decoder has read. Those with an aggregator answer as those without.
pub data GasInfoCall : Type 0 where
  get_prices_in_wei get_prices_in_wei_with_aggregator get_prices_in_arb_gas : GasInfoCall
  get_prices_in_arb_gas_with_aggregator get_gas_accounting_params get_max_tx_gas_limit : GasInfoCall
  get_minimum_gas_price get_l1_base_fee_estimate get_l1_base_fee_estimate_inertia : GasInfoCall
  get_l1_reward_rate get_l1_reward_recipient get_l1_gas_price_estimate : GasInfoCall
  get_current_tx_l1_gas_fees get_gas_backlog get_pricing_inertia : GasInfoCall
  get_gas_backlog_tolerance get_l1_surplus get_per_batch_gas_charge : GasInfoCall
  get_amortized_cost_cap_bips get_l1_fees_available get_l1_pricing_equilibration_units : GasInfoCall
  get_last_l1_pricing_update_time get_l1_pricing_funds_due_for_rewards : GasInfoCall
  get_l1_pricing_units_since_update get_last_l1_pricing_surplus : GasInfoCall
  get_max_block_gas_limit : GasInfoCall

abbrev pub assumed_simple_tx_size : ℕ
assumed_simple_tx_size = 140

abbrev pub tx_data_non_zero_gas_eip2028 : ℕ
tx_data_non_zero_gas_eip2028 = 16

abbrev pub storage_allocation_cost : ℕ
storage_allocation_cost = 20000

-- A word of calldata, a transaction, a storage slot, and the parts of the price of gas.
unfoldable pub prices_in_wei : ℕ → ℕ → ℕ → ℕ → List ℕ
prices_in_wei version l2_gas_price min_base_fee l1_price =
    let wei_for_l1_calldata = saturating_mul 256 l1_price tx_data_non_zero_gas_eip2028 in
    let per_arb_gas_base = if ltb version 4 then l2_gas_price else min l2_gas_price min_base_fee in
    saturating_mul 256 wei_for_l1_calldata assumed_simple_tx_size
    ∷ wei_for_l1_calldata
    ∷ saturating_mul 256 l2_gas_price storage_allocation_cost
    ∷ per_arb_gas_base
    ∷ (l2_gas_price - per_arb_gas_base)
    ∷ l2_gas_price
    ∷ []

unfoldable pub in_gas : ℕ → ℕ → ℕ
in_gas l2_gas_price wei = if ltb 0 l2_gas_price then wei / l2_gas_price else 0

unfoldable pub prices_in_arb_gas : ℕ → ℕ → ℕ → List ℕ
prices_in_arb_gas version l2_gas_price l1_price =
    let wei_for_l1_calldata = saturating_mul 256 l1_price tx_data_non_zero_gas_eip2028 in
    let wei_per_l2_tx = saturating_mul 256 wei_for_l1_calldata assumed_simple_tx_size in
    (if ltb version 4 then assumed_simple_tx_size else in_gas l2_gas_price wei_per_l2_tx)
    ∷ in_gas l2_gas_price wei_for_l1_calldata
    ∷ storage_allocation_cost
    ∷ []

-- The words of one value that is read.
abbrev pub one_word : {S : Type 0} → M S ℕ → M S (List ℕ)
one_word m = m >>= λ v. pure (v ∷ [])

abbrev pub one_signed : {S : Type 0} → M S ℤ → M S (List ℕ)
one_signed m = m >>= λ v. pure (i256_to_u256_twos_complement v ∷ [])

-- `current_tx_l1_fee` reads the transient slot of the fee, `i256_from` is alloy's `I256::from`.
module _ (J : ArbJournal) (i256_from : ℕ → ℤ) (current_tx_l1_fee : J.State → ℕ × J.State) where
  open J use {State}

  unfoldable pub read_prices_in_wei : ArbosState → ℕ → ℕ → M State (List ℕ)
  read_prices_in_wei a version l2_gas_price = do
    min_base_fee ← get_u256 J a.l2_pricing.min_base_fee_wei
    l1_price ← get_u256 J a.l1_pricing.price_per_unit
    pure (prices_in_wei version l2_gas_price min_base_fee l1_price)

  unfoldable pub read_prices_in_arb_gas : ArbosState → ℕ → ℕ → M State (List ℕ)
  read_prices_in_arb_gas a version l2_gas_price = do
    l1_price ← get_u256 J a.l1_pricing.price_per_unit
    pure (prices_in_arb_gas version l2_gas_price l1_price)

  unfoldable pub read_gas_accounting_params : ArbosState → M State (List ℕ)
  read_gas_accounting_params a = do
    speed_limit ← get_u64 J a.l2_pricing.speed_limit_per_second
    per_block ← get_u64 J a.l2_pricing.per_block_gas_limit
    pure (speed_limit ∷ per_block ∷ per_block ∷ [])

  unfoldable pub read_funds_due_for_rewards : ArbosState → M State (List ℕ)
  read_funds_due_for_rewards a = do
    due ← get_i256 J a.l1_pricing.funds_due_for_rewards
    pure (pos_part due ∷ [])

  unfoldable pub read_current_tx_l1_fee : M State (List ℕ)
  read_current_tx_l1_fee s = let (fee, s') = current_tx_l1_fee s in pure (fee ∷ []) s'

  unfoldable pub gas_info_words : ArbosState → ℕ → ℕ → GasInfoCall → M State (List ℕ)
  gas_info_words a version l2_gas_price GasInfoCall.get_prices_in_wei =
      read_prices_in_wei a version l2_gas_price
  gas_info_words a version l2_gas_price GasInfoCall.get_prices_in_wei_with_aggregator =
      read_prices_in_wei a version l2_gas_price
  gas_info_words a version l2_gas_price GasInfoCall.get_prices_in_arb_gas =
      read_prices_in_arb_gas a version l2_gas_price
  gas_info_words a version l2_gas_price GasInfoCall.get_prices_in_arb_gas_with_aggregator =
      read_prices_in_arb_gas a version l2_gas_price
  gas_info_words a version l2_gas_price GasInfoCall.get_gas_accounting_params =
      read_gas_accounting_params a
  gas_info_words a version l2_gas_price GasInfoCall.get_max_tx_gas_limit =
      one_word (get_u64 J a.l2_pricing.per_tx_gas_limit)
  gas_info_words a version l2_gas_price GasInfoCall.get_minimum_gas_price =
      one_word (get_u256 J a.l2_pricing.min_base_fee_wei)
  gas_info_words a version l2_gas_price GasInfoCall.get_l1_base_fee_estimate =
      one_word (get_u256 J a.l1_pricing.price_per_unit)
  gas_info_words a version l2_gas_price GasInfoCall.get_l1_base_fee_estimate_inertia =
      one_word (get_u64 J a.l1_pricing.inertia)
  gas_info_words a version l2_gas_price GasInfoCall.get_l1_reward_rate =
      one_word (get_u64 J a.l1_pricing.per_unit_reward)
  gas_info_words a version l2_gas_price GasInfoCall.get_l1_reward_recipient =
      one_word (get_address J a.l1_pricing.pay_rewards_to)
  gas_info_words a version l2_gas_price GasInfoCall.get_l1_gas_price_estimate =
      one_word (get_u256 J a.l1_pricing.price_per_unit)
  gas_info_words a version l2_gas_price GasInfoCall.get_current_tx_l1_gas_fees =
      read_current_tx_l1_fee
  gas_info_words a version l2_gas_price GasInfoCall.get_gas_backlog =
      one_word (get_u64 J a.l2_pricing.gas_backlog)
  gas_info_words a version l2_gas_price GasInfoCall.get_pricing_inertia =
      one_word (get_u64 J a.l2_pricing.pricing_inertia)
  gas_info_words a version l2_gas_price GasInfoCall.get_gas_backlog_tolerance =
      one_word (get_u64 J a.l2_pricing.backlog_tolerance)
  gas_info_words a version l2_gas_price GasInfoCall.get_l1_surplus =
      one_signed (get_l1_pricing_surplus J i256_from a.l1_pricing)
  gas_info_words a version l2_gas_price GasInfoCall.get_per_batch_gas_charge =
      one_signed (get_i64 J a.l1_pricing.per_batch_gas_cost)
  gas_info_words a version l2_gas_price GasInfoCall.get_amortized_cost_cap_bips =
      one_word (get_u64 J a.l1_pricing.amortized_cost_cap_bips)
  gas_info_words a version l2_gas_price GasInfoCall.get_l1_fees_available =
      one_word (get_u256 J a.l1_pricing.l1_fees_available)
  gas_info_words a version l2_gas_price GasInfoCall.get_l1_pricing_equilibration_units =
      one_word (get_u256 J a.l1_pricing.equilibration_units)
  gas_info_words a version l2_gas_price GasInfoCall.get_last_l1_pricing_update_time =
      one_word (get_u64 J a.l1_pricing.last_update_time)
  gas_info_words a version l2_gas_price GasInfoCall.get_l1_pricing_funds_due_for_rewards =
      read_funds_due_for_rewards a
  gas_info_words a version l2_gas_price GasInfoCall.get_l1_pricing_units_since_update =
      one_word (get_u64 J a.l1_pricing.units_since_update)
  gas_info_words a version l2_gas_price GasInfoCall.get_last_l1_pricing_surplus =
      one_signed (get_i256 J a.l1_pricing.last_surplus)
  gas_info_words a version l2_gas_price GasInfoCall.get_max_block_gas_limit =
      one_word (get_u64 J a.l2_pricing.per_block_gas_limit)

module _ (J : ArbJournal) (H : Host) (i256_from : ℕ → ℤ) (transient : J.State → ℕ × J.State) where
  open J use {State}

  -- The transient read is delegated: it is not billed.
  unfoldable pub metered_transient : (metered J).State → ℕ × (metered J).State
  unfolding metered
  metered_transient (s, burned) = let (fee, s') = transient s in (fee, (s', burned))

  -- An error of the billed reads returns before the burner is settled.
  unfoldable pub answer_words : ℕ → (Result (List ℕ) × ℕ) → InterpreterResult H.Gas
  answer_words gas_limit (r, burned) = elim r [
    | ok words ↦
        take_burned H InstructionResult.out_of_gas (ok_result H gas_limit (H.encode_words words))
          burned
    | err e ↦ revert_result H gas_limit (Message.gas_info_error e)
  ]

  unfoldable pub run_gas_info_call :
      Block → ℕ → GasInfoCall → ℕ → State → InterpreterResult H.Gas × State
  run_gas_info_call block gas_limit call version s =
      let (r, s') =
        run_metered J
          (gas_info_words (metered J) i256_from metered_transient (open_arbos J) version
            block.basefee call)
          s in
      (answer_words gas_limit r, s')

  unfoldable pub run_arb_gas_info :
      (List ℕ → Option GasInfoCall) → Block → List ℕ → ℕ → State → InterpreterResult H.Gas × State
  run_arb_gas_info decode block input gas_limit = elim (decode input) [
    | none ↦ λ s. (gated_revert_result H gas_limit, s)
    | some call ↦
        or_result (get_u64 J (open_arbos J).arbos_version)
          (λ e. revert_result H gas_limit (Message.gas_info_error e))
          (run_gas_info_call block gas_limit call)
  ]
