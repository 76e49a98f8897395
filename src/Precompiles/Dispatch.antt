-- ===== src/Precompiles/Dispatch.antt =====
-- `ArbPrecompilesEnum` of crates/arb-revm/src/precompiles/mod.rs: the gates that a call of a precompile
-- passes, by the version of ArbOS and the method, and the gas of the call itself.
use arb_revm.Base.{
  Bool, List, Option, [], false, if◌then◌else◌, leb, length, ltb, none, not, some, take, true, ℕ,
  ◌&&◌, ◌*◌, ◌+◌, ◌-◌, ◌/◌, ◌==◌, ◌||◌, ◌∷◌,
}
use arb_revm.Base.{
  Bool, List, Option, [], false, if◌then◌else◌, leb, length, ltb, none, not, some, take, true, ℕ,
  ◌&&◌, ◌*◌, ◌+◌, ◌-◌, ◌/◌, ◌==◌, ◌||◌, ◌∷◌,
}
use arb_revm.Base.{
  Bool, List, Option, [], false, if◌then◌else◌, leb, length, ltb, none, not, some, take, true, ℕ,
  ◌&&◌, ◌*◌, ◌+◌, ◌-◌, ◌/◌, ◌==◌, ◌||◌, ◌∷◌,
}
use arb_revm.Transactions.Calldata.{equal_bytes}
use arb_revm.Journal.{ArbJournal}
use arb_revm.Precompiles.{
  InstructionResult, Host, ArbCall, or_result, InterpreterResult, gated_revert_result,
  empty_active_result, fatal_result, Message,
}
use arb_revm.Storage.Slot.{get_u64}
use arb_revm.Storage.AddressSet.{is_member}
use arb_revm.Storage.ArbosState.{open_arbos}

pub data ArbPrecompilesEnum : Type 0 where
  arb_sys arb_info arb_address_table arb_bls arb_function_table : ArbPrecompilesEnum
  arb_owner_public arb_gas_info arb_aggregator arb_retryable_tx : ArbPrecompilesEnum
  arb_statistics arb_owner arb_wasm arb_wasm_cache arb_native_token_manager : ArbPrecompilesEnum
  arb_filtered_transactions_manager arb_debug : ArbPrecompilesEnum

-- The methods that a gate names.
pub data Method : Type 0 where
  map_l1_sender_contract_address_to_l2_alias custom_revert legacy_error panic_call : Method
  get_l1_fees_available get_l1_reward_rate get_l1_reward_recipient : Method
  get_l1_pricing_equilibration_units get_last_l1_pricing_update_time : Method
  get_l1_pricing_funds_due_for_rewards get_l1_pricing_units_since_update : Method
  get_last_l1_pricing_surplus get_max_tx_gas_limit get_max_block_gas_limit : Method
  get_infra_fee_account rectify_chain_owner get_brotli_compression_level : Method
  get_scheduled_upgrade is_calldata_price_increase_enabled is_native_token_owner : Method
  get_all_native_token_owners get_parent_gas_floor_per_token : Method
  get_native_token_management_from get_max_stylus_contract_fragments : Method
  get_transaction_filtering_from is_transaction_filterer get_all_transaction_filterers : Method
  get_filtered_funds_recipient set_infra_fee_account release_l1_pricer_surplus_funds : Method
  set_chain_config set_brotli_compression_level set_calldata_price_increase : Method
  set_wasm_max_size add_native_token_owner remove_native_token_owner : Method
  set_native_token_management_from set_gas_backlog set_max_block_gas_limit : Method
  set_parent_gas_floor_per_token set_max_stylus_contract_fragments : Method
  add_transaction_filterer remove_transaction_filterer set_transaction_filtering_from : Method
  set_filtered_funds_recipient cache_program : Method
  add_filtered_transaction delete_filtered_transaction : Method

abbrev pub is_manager : ArbPrecompilesEnum → Bool
is_manager ArbPrecompilesEnum.arb_filtered_transactions_manager = true
is_manager _ = false

abbrev pub is_owner : ArbPrecompilesEnum → Bool
is_owner ArbPrecompilesEnum.arb_owner = true
is_owner _ = false

abbrev pub is_fatal : InstructionResult → Bool
is_fatal InstructionResult.fatal_external_error = true
is_fatal _ = false

abbrev pub is_out_of_gas : InstructionResult → Bool
is_out_of_gas InstructionResult.out_of_gas = true
is_out_of_gas _ = false

abbrev pub copy_gas : ℕ
copy_gas = 3

abbrev pub arbos_state_open_gas : ℕ
arbos_state_open_gas = 800

abbrev pub free_access_check_gas : ℕ
free_access_check_gas = 1600

unfoldable pub words_for_bytes : ℕ → ℕ
words_for_bytes n = (n + 31) / 32

unfoldable pub precompile_min_arbos_version : ArbPrecompilesEnum → ℕ
precompile_min_arbos_version ArbPrecompilesEnum.arb_wasm = 30
precompile_min_arbos_version ArbPrecompilesEnum.arb_wasm_cache = 30
precompile_min_arbos_version ArbPrecompilesEnum.arb_native_token_manager = 41
precompile_min_arbos_version ArbPrecompilesEnum.arb_filtered_transactions_manager = 60
precompile_min_arbos_version _ = 0

-- A selector is the first four bytes of the input, if it has them.
unfoldable pub selector_of_input : List ℕ → Option (List ℕ)
selector_of_input input = if ltb (length input) 4 then none else some (take 4 input)

unfoldable pub in_bounds : ℕ → ℕ × ℕ → Bool
in_bounds version (least, most) = leb least version && (most == 0 || leb version most)

-- The selectors, `SELECTOR` of the interfaces.
module _ (selector : Method → List ℕ) where
  unfoldable pub is_one_of : List Method → List ℕ → Bool
  is_one_of [] sel = false
  is_one_of (method ∷ methods) sel = equal_bytes sel (selector method) || is_one_of methods sel

  -- The first row with the selector tells the least version, a call has none above.
  unfoldable pub min_version : List (List Method × ℕ) → List ℕ → ℕ × ℕ
  min_version [] sel = (0, 0)
  min_version ((methods, version) ∷ rows) sel =
      if is_one_of methods sel then (version, 0) else min_version rows sel

  unfoldable pub method_is_pure : ArbPrecompilesEnum → List ℕ → Bool
  method_is_pure ArbPrecompilesEnum.arb_sys sel =
      is_one_of (Method.map_l1_sender_contract_address_to_l2_alias ∷ []) sel
  method_is_pure ArbPrecompilesEnum.arb_debug sel =
      is_one_of (Method.custom_revert ∷ Method.legacy_error ∷ []) sel
  method_is_pure _ sel = false

  unfoldable pub filtered_manager_method_is_write : List ℕ → Bool
  filtered_manager_method_is_write =
      is_one_of (Method.add_filtered_transaction ∷ Method.delete_filtered_transaction ∷ [])

  unfoldable pub gas_info_bounds : List ℕ → ℕ × ℕ
  gas_info_bounds = min_version (
      (Method.get_l1_fees_available ∷ [], 10)
      ∷ (Method.get_l1_reward_rate ∷ Method.get_l1_reward_recipient ∷ [], 11)
      ∷ (
        Method.get_l1_pricing_equilibration_units ∷ Method.get_last_l1_pricing_update_time
            ∷ Method.get_l1_pricing_funds_due_for_rewards ∷ Method.get_l1_pricing_units_since_update
            ∷ Method.get_last_l1_pricing_surplus ∷ [],
        20,
      )
      ∷ (Method.get_max_tx_gas_limit ∷ Method.get_max_block_gas_limit ∷ [], 50)
      ∷ [])

  unfoldable pub owner_public_bounds : List ℕ → ℕ × ℕ
  owner_public_bounds = min_version (
      (Method.get_infra_fee_account ∷ [], 5)
      ∷ (Method.rectify_chain_owner ∷ [], 11)
      ∷ (Method.get_brotli_compression_level ∷ Method.get_scheduled_upgrade ∷ [], 20)
      ∷ (Method.is_calldata_price_increase_enabled ∷ [], 40)
      ∷ (Method.is_native_token_owner ∷ Method.get_all_native_token_owners ∷ [], 41)
      ∷ (Method.get_parent_gas_floor_per_token ∷ Method.get_native_token_management_from ∷ [], 50)
      ∷ (
        Method.get_max_stylus_contract_fragments ∷ Method.get_transaction_filtering_from
            ∷ Method.is_transaction_filterer ∷ Method.get_all_transaction_filterers
            ∷ Method.get_filtered_funds_recipient ∷ [],
        60,
      )
      ∷ [])

  unfoldable pub owner_bounds : List ℕ → ℕ × ℕ
  owner_bounds = min_version (
      (Method.set_infra_fee_account ∷ [], 5)
      ∷ (Method.release_l1_pricer_surplus_funds ∷ [], 10)
      ∷ (Method.set_chain_config ∷ [], 11)
      ∷ (Method.set_brotli_compression_level ∷ [], 20)
      ∷ (Method.set_calldata_price_increase ∷ Method.set_wasm_max_size ∷ [], 40)
      ∷ (
        Method.add_native_token_owner ∷ Method.remove_native_token_owner
            ∷ Method.set_native_token_management_from ∷ [],
        41,
      )
      ∷ (
        Method.set_gas_backlog ∷ Method.set_max_block_gas_limit
            ∷ Method.set_parent_gas_floor_per_token ∷ [],
        50,
      )
      ∷ (
        Method.set_max_stylus_contract_fragments ∷ Method.add_transaction_filterer
            ∷ Method.remove_transaction_filterer ∷ Method.set_transaction_filtering_from
            ∷ Method.set_filtered_funds_recipient ∷ [],
        60,
      )
      ∷ [])

  unfoldable pub method_arbos_bounds : ArbPrecompilesEnum → List ℕ → ℕ × ℕ
  method_arbos_bounds ArbPrecompilesEnum.arb_gas_info sel = gas_info_bounds sel
  method_arbos_bounds ArbPrecompilesEnum.arb_owner_public sel = owner_public_bounds sel
  method_arbos_bounds ArbPrecompilesEnum.arb_owner sel = owner_bounds sel
  method_arbos_bounds ArbPrecompilesEnum.arb_wasm_cache sel =
      min_version ((Method.cache_program ∷ [], 31) ∷ []) sel
  method_arbos_bounds ArbPrecompilesEnum.arb_debug sel =
      min_version ((Method.panic_call ∷ [], 30) ∷ []) sel
  method_arbos_bounds _ sel = (0, 0)

  unfoldable pub arbos_call_extra_gas : ArbPrecompilesEnum → ℕ → ℕ → List ℕ → ℕ
  arbos_call_extra_gas arb input_len output_len sel =
      copy_gas * words_for_bytes (input_len - 4)
      + copy_gas * words_for_bytes output_len
      + (if method_is_pure arb sel then 0 else arbos_state_open_gas)

-- The bodies of the precompiles are a parameter here.
module _ (J : ArbJournal) (H : Host) (selector : Method → List ℕ) where
  open J use {State}
  open H use {Gas, new_gas, spend_all, record_regular_cost}

  abbrev pub Body : Type 0
  Body = ArbCall → State → InterpreterResult Gas × State

  -- A selector that is none, a method outside its versions, a payment or a static write of the filter's
  -- manager, and a delegated call of a method that is not pure.
  unfoldable pub is_gated : ArbPrecompilesEnum → ArbCall → ℕ → List ℕ → Bool
  is_gated arb call version sel =
      not (in_bounds version (method_arbos_bounds selector arb sel))
      || is_manager arb
        && (not (call.value == 0)
            || call.is_static && filtered_manager_method_is_write selector sel)
      || not (call.acting_address == call.bytecode_address) && not (method_is_pure selector arb sel)

  -- The gas of the call itself, on top of the body's; a fault is passed on, an owner pays nothing.
  unfoldable pub charge_call :
      ArbPrecompilesEnum → ArbCall → List ℕ → InterpreterResult Gas → InterpreterResult Gas
  charge_call arb call sel r =
      if is_fatal r.result
      then r
      else if is_owner arb
      then record { result = r.result; output = r.output; gas = new_gas call.gas_limit }
      else (let (fits, gas) =
            record_regular_cost r.gas
              (arbos_call_extra_gas selector arb (length call.input) (length r.output) sel) in
          if fits
          then record { result = r.result; output = r.output; gas = gas }
          else record { result = InstructionResult.out_of_gas; output = []; gas = gas })

  unfoldable pub run_active_dispatch :
      (ArbPrecompilesEnum → Body)
      → ArbPrecompilesEnum
      → ArbCall
      → ℕ
      → State
      → InterpreterResult Gas × State
  run_active_dispatch bodies arb call version s = elim (selector_of_input call.input) [
    | none ↦ (gated_revert_result H call.gas_limit, s)
    | some sel ↦
        if is_gated arb call version sel
        then (gated_revert_result H call.gas_limit, s)
        else (let (r, s') = bodies arb call s in (charge_call arb call sel r, s'))
  ]

  unfoldable pub run_if_active :
      (ArbPrecompilesEnum → Body)
      → ArbPrecompilesEnum
      → ArbCall
      → ℕ
      → State
      → InterpreterResult Gas × State
  run_if_active bodies arb call version s =
      if ltb version (precompile_min_arbos_version arb)
      then (empty_active_result H call.gas_limit, s)
      else run_active_dispatch bodies arb call version s

  -- The result of the wrapped call, at the price of the check of access.
  unfoldable pub wrapped : ArbCall → Bool → InterpreterResult Gas → InterpreterResult Gas
  wrapped call is_filterer r = if is_fatal r.result then r else record {
    result = if is_out_of_gas r.result then InstructionResult.revert else r.result;
    output = if is_out_of_gas r.result then [] else r.output;
    gas =
        if is_filterer
        then new_gas call.gas_limit
        else (record_regular_cost (new_gas call.gas_limit) free_access_check_gas).1;
  }

  unfoldable pub run_filtered_manager_wrapper :
      (ArbPrecompilesEnum → Body)
      → ArbPrecompilesEnum
      → ArbCall
      → ℕ
      → State
      → InterpreterResult Gas × State
  run_filtered_manager_wrapper bodies arb call version =
      if ltb call.gas_limit free_access_check_gas
      then (λ s. (
        record {
          result = InstructionResult.out_of_gas;
          output = [];
          gas = spend_all (new_gas call.gas_limit);
        },
        s,
      ))
      else or_result (is_member J (open_arbos J).transaction_filterers call.caller)
          (λ e. fatal_result H call.gas_limit (Message.wrapper_error e))
          (λ is_filterer s.
            let (r, s') = run_if_active bodies arb call version s in
            (wrapped call is_filterer r, s'))

  unfoldable pub run_dispatch : (ArbPrecompilesEnum → Body) → ArbPrecompilesEnum → Body
  run_dispatch bodies arb call =
      or_result (get_u64 J (open_arbos J).arbos_version)
        (λ e. fatal_result H call.gas_limit (Message.dispatch_version_error e))
        (λ version.
          if is_manager arb
          then run_filtered_manager_wrapper bodies arb call version
          else run_if_active bodies arb call version)
