-- ===== src/Precompiles/ArbFilteredTransactionsManager.antt =====
-- `ArbFilteredTransactionsManager` of
-- crates/arb-revm/src/precompiles/arb_filtered_transactions_manager.rs: filterers add and delete the
-- hashes of transactions that are filtered, and anyone may ask for one.
use arb_revm.Storage.Space
use arb_revm.Storage.Space.{root_space}
use arb_revm.Base.{List, Option, [], if◌then◌else◌, ltb, none, some, ℕ, ◌==◌, ◌∷◌}
use arb_revm.Journal.{ArbJournal, M, Error}
use arb_revm.Precompiles.{
  Host, ArbCall, InterpreterResult, or_result, ok_result, gated_revert_result, take_burned,
  InstructionResult, Message, run_metered, fatal_result,
}
use arb_revm.Storage.ArbosState.{ArbosState, open_arbos}
use arb_revm.Storage.AddressSet.{is_member}
use arb_revm.Storage.Slot.{get_u64}
use arb_revm.Journal.Metered.{metered}
use arb_revm.Transactions.Filter.{
  filtered_transactions_state_address, arbos_version_transaction_filtering,
}

-- A call that the ABI decoder has read.
pub data FilterCall : Type 0 where
  add_filtered delete_filtered is_filtered : ℕ → FilterCall

abbrev pub present_value : ℕ
present_value = 1

-- "FilteredTransactionAdded(bytes32)"
abbrev pub filtered_transaction_added : List ℕ
filtered_transaction_added =
    70 ∷ 105 ∷ 108 ∷ 116 ∷ 101 ∷ 114 ∷ 101 ∷ 100 ∷ 84 ∷ 114 ∷ 97 ∷ 110 ∷ 115 ∷ 97 ∷ 99 ∷ 116 ∷ 105
    ∷ 111 ∷ 110 ∷ 65 ∷ 100 ∷ 100 ∷ 101 ∷ 100 ∷ 40 ∷ 98 ∷ 121 ∷ 116 ∷ 101 ∷ 115 ∷ 51 ∷ 50 ∷ 41 ∷ []

-- "FilteredTransactionDeleted(bytes32)"
abbrev pub filtered_transaction_deleted : List ℕ
filtered_transaction_deleted =
    70 ∷ 105 ∷ 108 ∷ 116 ∷ 101 ∷ 114 ∷ 101 ∷ 100 ∷ 84 ∷ 114 ∷ 97 ∷ 110 ∷ 115 ∷ 97 ∷ 99 ∷ 116 ∷ 105
    ∷ 111 ∷ 110 ∷ 68 ∷ 101 ∷ 108 ∷ 101 ∷ 116 ∷ 101 ∷ 100 ∷ 40 ∷ 98 ∷ 121 ∷ 116 ∷ 101 ∷ 115 ∷ 51 ∷ 50
    ∷ 41 ∷ []

-- The early return of a fault, or of a caller who is no filterer; a `finished` call settles its burner.
pub data Ending (R : Type 0) : Type 0 where
  early finished : R → Ending R

module _ (J : ArbJournal) (H : Host) where
  open J use {State, keccak256, emit_log}

  abbrev pub Step : Type 0
  Step = State → Ending (InterpreterResult H.Gas) × State

  unfoldable pub or_fatal : {A : Type 0} → ℕ → M State A → (Error → Message) → (A → Step) → Step
  or_fatal gas_limit m message = or_result m (λ e. early (fatal_result H gas_limit (message e)))

  unfoldable pub require_filterer : ArbosState → ArbCall → Step → Step
  require_filterer a call continue =
      or_fatal call.gas_limit (is_member J a.transaction_filterers call.caller)
        Message.access_check_error
        (λ member.
          if member then continue else λ s. (early (gated_revert_result H call.gas_limit), s))

  -- The event's journal call returns nothing.
  unfoldable pub log_and_finish : ArbCall → List ℕ → ℕ → Step
  log_and_finish call signature tx_hash s =
      let (logged, s') =
        emit_log
          (record {
            address = call.bytecode_address;
            topics = keccak256 signature ∷ tx_hash ∷ [];
            bytes = [];
          })
          s in
      (finished (ok_result H call.gas_limit []), s')

  unfoldable pub filter_call : ArbosState → ArbCall → FilterCall → Step
  filter_call a call (FilterCall.add_filtered tx_hash) = require_filterer a call (
      or_fatal call.gas_limit
        (Space.set J (root_space filtered_transactions_state_address) tx_hash present_value)
        Message.add_error (λ _. log_and_finish call filtered_transaction_added tx_hash))
  filter_call a call (FilterCall.delete_filtered tx_hash) = require_filterer a call (
      or_fatal call.gas_limit
        (Space.set J (root_space filtered_transactions_state_address) tx_hash 0)
        Message.delete_error (λ _. log_and_finish call filtered_transaction_deleted tx_hash))
  filter_call a call (FilterCall.is_filtered tx_hash) =
      or_fatal call.gas_limit (Space.get J (root_space filtered_transactions_state_address) tx_hash)
        Message.read_error
        (λ value s. (
          finished (
              ok_result H call.gas_limit
                (H.encode_words ((if value == present_value then 1 else 0) ∷ []))),
          s,
        ))

module _ (J : ArbJournal) (H : Host) where
  open J use {State}

  unfoldable pub settle : Ending (InterpreterResult H.Gas) × ℕ → InterpreterResult H.Gas
  settle (early r, burned) = r
  settle (finished r, burned) = take_burned H InstructionResult.revert r burned

  unfoldable pub run_active_manager :
      (List ℕ → Option FilterCall) → ArbCall → State → InterpreterResult H.Gas × State
  run_active_manager decode call s = elim (decode call.input) [
    | none ↦ (gated_revert_result H call.gas_limit, s)
    | some decoded ↦
        let (r, s') = run_metered J (filter_call (metered J) H (open_arbos J) call decoded) s in
        (settle r, s')
  ]

  unfoldable pub run_arb_filtered_transactions_manager :
      (List ℕ → Option FilterCall) → ArbCall → State → InterpreterResult H.Gas × State
  run_arb_filtered_transactions_manager decode call =
      or_result (get_u64 J (open_arbos J).arbos_version)
        (λ e. fatal_result H call.gas_limit (Message.storage_error e))
        (λ version s.
          if ltb version arbos_version_transaction_filtering
          then (ok_result H call.gas_limit [], s)
          else run_active_manager decode call s)
