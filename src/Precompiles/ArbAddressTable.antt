-- ===== src/Precompiles/ArbAddressTable.antt =====
-- `ArbAddressTable` of crates/arb-revm/src/precompiles/arb_address_table.rs: the calls of the address
-- table, whose reads and writes are billed.
use arb_revm.Storage.AddressTable
use arb_revm.Base.{List, Option, [], min, none, some, u64_max, ℕ, ◌∷◌}
use arb_revm.Journal.{ArbJournal, M}
use arb_revm.Precompiles.{
  Host, Message, InterpreterResult, or_result, gated_revert_result, revert_result, ok_result,
  run_metered, take_burned, InstructionResult,
}
use arb_revm.Storage.AddressTable.{AddressTable}
use arb_revm.Journal.Metered.{metered}
use arb_revm.Storage.ArbosState.{open_arbos}

-- A call that the ABI decoder has read.
pub data AddressTableCall : Type 0 where
  address_exists lookup_call lookup_index_call register_call : ℕ → AddressTableCall
  size_call compress decompress : AddressTableCall

module _ (J : ArbJournal) (H : Host) where
  open J use {State}
  open H use {Gas, encode_words}

  unfoldable pub or_table_error :
      {A : Type 0}
      → ℕ
      → M State A
      → (A → State → InterpreterResult Gas × State)
      → State
      → InterpreterResult Gas × State
  or_table_error gas_limit m =
      or_result m (λ e. revert_result H gas_limit (Message.address_table_error e))

  -- A value, or the text of a value that is not there.
  unfoldable pub found_or : ℕ → Message → Option ℕ → InterpreterResult Gas
  found_or gas_limit message none = revert_result H gas_limit message
  found_or gas_limit message (some v) = ok_result H gas_limit (encode_words (v ∷ []))

  unfoldable pub is_some : Option ℕ → ℕ
  is_some none = 0
  is_some (some v) = 1

  unfoldable pub address_table_call :
      AddressTable → ℕ → AddressTableCall → State → InterpreterResult Gas × State
  address_table_call t gas_limit (AddressTableCall.address_exists account) =
      or_table_error gas_limit (AddressTable.lookup J t account)
        (λ found s. (ok_result H gas_limit (encode_words (is_some found ∷ [])), s))
  address_table_call t gas_limit (AddressTableCall.lookup_call account) =
      or_table_error gas_limit (AddressTable.lookup J t account)
        (λ found s. (found_or gas_limit Message.address_not_registered found, s))
  address_table_call t gas_limit (AddressTableCall.lookup_index_call index) =
      or_table_error gas_limit (AddressTable.lookup_index J t (min index u64_max))
        (λ found s. (found_or gas_limit Message.index_out_of_bounds found, s))
  address_table_call t gas_limit AddressTableCall.size_call =
      or_table_error gas_limit (AddressTable.len J t)
        (λ n s. (ok_result H gas_limit (encode_words (n ∷ [])), s))
  address_table_call t gas_limit (AddressTableCall.register_call account) =
      or_table_error gas_limit (AddressTable.register J t account)
        (λ n s. (ok_result H gas_limit (encode_words (n ∷ [])), s))
  address_table_call t gas_limit AddressTableCall.compress =
      λ s. (revert_result H gas_limit Message.not_yet_implemented, s)
  address_table_call t gas_limit AddressTableCall.decompress =
      λ s. (revert_result H gas_limit Message.not_yet_implemented, s)

module _ (J : ArbJournal) (H : Host) where
  open J use {State}

  unfoldable pub run_arb_address_table :
      (List ℕ → Option AddressTableCall) → List ℕ → ℕ → State → InterpreterResult H.Gas × State
  run_arb_address_table decode input gas_limit s = elim (decode input) [
    | none ↦ (gated_revert_result H gas_limit, s)
    | some call ↦
        let ((r, burned), s') =
          run_metered J
            (address_table_call (metered J) H (open_arbos J).address_table gas_limit call) s in
        (take_burned H InstructionResult.out_of_gas r burned, s')
  ]
