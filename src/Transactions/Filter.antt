-- ===== src/Transactions/Filter.antt =====
-- crates/arb-revm/src/transaction_filter.rs: the hashes whose transactions are filtered, and where
-- their funds go instead.
use arb_revm.Base.{Bool, Option, false, if◌then◌else◌, ltb, none, some, ℕ, ◌==◌}
use arb_revm.Journal.{ArbJournal, M, pure, ◌>>=◌}
use arb_revm.Storage.Space
use arb_revm.Storage.Space.{root_space}
use arb_revm.Storage.Slot.{get_u64, get_address}
use arb_revm.Storage.ArbosState.{open_arbos}

abbrev pub arbos_version_transaction_filtering : ℕ
arbos_version_transaction_filtering = 60

abbrev pub filtered_transactions_state_address : ℕ
filtered_transactions_state_address = 0xA4B0500000000000000000000000000000000001

module _ (J : ArbJournal) where
  open J use {State}

  -- The version given, or the stored one.
  unfoldable pub version_or_stored : Option ℕ → M State ℕ
  version_or_stored (some v) = pure v
  version_or_stored none = get_u64 J (open_arbos J).arbos_version

  unfoldable pub is_tx_hash_filtered : ℕ → Option ℕ → M State Bool
  is_tx_hash_filtered tx_hash arbos_version = do
    v ← version_or_stored arbos_version
    if ltb v arbos_version_transaction_filtering then pure false else (do
      word ← Space.get J (root_space filtered_transactions_state_address) tx_hash
      pure (word == 1))

  unfoldable pub filtered_funds_recipient_or_default : M State ℕ
  filtered_funds_recipient_or_default = do
    recipient ← get_address J (open_arbos J).filtered_funds_recipient
    if recipient == 0 then get_address J (open_arbos J).network_fee_account else pure recipient
