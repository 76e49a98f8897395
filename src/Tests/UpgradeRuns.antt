-- ===== src/Tests/UpgradeRuns.antt =====
-- The theorems on internal transactions and upgrades, applied.
use arb_revm.Base.{false, take, List, [], arith, refl, true, ℕ, ◌++◌, ◌∷◌, ◌≡◌, ◌≢◌, ◌⊎◌}
use arb_revm.Base.Bytes.{be_bytes, from_be, from_be_acc}
use arb_revm.Storage.BlockHashes.{l1_block_number}
use arb_revm.Journal.{ok}
use arb_revm.Journal.Memory.{Memory}
use arb_revm.Tests.Toy.{toy, with_words}
use arb_revm.Tests.TransactionRuns.{platform, arbos, block, hundreds}
use arb_revm.Transactions.{timestamp_u64}
use arb_revm.Storage.Queue.{is_empty, peek, peek_first}
use arb_revm.Storage.Slot.{get_uint, set_u64, get_u256, set_u256}
use arb_revm.Storage.ArbosState.{open_arbos}
use arb_revm.Transactions.Internal.{
  start_block_selector, arg_u64, apply_internal_tx, apply_start_block, with_arguments, in_block,
  new_block, start_block, number_u64, word_as_u64, parent_hash, write_history, record_l1_block,
  upgrade_if_due,
}
use arb_revm.Transactions.Upgrade.{upgrade_arbos_version, ignore}
use arb_revm.Transactions.Internal.Dispatch.{apply_internal_tx-context}
use arb_revm.Transactions.Calldata.{selector_size, equal_bytes, spell_words}
use arb_revm.Transactions.Upgrade.Unsupported.{upgrade_arbos_version_unsupported}
use arb_revm.Storage.L2Pricing.{open_l2_pricing, gas_model, active_from}
use arb_revm.Storage.L2Pricing.Constraints.{commit_multi_gas_fees}
use arb_revm.Storage.Retryables.{try_to_reap_one}
use arb_revm.Storage.L2Pricing.Update.{
  update_pricing_model, update_pricing_model_legacy, legacy_base_fee, exponent_bips,
}
use arb_revm.Storage.Space.{open_subspace_with_key, slot_for_hash}

upgrade_arbos_version_unsupported_example :
    (upgrade_arbos_version toy platform arbos 60 62 true hundreds).0 ≢ ok tt
upgrade_arbos_version_unsupported_example =
    upgrade_arbos_version_unsupported toy platform arbos true 60 62 hundreds (omega arith)
      (omega arith)

-- Version 1, an empty queue, and every price 1.
abbrev ones : Memory
ones = with_words (λ a k. 1)

abbrev start_of_block_7 : List ℕ
start_of_block_7 = start_block_selector ++ spell_words (0 ∷ 0 ∷ 7 ∷ 1 ∷ [])

start_of_block_7_run :
    (apply_internal_tx toy platform block start_of_block_7 (ones, (3, 5 ∷ []))).0 ≡ ok tt
unfolding apply_internal_tx apply_start_block with_arguments in_block new_block start_block
    number_u64 word_as_u64 timestamp_u64 parent_hash write_history record_l1_block upgrade_if_due
    ignore spell_words be_bytes from_be from_be_acc open_arbos open_l2_pricing get_uint set_u64
    get_u256 set_u256 commit_multi_gas_fees l1_block_number try_to_reap_one peek is_empty
    update_pricing_model update_pricing_model_legacy gas_model legacy_base_fee exponent_bips
    peek_first active_from open_subspace_with_key slot_for_hash
start_of_block_7_run = refl

apply_internal_tx-context_example :
    let run = apply_internal_tx toy platform block start_of_block_7 (ones, (3, 5 ∷ [])) in
    ((equal_bytes (take selector_size start_of_block_7) start_block_selector ≡ true)
      × ((arg_u64 start_of_block_7 2 ≡ 7)
          × ((n : ℕ) × ((start_block toy platform arbos block
                  (arg_u64 start_of_block_7 1)
                  (arg_u64 start_of_block_7 2)
                  (arg_u64 start_of_block_7 3)
                  ones).0
                ≡ ok n)
              × (run.1.1 ≡ (n, [])))))
    ⊎ ((equal_bytes (take selector_size start_of_block_7) start_block_selector ≡ false)
        × (run.1.1 ≡ (3, 5 ∷ [])))
apply_internal_tx-context_example =
    apply_internal_tx-context toy platform block start_of_block_7 ones (3, 5 ∷ [])
      start_of_block_7_run
