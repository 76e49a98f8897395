-- ===== src/Lib.antt =====
-- A model of the ArbOS state layer of crates/arb-revm, the executor of Arbitrum blocks on revm, and
-- the theorems that it meets.
--
-- ArbOS keeps all of its own state in the storage words of one account. The crate reaches them
-- through the trait `ArbJournal` (crates/arb-revm/src/arb_journal.rs): a storage space picks the slot
-- of a key by a hash, a typed slot reads and writes a word, and the components (a queue, tables, the
-- ring of L1 block hashes, the two price models) are records of spaces and slots.
--
-- - Base and its children: the arithmetic of Rust's integers, which is written out, signed integers
--   over the native numbers, byte strings, Boolean tests and lists.
-- - Journal: the trait as the record `ArbJournal`, a parameter of every definition below; what stands
--   behind it is revm. An operation is a function from a state to a result and a state, so that what
--   was written before an error stays written. `Lawful` holds what the trait's documentation promises
--   over a database that answers. Journal/Metered is `MeteredJournal`, the wrapper that bills gas;
--   Journal/Memory is a lawful journal in memory.
-- - Storage/Space and Storage/Slot: storage/mod.rs, storage/slot.rs and the conversions of util.rs.
-- - Storage/Queue: storage/queue.rs; Storage/Queue/Fifo compares it with a list.
-- - Storage/AddressTable, Storage/AddressSet, Storage/BatchPosterTable: address_table.rs,
--   address_set.rs and batch_poster_table.rs of storage.
-- - Storage/BlockHashes: storage/block_hashes.rs, the ring of the last 256 L1 block hashes.
-- - Storage/L1Pricing: storage/l1_pricing.rs, what batch posters are owed and the price of L1 data.
-- - Storage/Retryables and Storage/Bytes: storage/retryables.rs and storage/bytes.rs.
-- - Storage/L2Pricing: storage/l2_pricing.rs, the three models of the L2 base fee.
-- - Storage/Packed, Storage/StylusParamLayout and Storage/Programs: storage/programs.rs, the packed
--   word of the Stylus parameters, the records of programs and the price of their data.
-- - Storage/SendMerkle: storage/send_merkle.rs, the accumulator of the messages to L1.
-- - Storage/Features and Storage/ArbosState: storage/features.rs, and the layout of the whole state in
--   arbos_state.rs and storage/offsets.rs.
-- - L1Cost: l1_cost.rs, the bytes of a transaction and what their posting costs.
-- - Spec: spec.rs, the versions and their hardforks.
-- - Transactions: the transactions of ArbOS itself. `Platform` is what they ask of revm's journal
--   beyond storage, and the encoders of other crates. Deposit is deposit_tx.rs; SubmitRetryable,
--   Calldata and Submission are submit_retryable_tx.rs; Retry is retry_tx.rs; Internal and Upgrade are
--   internal_tx.rs; Filter is transaction_filter.rs. They read and write the components above.
-- - Precompiles: `run_dispatch` of precompiles/mod.rs with its gates and gas in Dispatch, and the
--   bodies of six precompiles, in ArbRetryableTx, ArbGasInfo, ArbAddressTable, ArbAggregator,
--   ArbOwnerPublic and ArbFilteredTransactionsManager; `Host` is revm's gas counter and the ABI encoders.
-- - Genesis: arbos_init.rs, the first state of a chain; it ends with the upgrades of Upgrade.
-- - Tests: a journal with a concrete hash, and each theorem at a concrete state.
--
-- An operation keeps its name from the source; a stage or a loop of a long one is a function of its
-- own beside it. A loop over a range is a recursion on the number of rounds that are
-- left, which the caller computes as the source does. The loop of `record_new_l1_block` runs on
-- fuel: `number - start` rounds are given, one for each block from `start` to `number`, and a round
-- moves one block on. The chunks of a byte string are cut with its length as fuel, and every chunk
-- takes a byte at least. The walk of the accumulator over its levels has 65 rounds: a `u64` has 64
-- bits, so a size has 64 levels at most and the last round finds an empty one.
--
-- That the slots of a space are apart (`AreApart`, for as many keys as the component uses) is a
-- hypothesis on the hash. Not modelled: the handler that charges ordinary transactions, the
-- bodies of the other precompiles, the Stylus runtime and the executors, which drive these components; the accounts that a
-- chain imports at its start; raw reads of a database; input and output of the replay tools; and the
-- vendored crates. Brotli's compressed length and alloy's `I256::from` are parameters.
pub mod Base
pub mod Journal
pub mod Storage
pub mod L1Cost
pub mod Precompiles
pub mod Transactions
pub mod Genesis
pub mod Spec
pub mod Tests
