-- ===== src/Transactions/Internal.antt =====
-- crates/arb-revm/src/internal_tx.rs: the transactions by which ArbOS itself starts a block and
-- records what a batch poster spent.
pub mod Dispatch
use arb_revm.Base.{
  Bool, Bool-cases, List, Option, Option-cases, [], ap, append-nil, append_assoc, ap₂, arith,
  bit_and, bit_or, bit_xor, checked_add, checked_mul, checked_sub, dec_le, dec_lt, drop, eq_self,
  eq_true→eq, false, fun_ext, if◌then◌else◌, inl, inr, leb, length, length-append, le→leb, le→ltb,
  ltb, ltb→lt, lt→ltb, map_option, min, ne→eq_false, none, not, refl, replicate, saturating_add,
  saturating_mul, some, subst, suc, sym, take, true, u256_max, u64_max, unwrap_or, zero, ℕ,
  ℕ_discrete, ◌%◌, ◌&&◌, ◌*◌, ◌++◌, ◌+◌, ◌-◌, ◌/◌, ◌<◌, ◌==◌, ◌^◌, ◌||◌, ◌↔◌, ◌∎, ◌∙◌, ◌∷◌, ◌≡◌,
  ◌≡⟨◌⟩◌, ◌≢◌, ◌≤◌, ◌⊎◌,
}
use arb_revm.Base.Bytes.{from_be}
use arb_revm.Journal.{
  ArbJournal, M, ok, pure, raise, bad_calldata, conversion, unsupported, ◌>>=◌, ◌>>◌,
}
use arb_revm.Storage.Packed.{slice}
use arb_revm.Storage.Space.{address_of_word}
use arb_revm.Storage.Slot.{get_u64}
use arb_revm.Storage.ArbosState.{ArbosState, open_arbos}
use arb_revm.Storage.BlockHashes.{l1_block_number, record_new_l1_block}
use arb_revm.Storage.Retryables.{try_to_reap_one}
use arb_revm.Storage.L2Pricing.Constraints.{commit_multi_gas_fees}
use arb_revm.Storage.L2Pricing.Update.{update_pricing_model}
use arb_revm.Storage.L1Pricing.Update.{apply_batch_posting_report, apply_batch_posting_report_v2}
use arb_revm.Transactions.{Block, Platform, timestamp_u64}
use arb_revm.Transactions.Calldata.{equal_bytes, selector_size, word_size}
use arb_revm.Transactions.Upgrade.{upgrade_arbos_version, ignore, history_storage_address}

abbrev pub history_serve_window : ℕ
history_serve_window = 393168

abbrev pub start_block_selector : List ℕ
start_block_selector = 0x6B ∷ 0xF6 ∷ 0xA4 ∷ 0x2D ∷ []

abbrev pub batch_posting_report_selector : List ℕ
batch_posting_report_selector = 0xB6 ∷ 0x69 ∷ 0x37 ∷ 0x71 ∷ []

abbrev pub batch_posting_report_v2_selector : List ℕ
batch_posting_report_v2_selector = 0x99 ∷ 0x98 ∷ 0x26 ∷ 0x9E ∷ []

-- The word at an index after the selector, as a number; `word_to_u64` here keeps its last 8 bytes.
abbrev pub arg : List ℕ → ℕ → ℕ
arg input index = from_be (slice (drop selector_size input) (index * word_size) word_size)

abbrev pub arg_u64 : List ℕ → ℕ → ℕ
arg_u64 input index = arg input index % 2 ^ 64

abbrev pub arg_address : List ℕ → ℕ → ℕ
arg_address input index = address_of_word (arg input index)

-- Each decoder takes calldata of one length only.
unfoldable pub with_arguments : {S A : Type 0} → ℕ → List ℕ → M S A → M S A
with_arguments words input m =
    if length input == selector_size + words * word_size then m else raise bad_calldata

unfoldable pub word_as_u64 : {S : Type 0} → ℕ → M S ℕ
word_as_u64 word = if ltb word (2 ^ 64) then pure word else raise conversion

-- The journal and what the context keeps of the block: the L1 block number that the `NUMBER` opcode
-- gives, and the tickets of the block whose escrow may come back.
abbrev pub BlockSession : ArbJournal → Type 0
BlockSession J = J.State × (ℕ × List ℕ)

unfoldable pub in_block : (J : ArbJournal) {A : Type 0} → M J.State A → M (BlockSession J) A
in_block J m (s, chain) = let (r, s') = m s in (r, (s', chain))

unfoldable pub new_block : (J : ArbJournal) → ℕ → M (BlockSession J) (Unit {0})
new_block J l1_block (s, chain) = (ok tt, (s, (l1_block, [])))

module _ (J : ArbJournal) (P : Platform J) where
  open J use {State, write_slot}

  unfoldable pub number_u64 : Block → M State ℕ
  number_u64 block = word_as_u64 block.number

  unfoldable pub parent_hash : ℕ → M State ℕ
  parent_hash number = if number == 0 then pure 0 else P.block_hash (number - 1)

  -- EIP-2935: the parent's hash in the history contract's ring.
  unfoldable pub write_history : ℕ → ℕ → ℕ → M State (Unit {0})
  write_history arbos_version number prev_hash =
      if leb 40 arbos_version && ltb 0 number
      then write_slot history_storage_address ((number - 1) % history_serve_window) prev_hash
      else pure tt

  -- A block number of L1 beyond the recorded ones is recorded under the block before it.
  unfoldable pub record_l1_block : ArbosState → ℕ → ℕ → ℕ → M State (Unit {0})
  record_l1_block a arbos_version l1_block prev_hash = do
    old ← l1_block_number J a.block_hashes
    if ltb old l1_block
        then record_new_l1_block J a.block_hashes (l1_block - 1) prev_hash arbos_version
        else pure tt

  -- `UpgradeArbosVersionIfNecessary`
  unfoldable pub upgrade_if_due : ArbosState → ℕ → ℕ → M State (Unit {0})
  upgrade_if_due a arbos_version current_time = do
    planned ← get_u64 J a.upgrade_version
    planned_time ← get_u64 J a.upgrade_timestamp
    if ltb arbos_version planned && leb planned_time current_time
        then upgrade_arbos_version J P a arbos_version planned false
        else pure tt

  -- The start of a block, up to the context: the L1 block number that it leaves.
  unfoldable pub start_block : ArbosState → Block → ℕ → ℕ → ℕ → M State ℕ
  start_block a block l1_block l2_block time_last_block = do
    number ← number_u64 block
    if l2_block == number
        then (do
          current_time ← timestamp_u64 block
          prev_hash ← parent_hash number
          arbos_version ← get_u64 J a.arbos_version
          commit_multi_gas_fees J a.l2_pricing arbos_version
          write_history arbos_version number prev_hash
          let time_passed = if ltb arbos_version 3 then l2_block else time_last_block
          let l1_number = if ltb arbos_version 8 then saturating_add 64 l1_block 1 else l1_block
          record_l1_block a arbos_version l1_number prev_hash
          recorded ← l1_block_number J a.block_hashes
          ignore (try_to_reap_one J a.retryables current_time)
          ignore (try_to_reap_one J a.retryables current_time)
          update_pricing_model J a.l2_pricing time_passed arbos_version
          upgrade_if_due a arbos_version current_time
          pure recorded)
        else raise bad_calldata

  unfoldable pub apply_start_block : Block → List ℕ → M (BlockSession J) (Unit {0})
  apply_start_block block input = with_arguments 4 input (do
    recorded ←
        in_block J
          (start_block (open_arbos J) block (arg_u64 input 1) (arg_u64 input 2) (arg_u64 input 3))
    new_block J recorded)

  unfoldable pub report_batch : ArbosState → Block → List ℕ → M State (Unit {0})
  report_batch a block input = with_arguments 5 input (do
    batch_timestamp ← word_as_u64 (arg input 0)
    current_time ← timestamp_u64 block
    arbos_version ← get_u64 J a.arbos_version
    apply_batch_posting_report J a.l1_pricing arbos_version batch_timestamp current_time
        (arg_address input 1) (arg_u64 input 3) (arg input 4))

  unfoldable pub report_batch_v2 : ArbosState → Block → List ℕ → M State (Unit {0})
  report_batch_v2 a block input = with_arguments 7 input (do
    batch_timestamp ← word_as_u64 (arg input 0)
    current_time ← timestamp_u64 block
    arbos_version ← get_u64 J a.arbos_version
    apply_batch_posting_report_v2 J a.l1_pricing arbos_version batch_timestamp current_time
        (arg_address input 1) (arg_u64 input 3) (arg_u64 input 4) (arg_u64 input 5) (arg input 6))

  unfoldable pub apply_internal_tx : Block → List ℕ → M (BlockSession J) (Unit {0})
  apply_internal_tx block input =
      let selector = take selector_size input in
      if ltb (length input) selector_size
      then raise bad_calldata
      else if equal_bytes selector start_block_selector
      then apply_start_block block input
      else if equal_bytes selector batch_posting_report_selector
      then in_block J (report_batch (open_arbos J) block input)
      else if equal_bytes selector batch_posting_report_v2_selector
      then in_block J (report_batch_v2 (open_arbos J) block input)
      else raise unsupported
