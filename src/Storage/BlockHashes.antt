-- ===== src/Storage/BlockHashes.antt =====
-- `BlockHashes` of crates/arb-revm/src/storage/block_hashes.rs: the hashes of the last 256 L1
-- blocks in a ring, with the number of the next block as the cursor.
pub mod Gap
pub mod Ring
use arb_revm.Base.{
  Bool, Bool-cases, List, Option, Option-cases, [], ap, append-nil, append_assoc, ap₂, arith,
  bit_and, bit_or, bit_xor, checked_add, checked_mul, checked_sub, dec_le, dec_lt, drop, eq_self,
  eq_true→eq, false, fun_ext, if◌then◌else◌, inl, inr, leb, length, length-append, le→leb, le→ltb,
  ltb, ltb→lt, lt→ltb, min, ne→eq_false, none, not, refl, replicate, saturating_add, saturating_mul,
  some, subst, suc, sym, take, true, u256_max, u64_max, unwrap_or, zero, ℕ, ℕ_discrete, ◌%◌, ◌&&◌,
  ◌*◌, ◌++◌, ◌+◌, ◌-◌, ◌/◌, ◌<◌, ◌==◌, ◌^◌, ◌||◌, ◌↔◌, ◌∎, ◌∙◌, ◌∷◌, ◌≡◌, ◌≡⟨◌⟩◌, ◌≢◌, ◌≤◌, ◌⊎◌,
}
use arb_revm.Base.Bytes.{be_bytes, le_bytes}
use arb_revm.Journal.{ArbJournal, M, pure, ◌>>=◌, ◌>>◌}
use arb_revm.Storage.Space.{StorageSpace, StorageSlot, storage_backed}
use arb_revm.Storage.Space
use arb_revm.Storage.Slot.{get_u64, set_u64}

pub record BlockHashes : Type 0 where
  pub backing_storage : StorageSpace
  pub cursor : StorageSlot

-- The key of a block's hash.
abbrev pub ring_index : ℕ → ℕ
ring_index block_number = 1 + block_number % 256

module _ (J : ArbJournal) where
  open J use {State, keccak256}

  abbrev pub open_block_hashes : StorageSpace → BlockHashes
  open_block_hashes sp = record { backing_storage = sp; cursor = storage_backed J sp 0 }

  unfoldable pub l1_block_number : BlockHashes → M State ℕ
  l1_block_number b = get_u64 J b.cursor

  -- 0 outside the window of the last 256 blocks.
  unfoldable pub block_hash : BlockHashes → ℕ → M State ℕ
  block_hash b block_number = do
    current ← l1_block_number b
    if leb current block_number || ltb ((block_number + 256) % 2 ^ 64) current
        then pure 0
        else Space.get J b.backing_storage (ring_index block_number)

  unfoldable pub set_block_hash : BlockHashes → ℕ → ℕ → M State (Unit {0})
  set_block_hash b block_number hash = Space.set J b.backing_storage (ring_index block_number) hash

  unfoldable pub set_l1_block_number : BlockHashes → ℕ → M State (Unit {0})
  set_l1_block_number b block_number = set_u64 J b.cursor block_number

  -- `keccak256(block_hash ‖ n)`, with the number in the hash only from ArbOS 8 on.
  unfoldable pub fill_hash : ℕ → ℕ → ℕ → ℕ
  fill_hash arbos_version hash n =
      keccak256 (be_bytes 32 hash ++ (if leb 8 arbos_version then le_bytes 8 n else le_bytes 8 0))

  -- The loop `while next_number.saturating_add(1) < number`, with the rounds left as fuel:
  -- `number - next_number` rounds are enough.
  unfoldable pub fill_gap : BlockHashes → ℕ → ℕ → ℕ → ℕ → ℕ → M State (Unit {0})
  fill_gap b arbos_version hash number zero next = pure tt
  fill_gap b arbos_version hash number (suc fuel) next =
      let n = saturating_add 64 next 1 in
      let round =
        set_block_hash b n (fill_hash arbos_version hash n)
        >> fill_gap b arbos_version hash number fuel n in
      if ltb n number then round else pure tt

  -- A block that is known is skipped; a gap of more than 256 blocks is cut to 256.
  unfoldable pub record_new_l1_block : BlockHashes → ℕ → ℕ → ℕ → M State (Unit {0})
  record_new_l1_block b number hash arbos_version = do
    next ← l1_block_number b
    let start = if ltb (saturating_add 64 next 256) number then number - 256 else next
    if ltb number next
        then pure tt
        else ((fill_gap b arbos_version hash number (number - start) start
              >> set_block_hash b number hash)
            >> set_l1_block_number b (saturating_add 64 number 1))
