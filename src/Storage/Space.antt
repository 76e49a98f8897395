-- ===== src/Storage/Space.antt =====
-- `StorageSpace` of crates/arb-revm/src/storage/mod.rs: a namespace of words in one account, and
-- `util.rs` for addresses. A slot keeps the last byte of its key, so that keys of one page of 256
-- share a hash.
pub mod Apart
use arb_revm.Base.{ℕ, ◌+◌, ◌*◌, ◌/◌, ◌%◌, ◌^◌, List, [], ◌∷◌, ◌++◌, take}
use arb_revm.Base.Bytes.{be_bytes}
use arb_revm.Journal.{ArbJournal, M}

pub record StorageSpace : Type 0 where
  pub key : List ℕ
  pub account : ℕ

-- `StorageSlot`, and `StorageBacked<T>` with the type of its value left to the accessor.
pub record StorageSlot : Type 0 where
  pub account : ℕ
  pub slot : ℕ

abbrev pub arbos_state_address : ℕ
arbos_state_address = 0xA4B05FFFFFFFFFFFFFFFFFFFFFFFFFFFFFFFFFFF

abbrev pub root_space : ℕ → StorageSpace
root_space account = record { key = []; account = account }

-- `Address::from_slice(&bytes[12..])` of a word.
abbrev pub address_of_word : ℕ → ℕ
address_of_word w = w % 2 ^ 160

module _ (J : ArbJournal) where
  open J use {State, keccak256, read_slot, write_slot}

  unfoldable pub open_subspace : StorageSpace → List ℕ → StorageSpace
  open_subspace sp id = record {
    key = be_bytes 32 (keccak256 (sp.key ++ id));
    account = sp.account;
  }

  unfoldable pub open_subspace_with_key : StorageSpace → ℕ → StorageSpace
  unfolding open_subspace
  open_subspace_with_key sp id = open_subspace sp (id ∷ [])

  -- The first 31 bytes of the hash of the key's first 31 bytes, then the key's last byte.
  unfoldable pub slot_for_hash : StorageSpace → ℕ → ℕ
  slot_for_hash sp h = keccak256 (sp.key ++ take 31 (be_bytes 32 h)) / 256 * 256 + h % 256

  -- `slot_for_offset`, wrapped with the account by `StorageSpace::storage_backed`.
  abbrev pub storage_backed : StorageSpace → ℕ → StorageSlot
  storage_backed sp offset = record { account = sp.account; slot = slot_for_hash sp offset }

  -- `StorageSpace::get` and `get_u256`: a key and an integer key are the same number.
  abbrev pub get : StorageSpace → ℕ → M State ℕ
  get sp h = read_slot sp.account (slot_for_hash sp h)

  abbrev pub set : StorageSpace → ℕ → ℕ → M State (Unit {0})
  set sp h v = write_slot sp.account (slot_for_hash sp h) v
