-- ===== src/Storage/AddressTable.antt =====
-- `AddressTable` of crates/arb-revm/src/storage/address_table.rs: addresses numbered in the order
-- of their registration, with a map back.
pub mod Registration
pub mod RoundTrip
use arb_revm.Base.{
  Bool, Bool-cases, List, Option, Option-cases, [], ap, append-nil, append_assoc, ap₂, arith,
  bit_and, bit_or, bit_xor, checked_add, checked_mul, checked_sub, dec_le, dec_lt, drop, eq_self,
  eq_true→eq, false, fun_ext, if◌then◌else◌, inl, inr, leb, length, length-append, le→leb, le→ltb,
  ltb, ltb→lt, lt→ltb, min, ne→eq_false, none, not, refl, replicate, saturating_add, saturating_mul,
  some, subst, suc, sym, take, true, u256_max, u64_max, unwrap_or, zero, ℕ, ℕ_discrete, ◌%◌, ◌&&◌,
  ◌*◌, ◌++◌, ◌+◌, ◌-◌, ◌/◌, ◌<◌, ◌==◌, ◌^◌, ◌||◌, ◌↔◌, ◌∎, ◌∙◌, ◌∷◌, ◌≡◌, ◌≡⟨◌⟩◌, ◌≢◌, ◌≤◌, ◌⊎◌,
}
use arb_revm.Storage.Space
use arb_revm.Storage.Space.{StorageSpace, StorageSlot, storage_backed, open_subspace}
use arb_revm.Storage.Slot.{get_u64, set_u64}
use arb_revm.Journal.{ArbJournal, M, pure, raise, conversion, ◌>>=◌, ◌>>◌}

pub record AddressTable : Type 0 where
  pub backing_storage : StorageSpace
  pub by_address : StorageSpace
  pub num_items : StorageSlot

module _ (J : ArbJournal) where
  open J use {State}

  abbrev pub open_address_table : StorageSpace → AddressTable
  open_address_table backing = record {
    num_items = storage_backed J backing 0;
    by_address = open_subspace J backing [];
    backing_storage = backing;
  }

  -- An address that is known keeps its index.
  unfoldable pub register : AddressTable → ℕ → M State ℕ
  register t address = do
    existing ← Space.get J t.by_address address
    if existing == 0
        then (do
          len ← get_u64 J t.num_items
          let new_len = (len + 1) % 2 ^ 64
          Space.set J t.backing_storage new_len address
          Space.set J t.by_address address new_len
          set_u64 J t.num_items new_len
          pure ((new_len + u64_max) % 2 ^ 64))
        else if ltb existing (2 ^ 64)
        then pure (existing - 1)
        else raise conversion

  unfoldable pub lookup : AddressTable → ℕ → M State (Option ℕ)
  lookup t address = do
    stored ← Space.get J t.by_address address
    if stored == 0
        then pure none
        else if ltb stored (2 ^ 64)
        then pure (some (stored - 1))
        else raise conversion

  unfoldable pub len : AddressTable → M State ℕ
  len t = get_u64 J t.num_items

  unfoldable pub lookup_index : AddressTable → ℕ → M State (Option ℕ)
  lookup_index t index = do
    len ← get_u64 J t.num_items
    if leb len index then pure none else (do
      stored ← Space.get J t.backing_storage ((index + 1) % 2 ^ 64)
      pure (some (stored % 2 ^ 160)))
