-- ===== src/Storage/AddressSet.antt =====
-- `AddressSet` of crates/arb-revm/src/storage/address_set.rs: a list of addresses from slot 1 on,
-- its size in slot 0, and each member's position in a map.
pub mod Members
use arb_revm.Base.{
  Bool, List, [], if◌then◌else◌, not, saturating_add, suc, zero, ℕ, ◌+◌, ◌-◌, ◌==◌, ◌∷◌,
}
use arb_revm.Storage.Space
use arb_revm.Storage.Space.{
  StorageSpace, StorageSlot, storage_backed, open_subspace_with_key, address_of_word,
}
use arb_revm.Storage.Slot.{get_u64, set_u64}
use arb_revm.Journal.{ArbJournal, M, pure, ◌>>=◌, ◌>>◌}

pub record AddressSet : Type 0 where
  pub backing : StorageSpace
  pub size : StorageSlot
  pub by_address : StorageSpace

module _ (J : ArbJournal) where
  open J use {State}

  abbrev pub open_address_set : StorageSpace → AddressSet
  open_address_set backing = record {
    backing = backing;
    size = storage_backed J backing 0;
    by_address = open_subspace_with_key J backing 0;
  }

  unfoldable pub is_member : AddressSet → ℕ → M State Bool
  is_member t address = do position ← Space.get J t.by_address address; pure (not (position == 0))

  unfoldable pub add : AddressSet → ℕ → M State (Unit {0})
  add t address = do
    known ← is_member t address
    if known then pure tt else (do
      old ← get_u64 J t.size
      let size = saturating_add 64 old 1
      Space.set J t.by_address address size
      Space.set J t.backing size address
      set_u64 J t.size size)

  -- The loop `for i in 1..=size` from `i` on, with the rounds left.
  unfoldable pub members_from : AddressSet → ℕ → ℕ → M State (List ℕ)
  members_from t zero i = pure []
  members_from t (suc rounds) i = do
    raw ← Space.get J t.backing i
    members ← members_from t rounds (i + 1)
    pure (address_of_word raw ∷ members)

  unfoldable pub all_members : AddressSet → M State (List ℕ)
  all_members t = do size ← get_u64 J t.size; members_from t size 1

  unfoldable pub clear_from : AddressSet → ℕ → ℕ → M State (Unit {0})
  clear_from t zero i = pure tt
  clear_from t (suc rounds) i = do Space.set J t.backing i 0; clear_from t rounds (i + 1)

  -- The map of positions is left alone.
  unfoldable pub clear_list : AddressSet → M State (Unit {0})
  clear_list t = do
    size ← get_u64 J t.size
    if size == 0 then pure tt else (do clear_from t size 1; set_u64 J t.size 0)

  -- The last member takes the place of the one that leaves.
  unfoldable pub fill_place : AddressSet → ℕ → ℕ → M State (Unit {0})
  fill_place t position size = if position == size then pure tt else (do
    last_address ← Space.get J t.backing size
    Space.set J t.by_address last_address position
    Space.set J t.backing position last_address)

  unfoldable pub remove : AddressSet → ℕ → M State (Unit {0})
  remove t address = do
    position ← Space.get J t.by_address address
    if position == 0 then pure tt else (do
      size ← get_u64 J t.size
      fill_place t position size
      Space.set J t.by_address address 0
      Space.set J t.backing size 0
      set_u64 J t.size (size - 1))
