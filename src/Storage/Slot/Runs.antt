-- ===== src/Storage/Slot/Runs.antt =====
-- What the accessors return and leave behind, over a lawful journal.
use arb_revm.Base.{ℕ, ◌^◌, ◌<◌, ◌≤◌, ◌≡◌, arith}
use arb_revm.Journal.{ArbJournal, Lawful, ok, err, conversion}
use arb_revm.Storage.Space.{StorageSlot, address_of_word}
use arb_revm.Storage.Slot.{get_uint, get_u256, set_u256, set_u64, set_u32, get_address, set_address}

module _ (J : ArbJournal) (L : Lawful J) where
  open J use {State}
  open L use {value, seen, stored, read_lem, write_lem}

  -- The word that a typed slot holds.
  abbrev pub held : State → StorageSlot → ℕ
  held s p = value s p.account p.slot

  abbrev pub read : StorageSlot → State → State
  read p s = seen p.account p.slot s

  abbrev pub written : StorageSlot → ℕ → State → State
  written p v s = stored p.account p.slot v s

  pub get_uint_lem :
      (w : ℕ) (p : StorageSlot) (s : State)
      → held s p < 2 ^ w
      → get_uint J w p s ≡ (ok (held s p), read p s)
  unfolding get_uint
  get_uint_lem w p s h = ground (arith, read_lem p.account p.slot s)

  pub get_uint_wide :
      (w : ℕ) (p : StorageSlot) (s : State)
      → 2 ^ w ≤ held s p
      → get_uint J w p s ≡ (err conversion, read p s)
  unfolding get_uint
  get_uint_wide w p s h = ground (arith, read_lem p.account p.slot s)

  pub get_u256_lem : (p : StorageSlot) (s : State) → get_u256 J p s ≡ (ok (held s p), read p s)
  unfolding get_u256
  get_u256_lem p s = read_lem p.account p.slot s

  pub get_address_lem :
      (p : StorageSlot) (s : State)
      → get_address J p s ≡ (ok (address_of_word (held s p)), read p s)
  unfolding get_address
  get_address_lem p s = ground (arith, read_lem p.account p.slot s)

  pub set_u256_lem :
      (p : StorageSlot) (v : ℕ) (s : State) → set_u256 J p v s ≡ (ok tt, written p v s)
  unfolding set_u256
  set_u256_lem p v s = write_lem p.account p.slot v s

  pub set_u64_lem : (p : StorageSlot) (v : ℕ) (s : State) → set_u64 J p v s ≡ (ok tt, written p v s)
  unfolding set_u64
  set_u64_lem p v s = write_lem p.account p.slot v s

  pub set_u32_lem : (p : StorageSlot) (v : ℕ) (s : State) → set_u32 J p v s ≡ (ok tt, written p v s)
  unfolding set_u32
  set_u32_lem p v s = write_lem p.account p.slot v s

  pub set_address_lem :
      (p : StorageSlot) (v : ℕ) (s : State) → set_address J p v s ≡ (ok tt, written p v s)
  unfolding set_address
  set_address_lem p v s = write_lem p.account p.slot v s
