-- ===== src/Storage/Slot.antt =====
-- The typed accessors `StorageBacked<T>` of crates/arb-revm/src/storage/slot.rs, and the two's
-- complement conversions of `util.rs`. An `i64` or `I256` is an integer.
pub mod Runs
pub mod Signed
use arb_revm.Base.{
  ℕ, ◌+◌, ◌-◌, ◌^◌, ◌<◌, ◌≡◌, Bool, ◌&&◌, ◌||◌, not, ltb, leb, if◌then◌else◌, Option, some, none,
  suc,
}
use arb_revm.Base.Int.{ℤ, pos, negsuc, ltb_ℤ, leb_ℤ, pos_part, neg_part, sub_ℕ, in_range}
use arb_revm.Journal.{
  ArbJournal, M, ok, err, pure, raise, conversion, overflow, underflow, ◌>>=◌, ◌>>◌,
}
use arb_revm.Storage.Space.{StorageSlot, address_of_word}

-- `i256_to_u256_twos_complement`. The negation of the least `I256`, here and in the conversion back, is
-- itself, as alloy has it in a release build; with debug assertions it panics.
unfoldable pub i256_to_u256_twos_complement : ℤ → ℕ
i256_to_u256_twos_complement (pos n) = n
i256_to_u256_twos_complement (negsuc n) = 2 ^ 256 - suc n

-- `u256_twos_complement_to_i256`. For 2^255, `I256::from` keeps the bits of the word, so that the result
-- is the least `I256`.
unfoldable pub u256_twos_complement_to_i256 : ℕ → ℤ
u256_twos_complement_to_i256 v = if ltb v (2 ^ 255) then pos v else sub_ℕ 0 (2 ^ 256 - 1 - v + 1)

-- The word for which `raw.bit_len() < 256 || !raw.bit(255)`.
abbrev pub sign_clear : ℕ → Bool
sign_clear raw = ltb raw (2 ^ 255)

module _ (J : ArbJournal) where
  open J use {State, read_slot, write_slot}

  unfoldable pub get_u256 : StorageSlot → M State ℕ
  get_u256 p = read_slot p.account p.slot

  unfoldable pub set_u256 : StorageSlot → ℕ → M State (Unit {0})
  set_u256 p v = write_slot p.account p.slot v

  unfoldable pub get_address : StorageSlot → M State ℕ
  get_address p = do w ← read_slot p.account p.slot; pure (address_of_word w)

  unfoldable pub set_address : StorageSlot → ℕ → M State (Unit {0})
  set_address p a = write_slot p.account p.slot a

  -- `try_into` of a word that does not fit fails.
  unfoldable pub get_uint : ℕ → StorageSlot → M State ℕ
  get_uint w p = do
    v ← read_slot p.account p.slot
    if ltb v (2 ^ w) then pure v else raise conversion

  abbrev pub get_u64 : StorageSlot → M State ℕ
  get_u64 = get_uint 64

  abbrev pub get_u32 : StorageSlot → M State ℕ
  get_u32 = get_uint 32

  unfoldable pub set_u64 : StorageSlot → ℕ → M State (Unit {0})
  set_u64 p v = write_slot p.account p.slot v

  unfoldable pub set_u32 : StorageSlot → ℕ → M State (Unit {0})
  set_u32 p v = write_slot p.account p.slot v

  unfoldable pub get_i64 : StorageSlot → M State ℤ
  unfolding u256_twos_complement_to_i256
  get_i64 p = do
    w ← read_slot p.account p.slot
    let signed = u256_twos_complement_to_i256 w
    if in_range 63 signed then pure signed else raise conversion

  unfoldable pub set_i64 : StorageSlot → ℤ → M State (Unit {0})
  unfolding i256_to_u256_twos_complement
  set_i64 p v = write_slot p.account p.slot (i256_to_u256_twos_complement v)

  unfoldable pub get_i256 : StorageSlot → M State ℤ
  unfolding u256_twos_complement_to_i256
  get_i256 p = do w ← read_slot p.account p.slot; pure (u256_twos_complement_to_i256 w)

  -- `StorageBacked<I256>::set_checked`.
  unfoldable pub set_checked : StorageSlot → ℤ → M State (Unit {0})
  unfolding i256_to_u256_twos_complement
  set_checked p v =
      let raw = i256_to_u256_twos_complement v in
      if ltb_ℤ v (pos 0)
      then if sign_clear raw then raise underflow else write_slot p.account p.slot raw
      else if leb (2 ^ 255) raw
      then raise overflow
      else write_slot p.account p.slot raw

  -- `set_saturating_with_warning`; the warning is a log line.
  unfoldable pub set_saturating_with_warning : StorageSlot → ℤ → M State (Unit {0})
  unfolding i256_to_u256_twos_complement
  set_saturating_with_warning p v =
      let raw = i256_to_u256_twos_complement v in
      if ltb_ℤ v (pos 0)
      then write_slot p.account p.slot (if sign_clear raw then 2 ^ 255 else raw)
      else write_slot p.account p.slot (if leb (2 ^ 255) raw then 2 ^ 255 - 1 else raw)

  -- `set_pre_version7` keeps the magnitude and drops the sign.
  unfoldable pub set_pre_version7 : StorageSlot → ℤ → M State (Unit {0})
  set_pre_version7 p v = write_slot p.account p.slot (pos_part v + neg_part v)

  unfoldable pub set_by_uint : StorageSlot → ℕ → M State (Unit {0})
  set_by_uint p v = write_slot p.account p.slot v
