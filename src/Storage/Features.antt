-- ===== src/Storage/Features.antt =====
-- `ArbFeatures` of crates/arb-revm/src/storage/features.rs: a word of flags.
use arb_revm.Base.{Bool, bit_and, bit_or, if◌then◌else◌, u256_max, ℕ, ◌%◌, ◌-◌, ◌/◌, ◌==◌, ◌^◌}
use arb_revm.Journal.{ArbJournal, M, pure, ◌>>=◌}
use arb_revm.Storage.Space.{StorageSpace, StorageSlot, storage_backed}
use arb_revm.Storage.Slot.{get_u256, set_u256}

pub record ArbFeatures : Type 0 where
  pub bits : StorageSlot

abbrev pub feature_increased_calldata_price : ℕ
feature_increased_calldata_price = 0

-- `U256::from(1) << i`, which drops a bit beyond the word.
abbrev pub shifted_one : ℕ → ℕ
shifted_one i = 2 ^ i % 2 ^ 256

-- `bits.bit(i)`.
abbrev pub bit : ℕ → ℕ → Bool
bit bits i = bits / 2 ^ i % 2 == 1

module _ (J : ArbJournal) where
  open J use {State}

  abbrev pub open_features : StorageSpace → ArbFeatures
  open_features storage = record { bits = storage_backed J storage 0 }

  unfoldable pub set_feature : ArbFeatures → ℕ → Bool → M State (Unit {0})
  set_feature t feature_index enabled = do
    bits ← get_u256 J t.bits
    set_u256 J t.bits (
        if enabled
        then bit_or bits (shifted_one feature_index)
        else bit_and bits (u256_max - shifted_one feature_index))

  unfoldable pub is_feature_enabled : ArbFeatures → ℕ → M State Bool
  is_feature_enabled t feature_index = do bits ← get_u256 J t.bits; pure (bit bits feature_index)

  unfoldable pub set_calldata_price_increase : ArbFeatures → Bool → M State (Unit {0})
  set_calldata_price_increase t enabled = set_feature t feature_increased_calldata_price enabled

  unfoldable pub is_calldata_price_increase_enabled : ArbFeatures → M State Bool
  is_calldata_price_increase_enabled t = is_feature_enabled t feature_increased_calldata_price
