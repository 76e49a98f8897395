-- ===== src/Storage/Slot/Signed.antt =====
-- Signed words: the two's complement conversions and the signed accessors.
use arb_revm.Base.{ℕ, ◌-◌, ◌^◌, ◌<◌, ◌≡◌, arith, ◌&&◌, eq_self, suc}
use arb_revm.Base.Int.{ℤ, pos, negsuc, ◌≤ℤ◌}
use arb_revm.Journal.{ArbJournal, Lawful, ok, ◌>>=◌, ◌>>◌}
use arb_revm.Storage.Space.{StorageSlot}
use arb_revm.Storage.Slot.{
  i256_to_u256_twos_complement, u256_twos_complement_to_i256, get_i64, set_i64, get_i256,
  set_checked, set_saturating_with_warning,
}

-- A signed integer of 256 bits.
abbrev pub IsI256 : ℤ → Type 0
IsI256 v = (negsuc (2 ^ 255 - 1) ≤ℤ v) × (v ≤ℤ pos (2 ^ 255 - 1))

abbrev pub IsI64 : ℤ → Type 0
IsI64 v = (negsuc (2 ^ 63 - 1) ≤ℤ v) × (v ≤ℤ pos (2 ^ 63 - 1))

-- Encoding what a word decodes to gives the word back.
pub twos_complement_of_word :
    (w : ℕ) → w < 2 ^ 256 → i256_to_u256_twos_complement (u256_twos_complement_to_i256 w) ≡ w
unfolding i256_to_u256_twos_complement u256_twos_complement_to_i256
twos_complement_of_word w h = ground arith

module _ (J : ArbJournal) (L : Lawful J) (p : StorageSlot) (s : J.State) where
  open L use {value, seen, stored, read_lem, write_lem, value-stored}

  -- `set_checked` and `set_saturating_with_warning` both write, for any `I256`, a word from which
  -- `get` reads the same integer back: neither the range checks of the one nor the clamps of the
  -- other apply to an `I256`.
  pub get_i256-set :
      (v : ℤ)
      → IsI256 v
      → (((set_checked J p v >> get_i256 J p) s).0 ≡ ok v)
        × (((set_saturating_with_warning J p v >> get_i256 J p) s).0 ≡ ok v)
  unfolding get_i256 set_checked set_saturating_with_warning
  get_i256-set (pos n) h = (
    ground (
      arith,
      write_lem p.account p.slot n s,
      read_lem p.account p.slot (stored p.account p.slot n s),
      value-stored p.account p.slot n s p.account p.slot,
    ),
    ground (
      arith,
      write_lem p.account p.slot n s,
      read_lem p.account p.slot (stored p.account p.slot n s),
      value-stored p.account p.slot n s p.account p.slot,
    ),
  )
  get_i256-set (negsuc n) h = (
    ground (
      arith,
      write_lem p.account p.slot (2 ^ 256 - suc n) s,
      read_lem p.account p.slot (stored p.account p.slot (2 ^ 256 - suc n) s),
      value-stored p.account p.slot (2 ^ 256 - suc n) s p.account p.slot,
    ),
    ground (
      arith,
      write_lem p.account p.slot (2 ^ 256 - suc n) s,
      read_lem p.account p.slot (stored p.account p.slot (2 ^ 256 - suc n) s),
      value-stored p.account p.slot (2 ^ 256 - suc n) s p.account p.slot,
    ),
  )

  -- An `i64` that was set is read back.
  pub get_i64-set_i64 : (v : ℤ) → IsI64 v → ((set_i64 J p v >> get_i64 J p) s).0 ≡ ok v
  unfolding get_i64 set_i64
  get_i64-set_i64 (pos n) h =
      simp (write_lem, read_lem, value-stored, eq_self, ◌>>=◌, ◌&&◌) (ground arith)
  get_i64-set_i64 (negsuc n) h =
      simp (write_lem, read_lem, value-stored, eq_self, ◌>>=◌, ◌&&◌) (ground arith)
