-- ===== src/Base/Words.antt =====
-- The arithmetic of Rust's unsigned integers of `w` bits: a value is a number below `2 ^ w`.
-- Plain `-` on numbers stops at 0, which is `saturating_sub`.
use Prim.Native.Nat.{ℕ, ◌+◌, ◌-◌, ◌*◌, ◌^◌, min}
use mathlib.Core.Option.{Option, none, some}
use arb_revm.Base.Tests.{ltb, leb, if◌then◌else◌}

-- `u64::MAX`, `U256::MAX`.
abbrev pub u64_max : ℕ
u64_max = 2 ^ 64 - 1

abbrev pub u256_max : ℕ
u256_max = 2 ^ 256 - 1

abbrev pub saturating_add : ℕ → ℕ → ℕ → ℕ
saturating_add w a b = min (a + b) (2 ^ w - 1)

abbrev pub saturating_mul : ℕ → ℕ → ℕ → ℕ
saturating_mul w a b = min (a * b) (2 ^ w - 1)

abbrev pub checked_add : ℕ → ℕ → ℕ → Option ℕ
checked_add w a b = if ltb (a + b) (2 ^ w) then some (a + b) else none

abbrev pub checked_sub : ℕ → ℕ → Option ℕ
checked_sub a b = if leb b a then some (a - b) else none

abbrev pub checked_mul : ℕ → ℕ → ℕ → Option ℕ
checked_mul w a b = if ltb (a * b) (2 ^ w) then some (a * b) else none

-- `Option::unwrap_or`.
abbrev pub unwrap_or {ℓ} : {A : Type ℓ} → Option A → A → A
unwrap_or none d = d
unwrap_or (some a) d = a

-- `Option::map`.
abbrev pub map_option {ℓ m} : {A : Type ℓ} → {B : Type m} → (A → B) → Option A → Option B
map_option f none = none
map_option f (some a) = some (f a)
