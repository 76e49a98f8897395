-- ===== src/Base/Bytes.antt =====
-- Big-endian byte strings: `to_be_bytes`, `from_be_slice` and `u64::to_le_bytes`.
use Prim.Native.Nat.{ℕ, zero, suc, ◌+◌, ◌*◌, ◌/◌, ◌%◌, ◌^◌, ◌<◌}
use mathlib.Core.Path.{◌≡◌, refl}
use mathlib.Core.List.{List, [], ◌∷◌, ◌++◌}
use native.Mathlib.Omega.{arith}
use native.Mathlib.Nat.{pow-suc}
use arb_revm.Base.Lists.{length, length-append, replicate}

-- The number that `bs` spells after the digits of `acc`.
unfoldable pub from_be_acc : ℕ → List ℕ → ℕ
from_be_acc acc [] = acc
from_be_acc acc (b ∷ bs) = from_be_acc (acc * 256 + b) bs

unfoldable pub from_be : List ℕ → ℕ
unfolding from_be_acc
from_be bs = from_be_acc 0 bs

-- The low `n` bytes of `v`, the highest first.
unfoldable pub be_bytes : ℕ → ℕ → List ℕ
be_bytes zero v = []
be_bytes (suc n) v = be_bytes n (v / 256) ++ (v % 256 ∷ [])

pub le_bytes : ℕ → ℕ → List ℕ
le_bytes zero v = []
le_bytes (suc n) v = v % 256 ∷ le_bytes n (v / 256)

pub length-be_bytes : (n v : ℕ) → length (be_bytes n v) ≡ n
unfolding be_bytes
length-be_bytes zero v = refl
length-be_bytes (suc n) v =
    omega
      (arith, length-be_bytes n (v / 256), length-append {0} (be_bytes n (v / 256)) (v % 256 ∷ []))

from_be_acc-append :
    (acc : ℕ) (xs : List ℕ) (b : ℕ) → from_be_acc acc (xs ++ b ∷ []) ≡ from_be_acc acc xs * 256 + b
unfolding from_be_acc
from_be_acc-append acc [] b = refl
from_be_acc-append acc (x ∷ xs) b = from_be_acc-append (acc * 256 + x) xs b

pub from_be-append : (xs : List ℕ) (b : ℕ) → from_be (xs ++ b ∷ []) ≡ from_be xs * 256 + b
unfolding from_be
from_be-append xs b = from_be_acc-append 0 xs b

-- Zeros in front change nothing.
pub from_be-zeros : (n : ℕ) (bs : List ℕ) → from_be (replicate n 0 ++ bs) ≡ from_be bs
unfolding from_be from_be_acc
from_be-zeros zero bs = refl
from_be-zeros (suc n) bs = from_be-zeros n bs

-- Reading back what was written, for a value that fits.
pub from_be-be_bytes : (n v : ℕ) → v < 256 ^ n → from_be (be_bytes n v) ≡ v
unfolding be_bytes
from_be-be_bytes zero v h = unfold from_be from_be_acc in omega arith
from_be-be_bytes (suc n) v h =
    rw
      (
        from_be-append (be_bytes n (v / 256)) (v % 256),
        from_be-be_bytes n (v / 256) (omega (arith, pow-suc 256 n)),
      )
      (omega arith)
