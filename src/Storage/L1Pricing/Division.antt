-- ===== src/Storage/L1Pricing/Division.antt =====
-- Go's division from Rust's.
use arb_revm.Base.{
  arith, dec_lt, false, some, suc, true, zero, ℕ, ◌*◌, ◌+◌, ◌-◌, ◌/◌, ◌<◌, ◌^◌, ◌≡◌, ◌≤◌,
}
use arb_revm.Base.Int.{ℤ, pos, negsuc, checked, in_range, ◌*ℤ◌, sub_ℕ, ◌-ℤ◌, leb_ℤ, ltb_ℤ}
use arb_revm.Storage.L1Pricing.Arithmetic.{div_i256_like_go_bigint}
use native.Mathlib.Nat.{
  div-mul-le_self, div-le_self, le_of_mul-le-mul_right, lt_of_mul-lt-mul_right, add-mul,
  le-div_iff_mul-le, lt-div-mul-add,
}

-- The floor of a signed word by a positive one, from division on numbers.
abbrev pub floor_div : ℤ → ℕ → ℤ
floor_div (pos a) d = pos (a / d)
floor_div (negsuc a) d = negsuc (a / d)

-- A number that is at most half of the range is in range with either sign.
checked_pos : (n : ℕ) → n < 2 ^ 255 → checked 255 (pos n) ≡ some (pos n)
checked_pos n h = ground arith

checked_neg : (n : ℕ) → n ≤ 2 ^ 255 → checked 255 (sub_ℕ 0 n) ≡ some (sub_ℕ 0 n)
checked_neg n h = ground arith

times_pos : (q d : ℕ) → pos q *ℤ pos d ≡ pos (q * d)
unfolding ◌*ℤ◌
times_pos q d = ground arith

times_neg : (q d : ℕ) → sub_ℕ 0 q *ℤ pos d ≡ sub_ℕ 0 (q * d)
unfolding ◌*ℤ◌
times_neg zero d = ground arith
times_neg (suc q) d = ground arith

minus_pos : (a b : ℕ) → pos a -ℤ pos b ≡ sub_ℕ a b
unfolding ◌-ℤ◌
minus_pos a b = ground arith

small_quotient : (a d : ℕ) → a / d ≤ a
small_quotient a d = div-le_self a d

minus_neg : (a m : ℕ) → m ≤ suc a → negsuc a -ℤ sub_ℕ 0 m ≡ sub_ℕ 0 (suc a - m)
unfolding ◌-ℤ◌
minus_neg a m h = ground arith

less_one : (q : ℕ) → sub_ℕ 0 q -ℤ pos 1 ≡ negsuc q
unfolding ◌-ℤ◌
less_one q = ground arith

-- A positive divisor: a dividend from 0 on is divided as a number.
div_pos : (a d : ℕ) → a < 2 ^ 255 → 0 < d → div_i256_like_go_bigint (pos a) (pos d) ≡ pos (a / d)
unfolding div_i256_like_go_bigint
div_pos a d ha h = simp (
  checked_pos (a / d) (omega (arith, small_quotient a d)),
  times_pos,
  checked_pos (a / d * d) (omega (arith, div-mul-le_self a d)),
  minus_pos,
  rest,
  checked_pos (a - a / d * d) (omega arith),
  positive,
  nonnegative,
)
  where
    positive : leb_ℤ (pos d) (pos 0) ≡ false
    positive = ground arith

    rest : sub_ℕ a (a / d * d) ≡ pos (a - a / d * d)
    rest = ground (arith, div-mul-le_self a d)

    nonnegative : ltb_ℤ (pos (a - a / d * d)) (pos 0) ≡ false
    nonnegative = ground arith

-- The quotient of the next number: it steps where the divisor divides.
quotient_stays : (a d : ℕ) → 0 < d → suc a / d * d < suc a → suc a / d ≡ a / d
quotient_stays a d h short = omega (
  arith,
  (le-div_iff_mul-le {k = d} {x = suc a / d} {y = a} h).1 (omega arith),
  (le-div_iff_mul-le {k = d} {x = a / d} {y = suc a} h).1 (omega (arith, div-mul-le_self a d)),
)

quotient_steps : (a d : ℕ) → 0 < d → suc a / d * d ≡ suc a → suc a / d ≡ suc (a / d)
quotient_steps a d h exact = omega (
  arith,
  le_of_mul-le-mul_right {m = suc a / d} {n = a / d + 1} {k = d}
      (omega (arith, add-mul (a / d) 1 d, lt-div-mul-add {a = a} {b = d} h)) h,
  lt_of_mul-lt-mul_right d {m = a / d} {n = suc a / d} (omega (arith, div-mul-le_self a d)),
)

-- One below 0 is rounded down.
div_neg :
    (a d : ℕ)
    → suc a ≤ 2 ^ 255
    → 0 < d
    → div_i256_like_go_bigint (negsuc a) (pos d) ≡ negsuc (a / d)
unfolding div_i256_like_go_bigint
div_neg a d ha h =
    simp
      (
        checked_neg (suc a / d) (omega (arith, small_quotient (suc a) d)),
        times_neg,
        checked_neg (suc a / d * d) (omega (arith, div-mul-le_self (suc a) d)),
        minus_neg a (suc a / d * d) (div-mul-le_self (suc a) d),
        checked_neg (suc a - suc a / d * d) (omega arith),
        positive,
        less_one,
      )
      (elim (dec_lt (suc a / d * d) (suc a)) [
        | yes short ↦ ground (arith, quotient_stays a d h short, small_quotient a d)
        | no long ↦ ground (arith, quotient_steps a d h (omega (arith, div-mul-le_self (suc a) d)))
      ])
  where
    positive : leb_ℤ (pos d) (pos 0) ≡ false
    positive = ground arith

-- For every signed word and every positive divisor, the division that rounds towards zero and is
-- then corrected by its remainder is the floor of the quotient, as Go's `big.Int.Div` has it.
pub div_i256_like_go_bigint_lem :
    (n : ℤ) (d : ℕ)
    → in_range 255 n ≡ true
    → 0 < d
    → div_i256_like_go_bigint n (pos d) ≡ floor_div n d
div_i256_like_go_bigint_lem (pos a) d inside h = div_pos a d (ground arith) h
div_i256_like_go_bigint_lem (negsuc a) d inside h = div_neg a d (ground arith) h
