-- ===== src/L1Cost/Charge.antt =====
-- What the posting of a transaction costs it.
use arb_revm.Base.{
  Bool-cases, List, Option, arith, if◌then◌else◌, inl, inr, length, min, not, saturating_mul, suc,
  u64_max, unwrap_or, zero, ℕ, ◌*◌, ◌+◌, ◌/◌, ◌<◌, ◌==◌, ◌||◌, ◌≡◌, ◌≤◌,
}
use arb_revm.L1Cost.{PosterInfo, compute_poster_info, poster_charge, batch_poster_address}
use native.Mathlib.Nat.{lt-div-mul-add, mul_comm, mul-div-le, mul-le-mul_left}

-- The fee is the poster gas at the gas price, at most the cost; unless the gas is cut at a `u64`,
-- what the fee falls short is less than the gas price.
abbrev IsRounded : ℕ → PosterInfo → Type 0
IsRounded gas_price info =
    (info.poster_fee ≡ gas_price * info.poster_gas)
    × (info.poster_fee ≤ info.poster_cost)
    × (0 < gas_price → info.poster_gas < u64_max → info.poster_cost < info.poster_fee + gas_price)

abbrev gas_of : ℕ → ℕ → ℕ
gas_of cost gas_price = if gas_price == 0 then 0 else min (cost / gas_price) u64_max

gas_of-le : (cost gas_price : ℕ) → gas_price * gas_of cost gas_price ≤ cost
gas_of-le cost zero = ground arith
gas_of-le cost (suc n) =
    ground (arith, mul-le-mul_left (suc n) (below (cost / suc n)), mul-div-le cost (suc n))
  where
    below : (q : ℕ) → min q u64_max ≤ q
    below q = ground arith

gas_of-lt :
    (cost gas_price : ℕ)
    → 0 < gas_price
    → gas_of cost gas_price < u64_max
    → cost < gas_price * gas_of cost gas_price + gas_price
gas_of-lt cost gas_price h small = rw exact (
    ground
      (arith, lt-div-mul-add {a = cost} {b = gas_price} h, mul_comm (cost / gas_price) gas_price))
  where
    exact : gas_of cost gas_price ≡ cost / gas_price
    exact = ground arith

poster_charge-rounds :
    (price gas_price units : ℕ) → IsRounded gas_price (poster_charge price gas_price units)
unfolding poster_charge
poster_charge-rounds price gas_price units =
    let cost : ℕ = saturating_mul 256 price units in
    let low = gas_of-le cost gas_price in
    (omega arith, omega arith, λ h small. omega (arith, gas_of-lt cost gas_price h small))

-- However well the bytes compress, the fee of their posting is the poster gas at the gas price, and
-- at most the poster cost.
pub compute_poster_info-poster_fee :
    (compressed_len : List ℕ → ℕ → Option ℕ) (tx_bytes : List ℕ)
    (coinbase price gas_price level : ℕ)
    → let info = compute_poster_info compressed_len tx_bytes coinbase price gas_price level in
      (info.poster_fee ≡ gas_price * info.poster_gas) × (info.poster_fee ≤ info.poster_cost)
unfolding compute_poster_info
compute_poster_info-poster_fee compressed_len tx_bytes coinbase price gas_price level =
    elim (Bool-cases (not (coinbase == batch_poster_address) || (length tx_bytes == 0))) [
      | inl free ↦ rw free (ground arith, omega arith)
      | inr paid ↦ rw paid (charge.0, charge.1)
    ]
  where
    charge : IsRounded gas_price (
        poster_charge price gas_price
          (saturating_mul 64 16 (unwrap_or (compressed_len tx_bytes level) (length tx_bytes))))
    charge = poster_charge-rounds price gas_price _

-- At a gas price that is not 0, and with a poster gas that is not cut at a `u64`, the fee falls
-- short of the cost by less than the gas price.
pub compute_poster_info-poster_cost :
    (compressed_len : List ℕ → ℕ → Option ℕ) (tx_bytes : List ℕ)
    (coinbase price gas_price level : ℕ)
    → 0 < gas_price
    → (compute_poster_info compressed_len tx_bytes coinbase price gas_price level).poster_gas
      < u64_max
    → let info = compute_poster_info compressed_len tx_bytes coinbase price gas_price level in
      info.poster_cost < info.poster_fee + gas_price
unfolding compute_poster_info
compute_poster_info-poster_cost compressed_len tx_bytes coinbase price gas_price level h =
    elim (Bool-cases (not (coinbase == batch_poster_address) || (length tx_bytes == 0))) [
      | inl free ↦ rw free (λ small. omega arith)
      | inr paid ↦ rw paid (charge.2 h)
    ]
  where
    charge : IsRounded gas_price (
        poster_charge price gas_price
          (saturating_mul 64 16 (unwrap_or (compressed_len tx_bytes level) (length tx_bytes))))
    charge = poster_charge-rounds price gas_price _
