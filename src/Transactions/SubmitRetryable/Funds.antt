-- ===== src/Transactions/SubmitRetryable/Funds.antt =====
-- Where a submission's deposit goes.
use arb_revm.Base.{
  arith, min, refl, saturating_add, saturating_mul, ℕ, ◌+◌, ◌-◌, ◌<◌, ◌^◌, ◌≡◌, ◌≤◌,
}
use arb_revm.Transactions.SubmitRetryable.{take_funds, split_deposit, split_gas, max_refund_of}
use arb_revm.Transactions.Calldata.{SubmitRetryableCall}

take_funds_lem :
    (available requested : ℕ)
    → ((take_funds available requested).0 ≡ min available requested)
      × ((take_funds available requested).0 + (take_funds available requested).1 ≡ available)
unfolding take_funds
take_funds_lem available requested = (refl, omega arith)

-- Sums that stay in the word do not saturate.
saturating_sum :
    (a b c total : ℕ)
    → a + b + c ≤ total
    → total < 2 ^ 256
    → saturating_add 256 (saturating_add 256 a b) c ≡ a + b + c
saturating_sum a b c total h k = omega arith

-- Every wei of a deposit is accounted for: it covers the ticket's value as far as it goes, the two
-- refunds, and the most that the redeem may pay back, and these add up to it, whatever the limits and
-- fees.
pub deposit_accounted :
    (call : SubmitRetryableCall) (submission_fee base_fee : ℕ)
    → call.deposit_value < 2 ^ 256
    → let deposit = split_deposit call submission_fee in
      let gas = split_gas call base_fee deposit.left in
      min call.deposit_value call.retry_value
        + deposit.submission_fee_refund
        + gas.gas_price_refund
        + max_refund_of deposit gas
      ≡ call.deposit_value
unfolding split_deposit split_gas max_refund_of
deposit_accounted call submission_fee base_fee h =
    let after_value : ℕ × ℕ = take_funds call.deposit_value call.retry_value in
    let withheld : ℕ × ℕ = take_funds after_value.1 submission_fee in
    let refund : ℕ × ℕ = take_funds withheld.1 (call.max_submission_fee - submission_fee) in
    let gas : ℕ × ℕ = take_funds refund.1 (saturating_mul 256 base_fee call.gas_limit) in
    let price : ℕ × ℕ =
      take_funds gas.1 (saturating_mul 256 (call.gas_fee_cap - base_fee) call.gas_limit) in
    let a = take_funds_lem call.deposit_value call.retry_value in
    let b = (take_funds_lem after_value.1 submission_fee).1 in
    let c = (take_funds_lem withheld.1 (call.max_submission_fee - submission_fee)).1 in
    let d = (take_funds_lem refund.1 (saturating_mul 256 base_fee call.gas_limit)).1 in
    let e =
      (take_funds_lem gas.1 (saturating_mul 256 (call.gas_fee_cap - base_fee) call.gas_limit)).1 in
    rw
      (saturating_sum price.1 gas.0 withheld.0 call.deposit_value (omega (arith, a.1, b, c, d, e))
        h)
      (omega (arith, a.0, a.1, b, c, d, e))
