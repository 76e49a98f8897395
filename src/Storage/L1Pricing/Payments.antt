-- ===== src/Storage/L1Pricing/Payments.antt =====
-- The payments of crates/arb-revm/src/storage/l1_pricing.rs from the L1 pricer's funds pool: the
-- rewards, and what a batch poster is owed.
use arb_revm.Base.{Bool, Option, if◌then◌else◌, leb, ltb, min, none, some, ℕ, ◌==◌}
use arb_revm.Base.Int.{ℤ}
use arb_revm.Storage.BatchPosterTable.{BatchPosterState, funds_due, set_funds_due, pay_to}
use arb_revm.Storage.L1Pricing.{L1Pricing}
use arb_revm.Storage.Slot.{get_u256, set_u256, get_address, set_saturating_with_warning, get_u64}
use arb_revm.Journal.{ArbJournal, M, TransferError, Error, pure, raise, ◌>>=◌, ◌>>◌}
use arb_revm.Storage.L1Pricing.Arithmetic.{
  add_i256_u256_saturating, sub_u256_floor_zero, mul_u256_by_bips_saturating,
  mul_u256_u64_saturating, u256_to_i256_saturating, i256_nonnegative_to_u256,
}

abbrev pub l1_pricer_funds_pool_address : ℕ
l1_pricer_funds_pool_address = 0xA4B00000000000000000000000000000000000F6

-- How a refused transfer is reported.
unfoldable pub transfer_result : {S : Type 0} → Option TransferError → M S (Unit {0})
transfer_result none = pure tt
transfer_result (some TransferError.out_of_funds) = raise Error.out_of_funds
transfer_result (some TransferError.overflow_payment) = raise Error.overflow_payment
transfer_result (some TransferError.create_collision) = raise Error.create_collision

module _ (J : ArbJournal) where
  open J use {State, account_balance, transfer}

  unfoldable pub pool_balance : M State ℕ
  pool_balance = account_balance l1_pricer_funds_pool_address

  unfoldable pub transfer_from_pool : ℕ → ℕ → M State (Unit {0})
  transfer_from_pool recipient amount =
      if amount == 0
      then pure tt
      else (transfer l1_pricer_funds_pool_address recipient amount >>= transfer_result)

  -- What may be paid out: the recorded fees from ArbOS 10 on, else the pool's balance.
  unfoldable pub available_funds : L1Pricing → Bool → M State ℕ
  available_funds p use_l1_fees_available =
      if use_l1_fees_available then get_u256 J p.l1_fees_available else pool_balance

  -- The funds left after a payment.
  unfoldable pub spend : L1Pricing → Bool → ℕ → ℕ → M State ℕ
  spend p use_l1_fees_available funds_available amount =
      let left = sub_u256_floor_zero funds_available amount in
      if use_l1_fees_available
      then (set_u256 J p.l1_fees_available left >> pure left)
      else pool_balance

  -- The rewards for the units, as far as the funds go; the rest stays due.
  unfoldable pub pay_rewards : L1Pricing → Bool → ℤ → ℕ → ℕ → M State ℕ
  pay_rewards p use_l1_fees_available funds_due_for_rewards target funds_available = do
    let due = add_i256_u256_saturating funds_due_for_rewards target
    set_saturating_with_warning J p.funds_due_for_rewards due
    let payment = min target funds_available
    set_saturating_with_warning J p.funds_due_for_rewards
        (u256_to_i256_saturating (sub_u256_floor_zero (i256_nonnegative_to_u256 due) payment))
    if payment == 0
        then pure tt
        else (get_address J p.pay_rewards_to >>= λ recipient. transfer_from_pool recipient payment)
    spend p use_l1_fees_available funds_available payment

  -- What the poster is owed, as far as the funds go.
  unfoldable pub pay_poster : L1Pricing → BatchPosterState → Bool → ℕ → M State (Unit {0})
  pay_poster p poster use_l1_fees_available funds_available = do
    due ← funds_due J poster
    let amount = min due funds_available
    if amount == 0 then pure tt else (do
      recipient ← pay_to J poster
      transfer_from_pool recipient amount
      set_funds_due J poster (sub_u256_floor_zero due amount)
      if use_l1_fees_available
          then set_u256 J p.l1_fees_available (sub_u256_floor_zero funds_available amount)
          else pure tt)

  -- From ArbOS 3 on the cost that is assigned to a batch is capped.
  unfoldable pub cap_wei_spent : L1Pricing → ℕ → ℕ → ℕ → ℕ → M State ℕ
  cap_wei_spent p arbos_version l1_base_fee units_allocated wei_spent =
      if leb 3 arbos_version
      then (do
        cap_bips ← get_u64 J p.amortized_cost_cap_bips
        let cap =
            mul_u256_by_bips_saturating (mul_u256_u64_saturating l1_base_fee units_allocated)
              cap_bips
        pure (if cap_bips == 0 then wei_spent else if ltb cap wei_spent then cap else wei_spent))
      else pure wei_spent
