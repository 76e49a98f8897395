-- ===== src/Transactions/Deposit.antt =====
-- crates/arb-revm/src/deposit_tx.rs: a deposit mints its value and moves it to the recipient, or to
-- the filtered funds' recipient.
pub mod Balances
use arb_revm.Base.{
  Bool, Bool-cases, List, Option, Option-cases, [], ap, append-nil, append_assoc, ap₂, arith,
  bit_and, bit_or, bit_xor, checked_add, checked_mul, checked_sub, dec_le, dec_lt, drop, eq_self,
  eq_true→eq, false, fun_ext, if◌then◌else◌, inl, inr, leb, length, length-append, le→leb, le→ltb,
  ltb, ltb→lt, lt→ltb, map_option, min, ne→eq_false, none, not, refl, replicate, saturating_add,
  saturating_mul, some, subst, suc, sym, take, true, u256_max, u64_max, unwrap_or, zero, ℕ,
  ℕ_discrete, ◌%◌, ◌&&◌, ◌*◌, ◌++◌, ◌+◌, ◌-◌, ◌/◌, ◌<◌, ◌==◌, ◌^◌, ◌||◌, ◌↔◌, ◌∎, ◌∙◌, ◌∷◌, ◌≡◌,
  ◌≡⟨◌⟩◌, ◌≢◌, ◌≤◌, ◌⊎◌,
}
use arb_revm.Journal.{ArbJournal, M, pure, raise, unsupported, ◌>>=◌, ◌>>◌}
use arb_revm.Storage.L1Pricing.Payments.{transfer_result}
use arb_revm.Transactions.Filter.{is_tx_hash_filtered, filtered_funds_recipient_or_default}
use arb_revm.Transactions.{Platform, ArbTransaction, known_hash}

pub data DepositOutcome : Type 0 where
  applied filtered : DepositOutcome

module _ (J : ArbJournal) where
  open J use {State, transfer}

  -- The recipient after the filter, and whether it was redirected. Without a hash nothing is.
  unfoldable pub deposit_recipient : Option ℕ → ℕ → M State (ℕ × Bool)
  deposit_recipient none to = pure (to, false)
  deposit_recipient (some tx_hash) to = do
    is_filtered ← is_tx_hash_filtered J tx_hash none
    if is_filtered
        then (filtered_funds_recipient_or_default J >>= λ recipient. pure (recipient, true))
        else pure (to, false)

  unfoldable pub deposit_to : Platform J → ArbTransaction → ℕ → M State DepositOutcome
  deposit_to P tx target = do
    redirected ← deposit_recipient (known_hash J tx) target
    P.balance_incr tx.caller tx.value
    refusal ← transfer tx.caller redirected.0 tx.value
    transfer_result refusal
    pure (if redirected.1 then DepositOutcome.filtered else DepositOutcome.applied)

  unfoldable pub apply_deposit_tx : Platform J → ArbTransaction → M State DepositOutcome
  apply_deposit_tx P tx = elim tx.to [
    | none ↦ raise unsupported
    | some target ↦ deposit_to P tx target
  ]
