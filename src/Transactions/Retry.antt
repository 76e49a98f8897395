-- ===== src/Transactions/Retry.antt =====
-- crates/arb-revm/src/retry_tx.rs: what happens before and after a ticket's redeem runs.
pub mod Failure
use arb_revm.Base.{
  Bool, Bool-cases, List, Option, Option-cases, [], ap, append-nil, append_assoc, ap₂, arith,
  bit_and, bit_or, bit_xor, checked_add, checked_mul, checked_sub, dec_le, dec_lt, drop, eq_self,
  eq_true→eq, false, fun_ext, if◌then◌else◌, inl, inr, leb, length, length-append, le→leb, le→ltb,
  ltb, ltb→lt, lt→ltb, map_option, min, ne→eq_false, none, not, refl, replicate, saturating_add,
  saturating_mul, some, subst, suc, sym, take, true, u256_max, u64_max, unwrap_or, zero, ℕ,
  ℕ_discrete, ◌%◌, ◌&&◌, ◌*◌, ◌++◌, ◌+◌, ◌-◌, ◌/◌, ◌<◌, ◌==◌, ◌^◌, ◌||◌, ◌↔◌, ◌∎, ◌∙◌, ◌∷◌, ◌≡◌,
  ◌≡⟨◌⟩◌, ◌≢◌, ◌≤◌, ◌⊎◌,
}
use arb_revm.Journal.{
  ArbJournal, M, pure, raise, missing_field, not_found, nonce_overflow, ◌>>=◌, ◌>>◌, or_raise,
}
use arb_revm.Storage.Slot.{get_u256}
use arb_revm.Storage.ArbosState.{ArbosState, open_arbos}
use arb_revm.Storage.Retryables.{retryable, exists, delete_retryable, retryable_escrow_address}
use arb_revm.Transactions.{Platform, ArbTransaction, Block, timestamp_u64}
use arb_revm.Transactions.SubmitRetryable.{pay_if_any}

abbrev pub contains : List ℕ → ℕ → Bool
contains [] x = false
contains (y ∷ ys) x = (y == x) || contains ys x

module _ (J : ArbJournal) (P : Platform J) where
  open J use {State}

  -- A call bumps the sender's nonce here; a creation's frame does it.
  unfoldable pub bump_sender : ℕ → Option ℕ → M State (Unit {0})
  bump_sender from none = pure tt
  bump_sender from (some to) = do
    bumped ← P.bump_nonce from
    if bumped then pure tt else raise nonce_overflow

  unfoldable pub redeem_ticket : ArbosState → ArbTransaction → Block → ℕ → M State (Unit {0})
  redeem_ticket a tx block ticket_id = do
    current_timestamp ← timestamp_u64 block
    let t = retryable J a.retryables ticket_id
    there ← exists J t current_timestamp
    if there
        then (do
          callvalue ← get_u256 J t.callvalue
          pay_if_any J (retryable_escrow_address J ticket_id) tx.caller callvalue
          bump_sender tx.caller tx.to)
        else raise not_found

  unfoldable pub apply_retry_tx_pre_execution : ArbTransaction → Block → M State (Unit {0})
  apply_retry_tx_pre_execution tx block = do
    ticket_id ← or_raise tx.retry_ticket missing_field
    redeem_ticket (open_arbos J) tx block ticket_id

  -- After success the ticket goes, and an escrow that this block destructed comes back empty; after
  -- failure the value goes back.
  unfoldable pub finish_ticket :
      ArbosState → ArbTransaction → List ℕ → Bool → ℕ → M State (Unit {0})
  finish_ticket a tx pending_zombie_escrow_tickets success ticket_id = do
    callvalue ← get_u256 J (retryable J a.retryables ticket_id).callvalue
    if success
        then (do
          delete_retryable J a.retryables ticket_id
          if contains pending_zombie_escrow_tickets ticket_id
              then P.materialize (retryable_escrow_address J ticket_id)
              else pure tt)
        else pay_if_any J tx.caller (retryable_escrow_address J ticket_id) callvalue

  unfoldable pub apply_retry_tx_post_execution : ArbTransaction → List ℕ → Bool → M State (Unit {0})
  apply_retry_tx_post_execution tx pending_zombie_escrow_tickets success = do
    ticket_id ← or_raise tx.retry_ticket missing_field
    finish_ticket (open_arbos J) tx pending_zombie_escrow_tickets success ticket_id
