-- ===== src/Transactions/Submission.antt =====
-- The course of a submission in crates/arb-revm/src/submit_retryable_tx.rs: from its calldata to the
-- redeem that it schedules.
pub mod Outcomes
use arb_revm.Base.{
  Bool, Bool-cases, List, Option, Option-cases, [], ap, append-nil, append_assoc, ap₂, arith,
  bit_and, bit_or, bit_xor, checked_add, checked_mul, checked_sub, dec_le, dec_lt, drop, eq_self,
  eq_true→eq, false, fun_ext, if◌then◌else◌, inl, inr, leb, length, length-append, le→leb, le→ltb,
  ltb, ltb→lt, lt→ltb, map_option, min, ne→eq_false, none, not, refl, replicate, saturating_add,
  saturating_mul, some, subst, suc, sym, take, true, u256_max, u64_max, unwrap_or, zero, ℕ,
  ℕ_discrete, ◌%◌, ◌&&◌, ◌*◌, ◌++◌, ◌+◌, ◌-◌, ◌/◌, ◌<◌, ◌==◌, ◌^◌, ◌||◌, ◌↔◌, ◌∎, ◌∙◌, ◌∷◌, ◌≡◌,
  ◌≡⟨◌⟩◌, ◌≢◌, ◌≤◌, ◌⊎◌,
}
use arb_revm.Journal.{ArbJournal, M, pure, raise, ok, err, missing_field, ◌>>=◌, ◌>>◌, or_raise}
use arb_revm.Storage.Slot.{get_address, set_u64}
use arb_revm.Transactions.{ArbTransaction, Block, TxRetry, Platform, known_hash, timestamp_u64}
use arb_revm.Transactions.Calldata.{SubmitRetryableCall, decode_submit_retryable_calldata}
use arb_revm.Transactions.SubmitRetryable.{
  compute_submit_retryable_ticket_id, SubmitRetryableOutcome, retryable_submission_fee,
  split_deposit, pay, split_gas, tx_gas, retry_of, pay_if_any, max_refund_of, take_funds,
  fund_escrow, write_ticket, pay_infra_fee, tracks_zombie, redeem_scheduled_log,
}
use arb_revm.Storage.ArbosState.{ArbosState, open_arbos}
use arb_revm.Transactions.Filter.{filtered_funds_recipient_or_default, is_tx_hash_filtered}
use arb_revm.Storage.Retryables.{retryable_lifetime_seconds, retryable}
use arb_revm.Storage.Space.{arbos_state_address}

-- The journal, and the tickets of this block whose escrow may come back
-- (`ctx.chain().pending_zombie_escrow_tickets`).
abbrev pub Session : ArbJournal → Type 0
Session J = J.State × List ℕ

unfoldable pub on_journal : (J : ArbJournal) {A : Type 0} → M J.State A → M (Session J) A
on_journal J m (s, zombies) = let (r, s') = m s in (r, (s', zombies))

unfoldable pub push_zombie : (J : ArbJournal) → ℕ → M (Session J) (Unit {0})
push_zombie J ticket_id (s, zombies) = (ok tt, (s, zombies ++ ticket_id ∷ []))

module _ (J : ArbJournal) (P : Platform J) where
  open J use {State, account_balance, emit_log}

  -- After the ticket is written: its gas is refunded, or charged and the redeem scheduled. The flag
  -- asks to track the escrow.
  unfoldable pub settle_gas :
      ArbosState
      → ℕ
      → ℕ
      → ℕ
      → Bool
      → SubmitRetryableCall
      → ℕ
      → ℕ
      → ℕ
      → M State (SubmitRetryableOutcome × Bool)
  settle_gas a chain_id from ticket_id is_filtered call base_fee network_fee_account
        submission_fee =
      do
        let deposit = split_deposit call submission_fee
        balance ← account_balance from
        let max_gas_cost = saturating_mul 256 call.gas_fee_cap call.gas_limit
        if ltb balance max_gas_cost || ltb call.gas_limit tx_gas || ltb call.gas_fee_cap base_fee
            then (do
              pay_if_any J from call.fee_refund_address (take_funds deposit.left max_gas_cost).0
              pure (
                if is_filtered
                    then SubmitRetryableOutcome.failed 0
                    else SubmitRetryableOutcome.created 0,
                false,
              ))
            else (do
              let gascost = saturating_mul 256 base_fee call.gas_limit
              network_cost ← pay_infra_fee J a call from base_fee gascost
              pay_if_any J from network_fee_account network_cost
              let gas = split_gas call base_fee deposit.left
              pay_if_any J from call.fee_refund_address gas.gas_price_refund
              if is_filtered
                  then pure (SubmitRetryableOutcome.failed call.gas_limit, false)
                  else (do
                    let max_refund = max_refund_of deposit gas
                    set_u64 J (retryable J a.retryables ticket_id).num_tries 1
                    track ← tracks_zombie J a call
                    let retry_hash =
                        P.retry_tx_hash (
                          retry_of J chain_id from ticket_id call base_fee max_refund
                            submission_fee)
                    emit_log (
                        redeem_scheduled_log J P ticket_id retry_hash call.gas_limit
                          call.fee_refund_address max_refund submission_fee)
                    pure (SubmitRetryableOutcome.created call.gas_limit, track)))

  -- From the submission fee on, with a balance that covers it.
  unfoldable pub pay_and_record :
      ArbosState
      → ℕ
      → ℕ
      → ℕ
      → Bool
      → SubmitRetryableCall
      → ℕ
      → ℕ
      → ℕ
      → ℕ
      → M State (SubmitRetryableOutcome × Bool)
  pay_and_record a chain_id from ticket_id is_filtered call base_fee network_fee_account
        submission_fee timeout =
      do
        let deposit = split_deposit call submission_fee
        pay J from network_fee_account submission_fee
        pay_if_any J from call.fee_refund_address deposit.submission_fee_refund
        funded ←
            fund_escrow J from call network_fee_account ticket_id submission_fee
              deposit.withheld_submission_fee
        if funded
            then (do
              write_ticket J a ticket_id from call timeout
              settle_gas a chain_id from ticket_id is_filtered call base_fee network_fee_account
                  submission_fee)
            else pure (SubmitRetryableOutcome.failed 0, false)

  -- The submission whose calldata is decoded, whose ticket is known and whose addresses are redirected.
  unfoldable pub submit_call :
      ArbosState
      → ℕ
      → ℕ
      → ℕ
      → Bool
      → SubmitRetryableCall
      → Block
      → M State (SubmitRetryableOutcome × Bool)
  submit_call a chain_id from ticket_id is_filtered call block =
      let submission_fee = retryable_submission_fee (length call.retry_data) call.l1_base_fee in
      if ltb call.max_submission_fee submission_fee
      then pure (SubmitRetryableOutcome.failed 0, false)
      else (do
        current_timestamp ← timestamp_u64 block
        let timeout = saturating_add 64 current_timestamp retryable_lifetime_seconds
        P.load_account arbos_state_address
        P.balance_incr from call.deposit_value
        network_fee_account ← get_address J a.network_fee_account
        balance_after_mint ← account_balance from
        if ltb balance_after_mint call.max_submission_fee
            then pure (SubmitRetryableOutcome.failed 0, false)
            else pay_and_record a chain_id from ticket_id is_filtered call block.basefee
                network_fee_account submission_fee timeout)

  abbrev pub redirected : SubmitRetryableCall → ℕ → SubmitRetryableCall
  redirected call recipient = record call {
    fee_refund_address = recipient;
    beneficiary = recipient;
  }

  -- The filter redirects both addresses before anything is paid.
  unfoldable pub submit_filtered :
      ArbosState
      → ℕ
      → ℕ
      → ℕ
      → SubmitRetryableCall
      → Block
      → Bool
      → M State (SubmitRetryableOutcome × Bool)
  submit_filtered a chain_id from ticket_id call block is_filtered =
      if is_filtered
      then (do
        recipient ← filtered_funds_recipient_or_default J
        submit_call a chain_id from ticket_id true (redirected call recipient) block)
      else submit_call a chain_id from ticket_id false call block

  unfoldable pub ticket_of : ArbTransaction → ℕ → SubmitRetryableCall → ℕ
  ticket_of tx chain_id call =
      unwrap_or (known_hash J tx) (compute_submit_retryable_ticket_id J P chain_id tx.caller call)

  unfoldable pub submit_checked :
      ArbTransaction → Block → SubmitRetryableCall → ℕ → M (Session J) SubmitRetryableOutcome
  submit_checked tx block call chain_id = do
    let ticket_id = ticket_of tx chain_id call
    is_filtered ← on_journal J (is_tx_hash_filtered J ticket_id none)
    result ←
        on_journal J
          (submit_filtered (open_arbos J) chain_id tx.caller ticket_id call block is_filtered)
    if result.1 then push_zombie J ticket_id else pure tt
    pure result.0

  unfoldable pub apply_submit_retryable_tx :
      ArbTransaction → Block → M (Session J) SubmitRetryableOutcome
  apply_submit_retryable_tx tx block = do
    call ← decode_submit_retryable_calldata tx.input
    chain_id ← or_raise tx.chain_id missing_field
    submit_checked tx block call chain_id

  -- The redeem as the block builder schedules it, from the submission's own envelope.
  unfoldable pub build_scheduled_retry_from_submit :
      {S : Type 0} → List ℕ → Option ℕ → ℕ → ℕ → ℕ → M S TxRetry
  build_scheduled_retry_from_submit input chain_id from tx_hash base_fee = do
    call ← decode_submit_retryable_calldata input
    let submission_fee = retryable_submission_fee (length call.retry_data) call.l1_base_fee
    let deposit = split_deposit call submission_fee
    let gas = split_gas call base_fee deposit.left
    chain ← or_raise chain_id missing_field
    pure (retry_of J chain from tx_hash call base_fee (max_refund_of deposit gas) submission_fee)
