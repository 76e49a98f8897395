-- ===== src/Tests/TransactionRuns.antt =====
-- The theorems on the transactions of ArbOS, applied.
use arb_revm.Base.{
  lt→ltb, ltb, u64_max, ◌<◌, ◌&&◌, [], arith, false, if◌then◌else◌, min, none, refl, some, true,
  unwrap_or, ℕ, ◌++◌, ◌+◌, ◌==◌, ◌∷◌, ◌≡◌, ◌≢◌,
}
use arb_revm.Base.Bytes.{be_bytes, from_be, from_be_acc}
use arb_revm.Storage.Queue.{put, ensure_initialized, get_entry, set_entry}
use arb_revm.Journal.{ok, ◌>>◌}
use arb_revm.Journal.Memory.{Memory, memory_transfer}
use arb_revm.Tests.Toy.{toy, toy-Lawful}
use arb_revm.Transactions.{
  ArbTransaction, Block, Platform, LawfulPlatform, known_hash, timestamp_u64,
}
use arb_revm.Transactions.SubmitRetryable.{
  split_deposit, SubmitRetryableOutcome, split_gas, max_refund_of, retryable_submission_fee,
  take_funds, pay, pay_if_any, fund_escrow, write_ticket, ticket_created_log,
}
use arb_revm.Transactions.Retry.{redeem_ticket, finish_ticket}
use arb_revm.Transactions.Calldata.{
  SubmitRetryableCall, decode_submit_retryable_calldata, encode_submit_retryable_calldata,
}
use arb_revm.Transactions.Submission.Outcomes.{Reports, submit_filtered-Reports}
use arb_revm.Storage.ArbosState.{ArbosState, open_arbos}
use arb_revm.Transactions.Deposit.{deposit_to, DepositOutcome}
use arb_revm.Transactions.Calldata.RoundTrip.{decode-encode_submit_retryable_calldata}
use arb_revm.Transactions.Retry.Failure.{failed_redeem_restores}
use arb_revm.Transactions.Deposit.Balances.{deposit_to_lem}
use arb_revm.Transactions.SubmitRetryable.Funds.{deposit_accounted}
use arb_revm.Storage.Retryables.{
  retryable_escrow_address, retryable, set_to, ensure_timeout_queue_initialized,
}
use arb_revm.Transactions.Submission.{submit_filtered, submit_call, pay_and_record, settle_gas}
use arb_revm.Storage.L1Pricing.Payments.{transfer_result}
use arb_revm.Storage.Queue.{ensure_initialized}
use arb_revm.Storage.Slot.{get_address, get_uint, set_u64, set_address, set_u256, get_u256}
use arb_revm.Storage.Bytes.{set_fresh, write_chunks, chunks}
use arb_revm.Storage.L2Pricing.{open_l2_pricing}
use arb_revm.Storage.Space.{slot_for_hash, open_subspace, open_subspace_with_key}

abbrev credit : ℕ → ℕ → Memory → Memory
credit a n s = record s { funds = λ b. if a == b then s.funds b + n else s.funds b }

-- The next nonce, which is not after the last `u64`.
abbrev bump : ℕ → Memory → Memory
bump a s = record s {
  nonces = λ b. if (a == b) && ltb (s.nonces a) u64_max then s.nonces b + 1 else s.nonces b;
}

abbrev pub platform : Platform toy
platform = record {
  balance_incr = λ a n s. (ok tt, credit a n s);
  load_account = λ a s. (ok tt, s);
  bump_nonce = λ a s. (ok (ltb (s.nonces a) u64_max), bump a s);
  materialize = λ a s. (ok tt, s);
  set_nonce = λ a n s. (ok tt, s);
  set_code = λ a c s. (ok tt, s);
  block_hash = λ n s. (ok n, s);
  retry_tx_hash = λ t. t.ticket_id;
  rlp_uint = be_bytes 32;
  rlp_hash = be_bytes 32;
  rlp_address = be_bytes 20;
  rlp_kind = λ to. be_bytes 20 (unwrap_or to 0);
  rlp_bytes = λ b. b;
  rlp_list_header = be_bytes 8;
  abi_encode = λ a b c d. be_bytes 32 a ++ be_bytes 32 b;
}

bump_nonce_lem :
    (a : ℕ) (s : Memory) → s.nonces a < u64_max → platform.bump_nonce a s ≡ (ok true, bump a s)
bump_nonce_lem a s h = rw (lt→ltb (s.nonces a) u64_max h) refl

nonces_bumped :
    (a : ℕ) (s : Memory) (b : ℕ)
    → s.nonces a < u64_max
    → (bump a s).nonces b ≡ (if a == b then s.nonces b + 1 else s.nonces b)
nonces_bumped a s b h = rw (lt→ltb (s.nonces a) u64_max h) (ground arith)

bump_nonce_last :
    (a : ℕ) (s : Memory) → s.nonces a ≡ u64_max → (platform.bump_nonce a s).0 ≡ ok false
bump_nonce_last a s e = rw e refl

abbrev platform-Lawful : LawfulPlatform toy toy-Lawful platform
platform-Lawful = record {
  minted = credit;
  loaded = λ a s. s;
  bumped = bump;
  balance_incr_lem = λ a n s h. refl;
  load_lem = λ a s. refl;
  nonce = λ s. s.nonces;
  bump_lem = bump_nonce_lem;
  bump_last = bump_nonce_last;
  nonce-bumped = nonces_bumped;
  nonce-seen = λ a k s b. refl;
  nonce-moved = λ a c n s b. refl;
  balance-minted = λ a n s b. refl;
  balance-loaded = λ a s b. refl;
  balance-bumped = λ a s b. refl;
  value-minted = λ a n s b k. refl;
  value-loaded = λ a s b k. refl;
  value-bumped = λ a s b k. refl;
}

abbrev call : SubmitRetryableCall
call = record {
  request_id = 1;
  l1_base_fee = 2;
  deposit_value = 9000;
  retry_value = 100;
  gas_fee_cap = 3;
  gas_limit = 200;
  max_submission_fee = 4000;
  fee_refund_address = 11;
  beneficiary = 12;
  retry_to = some 13;
  retry_data = 1 ∷ 2 ∷ 3 ∷ [];
}

deposit_accounted_example :
    let deposit = split_deposit call 2836 in
    let gas = split_gas call 2 deposit.left in
    min 9000 100 + deposit.submission_fee_refund + gas.gas_price_refund + max_refund_of deposit gas
    ≡ 9000
deposit_accounted_example = deposit_accounted call 2836 2 (omega arith)

abbrev pub hundreds : Memory
hundreds = record { words = λ a k. 100; funds = λ a. 100; nonces = λ a. 0; logs = [] }

decode-encode_submit_retryable_calldata_example :
    decode_submit_retryable_calldata (encode_submit_retryable_calldata call) hundreds
    ≡ (ok call, hundreds)
decode-encode_submit_retryable_calldata_example =
    decode-encode_submit_retryable_calldata call
      (record {
        request_id_fits = omega arith;
        l1_base_fee_fits = omega arith;
        deposit_value_fits = omega arith;
        retry_value_fits = omega arith;
        gas_fee_cap_fits = omega arith;
        gas_limit_fits = omega arith;
        max_submission_fee_fits = omega arith;
        fee_refund_address_fits = omega arith;
        beneficiary_fits = omega arith;
        retry_to_fits = (omega arith, omega arith);
        retry_data_fits = omega arith;
      })
      hundreds

abbrev tx : ArbTransaction
tx = record {
  caller = 21;
  to = some 22;
  value = 30;
  input = [];
  chain_id = some 1;
  tx_hash = none;
  encoded_2718_bytes = none;
  retry_ticket = some 5;
}

deposit_to_lem_example :
    let (r, s') = deposit_to toy platform tx 22 hundreds in
    (r ≡ ok DepositOutcome.applied)
    × (s'.funds 22 ≡ 130)
    × ((other : ℕ) → other ≢ 22 → s'.funds other ≡ 100)
deposit_to_lem_example =
    deposit_to_lem toy toy-Lawful platform platform-Lawful tx 22 hundreds
      (unfold known_hash in refl) (λ e. omega arith) (omega arith) (omega arith)

abbrev pub block : Block
block = record { number = 7; timestamp = 90; basefee = 2 }

abbrev pub arbos : ArbosState
arbos = open_arbos toy

escrow_elsewhere : 21 ≢ retryable_escrow_address toy 5
unfolding retryable_escrow_address be_bytes from_be from_be_acc
escrow_elsewhere e = absurd (omega (arith, e))

failed_redeem_restores_example :
    let (r, s') =
      (redeem_ticket toy platform arbos tx block 5
          >> finish_ticket toy platform arbos tx [] false 5)
        hundreds in
    (r ≡ ok tt) × ((b : ℕ) → s'.funds b ≡ 100) × ((b k : ℕ) → s'.words b k ≡ 100)
failed_redeem_restores_example =
    failed_redeem_restores toy toy-Lawful platform platform-Lawful arbos tx block 5 [] hundreds
      (record {
        now_fits = omega arith;
        timeout_fits = omega arith;
        created = λ e. omega arith;
        unexpired = omega arith;
        covered = omega arith;
        escrow_room = omega arith;
        sender_room = omega arith;
        not_escrow = escrow_elsewhere;
        nonce_left = omega arith;
      })

-- The ticket is recorded and, since its gas is too low, no redeem is scheduled.
submission_run :
    (submit_filtered toy platform arbos 1 21 5 call block false hundreds).0
    ≡ ok (SubmitRetryableOutcome.created 0, false)
unfolding submit_filtered submit_call pay_and_record settle_gas timestamp_u64
    retryable_submission_fee split_deposit take_funds pay pay_if_any transfer_result memory_transfer
    fund_escrow retryable_escrow_address write_ticket retryable set_to
    ensure_timeout_queue_initialized ensure_initialized put get_entry set_entry get_address get_uint
    set_u64 set_address set_u256 get_u256 set_fresh write_chunks chunks open_arbos open_l2_pricing
    be_bytes from_be from_be_acc ticket_created_log slot_for_hash open_subspace
    open_subspace_with_key
submission_run = refl

submit_filtered-Reports_example : Reports false 200 (SubmitRetryableOutcome.created 0, false)
submit_filtered-Reports_example =
    submit_filtered-Reports toy platform arbos 1 21 5 false call block hundreds
      (SubmitRetryableOutcome.created 0, false) submission_run
