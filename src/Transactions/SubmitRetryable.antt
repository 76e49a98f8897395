-- ===== src/Transactions/SubmitRetryable.antt =====
-- crates/arb-revm/src/submit_retryable_tx.rs: a message from L1 that mints a deposit, pays the fee for
-- a ticket, puts the ticket's value in escrow, records the ticket and, if its gas is paid for, schedules
-- its first redeem.
pub mod Funds
use arb_revm.Base.{
  Bool, Bool-cases, List, Option, Option-cases, [], ap, append-nil, append_assoc, ap₂, arith,
  bit_and, bit_or, bit_xor, checked_add, checked_mul, checked_sub, dec_le, dec_lt, drop, eq_self,
  eq_true→eq, false, fun_ext, if◌then◌else◌, inl, inr, leb, length, length-append, le→leb, le→ltb,
  ltb, ltb→lt, lt→ltb, map_option, min, ne→eq_false, none, not, refl, replicate, saturating_add,
  saturating_mul, some, subst, suc, sym, take, true, u256_max, u64_max, unwrap_or, zero, ℕ,
  ℕ_discrete, ◌%◌, ◌&&◌, ◌*◌, ◌++◌, ◌+◌, ◌-◌, ◌/◌, ◌<◌, ◌==◌, ◌^◌, ◌||◌, ◌↔◌, ◌∎, ◌∙◌, ◌∷◌, ◌≡◌,
  ◌≡⟨◌⟩◌, ◌≢◌, ◌≤◌, ◌⊎◌,
}
use arb_revm.Base.Bytes.{be_bytes}
use arb_revm.Journal.{ArbJournal, M, Log, pure, raise, missing_field, ok, ◌>>=◌, ◌>>◌}
use arb_revm.Storage.Space.{arbos_state_address}
use arb_revm.Storage.Slot.{get_u64, set_u64, get_address, set_address, get_u256, set_u256}
use arb_revm.Storage.Bytes
use arb_revm.Storage.Queue
use arb_revm.Storage.ArbosState.{ArbosState, open_arbos}
use arb_revm.Storage.Retryables.{
  RetryableRecord, retryable, retryable_escrow_address, retryable_lifetime_seconds, set_to,
  ensure_timeout_queue_initialized,
}
use arb_revm.Storage.L1Pricing.Payments.{transfer_result}
use arb_revm.Transactions.{ArbTransaction, Block, TxRetry, Platform, known_hash, timestamp_u64}
use arb_revm.Transactions.Filter.{is_tx_hash_filtered, filtered_funds_recipient_or_default}
use arb_revm.Transactions.Calldata.{SubmitRetryableCall, decode_submit_retryable_calldata}

abbrev pub tx_gas : ℕ
tx_gas = 21000

abbrev pub arbos_version_stylus : ℕ
arbos_version_stylus = 30

abbrev pub arb_retryable_tx_address : ℕ
arb_retryable_tx_address = 0x6E

abbrev pub arbitrum_submit_retryable_tx_type : ℕ
arbitrum_submit_retryable_tx_type = 0x69

-- "TicketCreated(bytes32)"
abbrev pub ticket_created_event_signature : List ℕ
ticket_created_event_signature =
    84 ∷ 105 ∷ 99 ∷ 107 ∷ 101 ∷ 116 ∷ 67 ∷ 114 ∷ 101 ∷ 97 ∷ 116 ∷ 101 ∷ 100 ∷ 40 ∷ 98 ∷ 121 ∷ 116
    ∷ 101 ∷ 115 ∷ 51 ∷ 50 ∷ 41 ∷ []

-- "RedeemScheduled(bytes32,bytes32,uint64,uint64,address,uint256,uint256)"
abbrev pub redeem_scheduled_event_signature : List ℕ
redeem_scheduled_event_signature =
    82 ∷ 101 ∷ 100 ∷ 101 ∷ 101 ∷ 109 ∷ 83 ∷ 99 ∷ 104 ∷ 101 ∷ 100 ∷ 117 ∷ 108 ∷ 101 ∷ 100 ∷ 40 ∷ 98
    ∷ 121 ∷ 116 ∷ 101 ∷ 115 ∷ 51 ∷ 50 ∷ 44 ∷ 98 ∷ 121 ∷ 116 ∷ 101 ∷ 115 ∷ 51 ∷ 50 ∷ 44 ∷ 117 ∷ 105
    ∷ 110 ∷ 116 ∷ 54 ∷ 52 ∷ 44 ∷ 117 ∷ 105 ∷ 110 ∷ 116 ∷ 54 ∷ 52 ∷ 44 ∷ 97 ∷ 100 ∷ 100 ∷ 114 ∷ 101
    ∷ 115 ∷ 115 ∷ 44 ∷ 117 ∷ 105 ∷ 110 ∷ 116 ∷ 50 ∷ 53 ∷ 54 ∷ 44 ∷ 117 ∷ 105 ∷ 110 ∷ 116 ∷ 50 ∷ 53
    ∷ 54 ∷ 41 ∷ []

-- With the gas of the receipt.
pub data SubmitRetryableOutcome : Type 0 where
  created failed : ℕ → SubmitRetryableOutcome

-- What is taken of the available funds, and what is left.
unfoldable pub take_funds : ℕ → ℕ → ℕ × ℕ
take_funds available requested = let taken = min available requested in (taken, available - taken)

-- 1400 units and 6 for each byte, times the base fee: the product of words wraps.
unfoldable pub retryable_submission_fee : ℕ → ℕ → ℕ
retryable_submission_fee calldata_len l1_base_fee =
    l1_base_fee * saturating_add 128 1400 (saturating_mul 128 6 calldata_len) % 2 ^ 256

-- What the deposit pays back in the two refunds that come first, and what is left of it.
pub record DepositSplit : Type 0 where
  pub withheld_submission_fee : ℕ
  pub submission_fee_refund : ℕ
  pub left : ℕ

unfoldable pub split_deposit : SubmitRetryableCall → ℕ → DepositSplit
split_deposit call submission_fee =
    let after_value = take_funds call.deposit_value call.retry_value in
    let withheld = take_funds after_value.1 submission_fee in
    let refund = take_funds withheld.1 (call.max_submission_fee - submission_fee) in
    record {
      withheld_submission_fee = withheld.0;
      submission_fee_refund = refund.0;
      left = refund.1;
    }

-- What the gas takes of the rest: the gas itself, the refund of the price difference, the rest.
pub record GasSplit : Type 0 where
  pub withheld_gas_funds : ℕ
  pub gas_price_refund : ℕ
  pub left : ℕ

unfoldable pub split_gas : SubmitRetryableCall → ℕ → ℕ → GasSplit
split_gas call effective_base_fee available =
    let gascost = saturating_mul 256 effective_base_fee call.gas_limit in
    let withheld = take_funds available gascost in
    let refund =
      take_funds withheld.1
        (saturating_mul 256 (call.gas_fee_cap - effective_base_fee) call.gas_limit) in
    record { withheld_gas_funds = withheld.0; gas_price_refund = refund.0; left = refund.1 }

-- The most that the redeem may pay back.
unfoldable pub max_refund_of : DepositSplit → GasSplit → ℕ
max_refund_of deposit gas =
    saturating_add 256 (saturating_add 256 gas.left gas.withheld_gas_funds)
      deposit.withheld_submission_fee

module _ (J : ArbJournal) where
  open J use {State, keccak256, account_balance, transfer, emit_log}

  -- `compute_submit_retryable_ticket_id`
  unfoldable pub compute_submit_retryable_ticket_id : Platform J → ℕ → ℕ → SubmitRetryableCall → ℕ
  compute_submit_retryable_ticket_id P chain_id from call =
      let fields =
        P.rlp_uint chain_id
        ++ (P.rlp_hash call.request_id
            ++ (P.rlp_address from
                ++ (P.rlp_uint call.l1_base_fee
                    ++ (P.rlp_uint call.deposit_value
                        ++ (P.rlp_uint call.gas_fee_cap
                            ++ (P.rlp_uint call.gas_limit
                                ++ (P.rlp_kind call.retry_to
                                    ++ (P.rlp_uint call.retry_value
                                        ++ (P.rlp_address call.beneficiary
                                            ++ (P.rlp_uint call.max_submission_fee
                                                ++ (P.rlp_address call.fee_refund_address
                                                    ++ P.rlp_bytes call.retry_data))))))))))) in
      keccak256 (arbitrum_submit_retryable_tx_type ∷ (P.rlp_list_header (length fields) ++ fields))

  unfoldable pub ticket_created_log : ℕ → Log
  ticket_created_log ticket_id = record {
    address = arb_retryable_tx_address;
    topics = keccak256 ticket_created_event_signature ∷ ticket_id ∷ [];
    bytes = [];
  }

  unfoldable pub redeem_scheduled_log : Platform J → ℕ → ℕ → ℕ → ℕ → ℕ → ℕ → Log
  redeem_scheduled_log P ticket_id retry_hash donated_gas gas_donor max_refund submission_refund =
      record {
        address = arb_retryable_tx_address;
        topics = keccak256 redeem_scheduled_event_signature ∷ ticket_id ∷ retry_hash ∷ 0 ∷ [];
        bytes = P.abi_encode donated_gas gas_donor max_refund submission_refund;
      }

  -- A transfer whose refusal is an error.
  unfoldable pub pay : ℕ → ℕ → ℕ → M State (Unit {0})
  pay payer payee amount = transfer payer payee amount >>= transfer_result

  unfoldable pub pay_if_any : ℕ → ℕ → ℕ → M State (Unit {0})
  pay_if_any payer payee amount = if amount == 0 then pure tt else pay payer payee amount

  -- The fees that an escrow which cannot be funded gives back.
  unfoldable pub return_submission_fee : ℕ → ℕ → ℕ → ℕ → ℕ → M State (Unit {0})
  return_submission_fee network_fee_account from fee_refund_address submission_fee withheld = do
    pay_if_any network_fee_account from submission_fee
    pay_if_any from fee_refund_address withheld

  -- The value goes to the escrow; false if the transfer is refused, after the fees went back.
  unfoldable pub fund_escrow : ℕ → SubmitRetryableCall → ℕ → ℕ → ℕ → ℕ → M State Bool
  fund_escrow from call network_fee_account ticket_id submission_fee withheld =
      if call.retry_value == 0 then pure true else (do
        refusal ← transfer from (retryable_escrow_address J ticket_id) call.retry_value
        elim refusal [
          | none ↦ pure true
          | some e ↦
              return_submission_fee network_fee_account from call.fee_refund_address submission_fee
                withheld
              >> pure false
        ])

  unfoldable pub write_ticket : ArbosState → ℕ → ℕ → SubmitRetryableCall → ℕ → M State (Unit {0})
  write_ticket a ticket_id from call timeout = do
    let t = retryable J a.retryables ticket_id
    set_u64 J t.num_tries 0
    set_address J t.from from
    set_to J t call.retry_to
    set_u256 J t.callvalue call.retry_value
    set_address J t.beneficiary call.beneficiary
    set_u64 J t.timeout timeout
    set_u64 J t.timeout_windows_left 0
    Bytes.set_fresh J t.calldata call.retry_data
    ensure_timeout_queue_initialized J a.retryables
    Queue.put J a.retryables.timeout_queue ticket_id
    emit_log (ticket_created_log ticket_id)

  -- The infrastructure's share of the gas, and what is left of the cost.
  unfoldable pub pay_infra_fee : ArbosState → SubmitRetryableCall → ℕ → ℕ → ℕ → M State ℕ
  pay_infra_fee a call from effective_base_fee gascost = do
    infra_fee_account ← get_address J a.infra_fee_account
    if infra_fee_account == 0 then pure gascost else (do
      min_base_fee ← get_u256 J a.l2_pricing.min_base_fee_wei
      let infra_fee = min min_base_fee effective_base_fee
      let share = take_funds gascost (saturating_mul 256 infra_fee call.gas_limit)
      pay_if_any from infra_fee_account share.0
      pure share.1)

  -- The redeem that a submission schedules.
  unfoldable pub retry_of : ℕ → ℕ → ℕ → SubmitRetryableCall → ℕ → ℕ → ℕ → TxRetry
  retry_of chain_id from ticket_id call effective_base_fee max_refund submission_fee = record {
    chain_id = chain_id;
    nonce = 0;
    from = from;
    gas_fee_cap = effective_base_fee;
    gas_limit = call.gas_limit;
    to = call.retry_to;
    value = call.retry_value;
    input = call.retry_data;
    ticket_id = ticket_id;
    refund_to = call.fee_refund_address;
    max_refund = max_refund;
    submission_fee_refund = submission_fee;
  }

  -- Whether the ticket's escrow may come back empty when the redeem succeeds.
  unfoldable pub tracks_zombie : ArbosState → SubmitRetryableCall → M State Bool
  tracks_zombie a call =
      if call.retry_value == 0
      then (get_u64 J a.arbos_version >>= λ v. pure (ltb v arbos_version_stylus))
      else pure false
