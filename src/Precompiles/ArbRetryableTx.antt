-- ===== src/Precompiles/ArbRetryableTx.antt =====
-- `ArbRetryableTx` of crates/arb-revm/src/precompiles/arb_retryable_tx.rs: the calls that read,
-- prolong, cancel and redeem a ticket. Sums of gas are of constants and of lengths of calldata.

use arb_revm.Base.{
  List, Option, [], if◌then◌else◌, leb, length, ltb, none, not, saturating_add, some, u256_max, ℕ,
  ◌&&◌, ◌*◌, ◌+◌, ◌-◌, ◌==◌, ◌∷◌,
}
use arb_revm.Journal.{ok, err, ◌>>=◌, ◌>>◌}
use arb_revm.Precompiles.Dispatch.{words_for_bytes, copy_gas, arbos_state_open_gas}
use arb_revm.Storage.Bytes
use arb_revm.Storage.Retryables
use arb_revm.Storage.Retryables.{
  retryable, exists, RetryableRecord, Retryables, timeout_with_windows, delete_retryable,
  retryable_lifetime_seconds,
}
use arb_revm.Journal.{ArbJournal, M, Log, pure}
use arb_revm.Transactions.{Platform, TxRetry, Block}
use arb_revm.Precompiles.{
  Host, InterpreterResult, ArbCall, or_result, gated_revert_result, revert_result, fatal_result,
  InstructionResult, ok_result, Message,
}
use arb_revm.Storage.ArbosState.{ArbosState, open_arbos}
use arb_revm.Storage.Slot.{get_u64, get_u256, set_u64, get_address}
use arb_revm.Storage.Space.{StorageSlot}
use arb_revm.Storage.L2Pricing.Backlog.{shrink_backlog, backlog_update_cost}

-- A call that the ABI decoder has read.
pub data RetryableCall : Type 0 where
  get_lifetime get_current_redeemer : RetryableCall
  get_timeout get_beneficiary keepalive cancel redeem : ℕ → RetryableCall

abbrev pub redeem_scheduled_event_signature : List ℕ
redeem_scheduled_event_signature =
    82 ∷ 101 ∷ 100 ∷ 101 ∷ 101 ∷ 109 ∷ 83 ∷ 99 ∷ 104 ∷ 101 ∷ 100 ∷ 117 ∷ 108 ∷ 101 ∷ 100 ∷ 40 ∷ 98
    ∷ 121 ∷ 116 ∷ 101 ∷ 115 ∷ 51 ∷ 50 ∷ 44 ∷ 98 ∷ 121 ∷ 116 ∷ 101 ∷ 115 ∷ 51 ∷ 50 ∷ 44 ∷ 117 ∷ 105
    ∷ 110 ∷ 116 ∷ 54 ∷ 52 ∷ 44 ∷ 117 ∷ 105 ∷ 110 ∷ 116 ∷ 54 ∷ 52 ∷ 44 ∷ 97 ∷ 100 ∷ 100 ∷ 114 ∷ 101
    ∷ 115 ∷ 115 ∷ 44 ∷ 117 ∷ 105 ∷ 110 ∷ 116 ∷ 50 ∷ 53 ∷ 54 ∷ 44 ∷ 117 ∷ 105 ∷ 110 ∷ 116 ∷ 50 ∷ 53
    ∷ 54 ∷ 41 ∷ []

abbrev pub retry_tx_gas_minimum : ℕ
retry_tx_gas_minimum = 21000

abbrev pub log_gas : ℕ
log_gas = 375

abbrev pub log_topic_gas : ℕ
log_topic_gas = 375

abbrev pub log_data_gas : ℕ
log_data_gas = 8

abbrev pub redeem_scheduled_event_data_bytes : ℕ
redeem_scheduled_event_data_bytes = 128

abbrev pub redeem_scheduled_event_gas : ℕ
redeem_scheduled_event_gas =
    log_gas + 4 * log_topic_gas + redeem_scheduled_event_data_bytes * log_data_gas

abbrev pub redeem_copy_gas : ℕ
redeem_copy_gas = 3

abbrev pub redeem_storage_read : ℕ
redeem_storage_read = 800

abbrev pub redeem_size_sload_gas : ℕ
redeem_size_sload_gas = 50

abbrev pub redeem_read_burns_base : ℕ
redeem_read_burns_base = 28353

abbrev pub redeem_not_found_read_burns : ℕ
redeem_not_found_read_burns = 2 * redeem_storage_read

abbrev pub no_ticket_with_id_selector : List ℕ
no_ticket_with_id_selector = 0x80 ∷ 0x69 ∷ 0x84 ∷ 0x56 ∷ []

unfoldable pub backlog_cost_lookup_burn : ℕ → ℕ
backlog_cost_lookup_burn version =
    if leb 51 version && ltb version 60 then redeem_storage_read else 0

-- What a redeem keeps back of its gas: what it still has to pay, and what the reads have cost.
unfoldable pub redeem_reserve : ℕ → ℕ → ℕ → ℕ
redeem_reserve version backlog_cost calldata_len =
    let calldata_words = words_for_bytes calldata_len in
    let future_gas_costs = redeem_scheduled_event_gas + redeem_copy_gas + backlog_cost in
    let read_burns =
      redeem_read_burns_base
      + redeem_size_sload_gas * calldata_words
      + redeem_storage_read * (calldata_words - 1)
      + backlog_cost_lookup_burn version in
    saturating_add 64 future_gas_costs read_burns

-- What a redeem reads of its ticket.
pub record Redeem : Type 0 where
  pub nonce : ℕ
  pub from : ℕ
  pub to : Option ℕ
  pub value : ℕ
  pub input : List ℕ

module _ (J : ArbJournal) (P : Platform J) (H : Host) where
  open J use {State, keccak256, emit_log}
  open H use {Gas, new_gas, record_regular_cost, encode_words}

  abbrev pub Answer : Type 0
  Answer = State → InterpreterResult Gas × State

  abbrev pub answer : InterpreterResult Gas → Answer
  answer r s = (r, s)

  unfoldable pub or_revert : {A : Type 0} → ℕ → M State A → (A → Answer) → Answer
  or_revert gas_limit m = or_result m (λ e. revert_result H gas_limit (Message.retryable_error e))

  unfoldable pub call_get_timeout : RetryableRecord → ℕ → Answer
  call_get_timeout ticket gas_limit =
      or_revert gas_limit (timeout_with_windows J ticket) (λ timeout.
        if timeout == 0
        then answer (revert_result H gas_limit Message.ticket_does_not_exist)
        else answer (ok_result H gas_limit (encode_words (timeout ∷ []))))

  unfoldable pub call_get_beneficiary : RetryableRecord → ℕ → Answer
  call_get_beneficiary ticket gas_limit = or_revert gas_limit (get_u64 J ticket.timeout) (λ timeout.
      if timeout == 0
      then answer (revert_result H gas_limit Message.ticket_does_not_exist)
      else or_revert gas_limit (get_address J ticket.beneficiary)
          (λ beneficiary. answer (ok_result H gas_limit (encode_words (beneficiary ∷ [])))))

  unfoldable pub call_keepalive : RetryableRecord → ℕ → Answer
  call_keepalive ticket gas_limit = or_revert gas_limit (timeout_with_windows J ticket) (λ timeout.
      let new_timeout = saturating_add 64 timeout retryable_lifetime_seconds in
      if timeout == 0
      then answer (revert_result H gas_limit Message.ticket_does_not_exist)
      else or_revert gas_limit (set_u64 J ticket.timeout new_timeout) (λ _.
        or_revert gas_limit (set_u64 J ticket.timeout_windows_left 0)
          (λ _. answer (ok_result H gas_limit (encode_words (new_timeout ∷ []))))))

  unfoldable pub delete_for : Retryables → ℕ → ℕ → Answer
  delete_for retryables id gas_limit =
      or_result (delete_retryable J retryables id)
        (λ e. revert_result H gas_limit (Message.cancel_error e))
        (λ deleted.
          if deleted
          then answer (ok_result H gas_limit [])
          else answer (revert_result H gas_limit Message.ticket_does_not_exist))

  unfoldable pub call_cancel : Retryables → ℕ → ArbCall → Answer
  call_cancel retryables id call =
      let ticket = retryable J retryables id in
      or_revert call.gas_limit (get_u64 J ticket.timeout) (λ timeout.
        if timeout == 0
        then answer (revert_result H call.gas_limit Message.ticket_does_not_exist)
        else or_revert call.gas_limit (get_address J ticket.beneficiary) (λ beneficiary.
          if not (call.caller == beneficiary)
          then answer (revert_result H call.gas_limit Message.only_the_beneficiary)
          else delete_for retryables id call.gas_limit))

  -- A version that cannot be read counts as 0.
  unfoldable pub version_or_zero : StorageSlot → M State ℕ
  version_or_zero slot s =
      let (r, s') = get_u64 J slot s in
      elim r [ ok version ↦ (ok version, s') | err e ↦ (ok 0, s') ]

  unfoldable pub redeem_not_found : ArbosState → ℕ → Answer
  redeem_not_found a gas_limit = or_revert gas_limit (version_or_zero a.arbos_version) (λ version.
      if leb 3 version
      then answer (record {
        result = InstructionResult.revert;
        output = no_ticket_with_id_selector;
        gas = (record_regular_cost (new_gas gas_limit) redeem_not_found_read_burns).1;
      })
      else (let r = revert_result H gas_limit Message.ticket_id_not_found in
          answer (record {
            result = r.result;
            output = r.output;
            gas = (record_regular_cost r.gas redeem_not_found_read_burns).1;
          })))

  -- Counts the attempt, and reads the ticket.
  unfoldable pub read_redeem : RetryableRecord → M State Redeem
  read_redeem ticket = do
    nonce ← get_u64 J ticket.num_tries
    set_u64 J ticket.num_tries (saturating_add 64 nonce 1)
    from ← get_address J ticket.from
    to ← Retryables.to J ticket
    value ← get_u256 J ticket.callvalue
    input ← Bytes.get J ticket.calldata
    pure (record { nonce = nonce; from = from; to = to; value = value; input = input })

  unfoldable pub redeem_chain_id : ArbosState → Option ℕ → M State ℕ
  redeem_chain_id a none = get_u256 J a.chain_id
  redeem_chain_id a (some id) = pure id

  unfoldable pub redeem_tx : Redeem → ℕ → ℕ → ℕ → ℕ → ℕ → TxRetry
  redeem_tx r id chain_id basefee donated_gas caller = record {
    chain_id = chain_id;
    nonce = r.nonce;
    from = r.from;
    gas_fee_cap = basefee;
    gas_limit = donated_gas;
    to = r.to;
    value = r.value;
    input = r.input;
    ticket_id = id;
    refund_to = caller;
    max_refund = u256_max;
    submission_fee_refund = 0;
  }

  unfoldable pub redeem_log : ArbCall → Redeem → ℕ → ℕ → ℕ → Log
  redeem_log call r id hash donated_gas = record {
    address = call.bytecode_address;
    topics = keccak256 redeem_scheduled_event_signature ∷ id ∷ hash ∷ r.nonce ∷ [];
    bytes = P.abi_encode donated_gas call.caller u256_max 0;
  }

  -- The gas of a redeem: all of it but the part of the reserve that the backlog did not cost, and what
  -- the dispatch charges on top. A backlog that costs more than its reserve spends everything.
  unfoldable pub redeem_result : ArbCall → ℕ → ℕ → ℕ → InterpreterResult Gas
  redeem_result call hash reserved_cost actual_cost =
      let call_input_extra =
        arbos_state_open_gas + copy_gas * words_for_bytes (length call.input - 4) in
      let consumed =
        call.gas_limit
        - (reserved_cost - actual_cost)
        - (call_input_extra + copy_gas * words_for_bytes 32) in
      if ltb reserved_cost actual_cost
      then record {
        result = InstructionResult.revert;
        output = [];
        gas = (record_regular_cost (new_gas call.gas_limit) (call.gas_limit - call_input_extra)).1;
      }
      else record {
        result = InstructionResult.return;
        output = encode_words (hash ∷ []);
        gas = (record_regular_cost (new_gas call.gas_limit) consumed).1;
      }

  -- The event and the backlog. The event's journal call returns nothing.
  unfoldable pub schedule_redeem :
      ArbosState → Block → ArbCall → ℕ → Redeem → ℕ → ℕ → ℕ → ℕ → Answer
  schedule_redeem a block call id r version backlog_cost donated_gas chain_id s =
      let hash = P.retry_tx_hash (redeem_tx r id chain_id block.basefee donated_gas call.caller) in
      let (logged, s') = emit_log (redeem_log call r id hash donated_gas) s in
      or_result (shrink_backlog J a.l2_pricing donated_gas version)
        (λ e. fatal_result H call.gas_limit (Message.backlog_error e))
        (λ actual_cost. answer (redeem_result call hash backlog_cost actual_cost)) s'

  -- The gas that the attempt may donate to the transaction it schedules.
  unfoldable pub donate : ArbosState → Block → Option ℕ → ArbCall → ℕ → Redeem → ℕ → ℕ → Answer
  donate a block tx_chain_id call id r version backlog_cost =
      let reserved = redeem_reserve version backlog_cost (length r.input) in
      if ltb call.gas_limit reserved
      then answer (revert_result H call.gas_limit Message.not_enough_gas)
      else if ltb (call.gas_limit - reserved) retry_tx_gas_minimum
      then answer (revert_result H call.gas_limit Message.not_enough_gas_for_attempt)
      else or_revert call.gas_limit (redeem_chain_id a tx_chain_id)
          (schedule_redeem a block call id r version backlog_cost (call.gas_limit - reserved))

  unfoldable pub attempt_redeem : ArbosState → Block → Option ℕ → ArbCall → ℕ → Answer
  attempt_redeem a block tx_chain_id call id =
      or_revert call.gas_limit (read_redeem (retryable J a.retryables id)) (λ r.
        or_result (get_u64 J a.arbos_version)
          (λ e. fatal_result H call.gas_limit (Message.version_read_failed e))
          (λ version.
            or_result (backlog_update_cost J a.l2_pricing version)
              (λ e. fatal_result H call.gas_limit (Message.backlog_cost_error e))
              (donate a block tx_chain_id call id r version)))

  unfoldable pub call_redeem : ArbosState → Block → Option ℕ → ArbCall → ℕ → Answer
  call_redeem a block tx_chain_id call id =
      or_revert call.gas_limit (exists J (retryable J a.retryables id) block.timestamp) (λ found.
        if found
        then attempt_redeem a block tx_chain_id call id
        else redeem_not_found a call.gas_limit)

  unfoldable pub run_call : ArbosState → Block → Option ℕ → ArbCall → RetryableCall → Answer
  run_call a block tx_chain_id call RetryableCall.get_lifetime =
      answer (ok_result H call.gas_limit (encode_words (retryable_lifetime_seconds ∷ [])))
  run_call a block tx_chain_id call (RetryableCall.get_timeout id) =
      call_get_timeout (retryable J a.retryables id) call.gas_limit
  run_call a block tx_chain_id call (RetryableCall.get_beneficiary id) =
      call_get_beneficiary (retryable J a.retryables id) call.gas_limit
  run_call a block tx_chain_id call RetryableCall.get_current_redeemer =
      answer (ok_result H call.gas_limit (encode_words (0 ∷ [])))
  run_call a block tx_chain_id call (RetryableCall.keepalive id) =
      call_keepalive (retryable J a.retryables id) call.gas_limit
  run_call a block tx_chain_id call (RetryableCall.cancel id) = call_cancel a.retryables id call
  run_call a block tx_chain_id call (RetryableCall.redeem id) =
      call_redeem a block tx_chain_id call id

  -- `tx_chain_id` is the context's; `decode` is `abi_decode` of the interface.
  unfoldable pub run_arb_retryable_tx :
      (List ℕ → Option RetryableCall) → Block → Option ℕ → ArbCall → Answer
  run_arb_retryable_tx decode block tx_chain_id call = elim (decode call.input) [
    | none ↦ answer (gated_revert_result H call.gas_limit)
    | some decoded ↦ run_call (open_arbos J) block tx_chain_id call decoded
  ]
