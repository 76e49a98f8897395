-- ===== src/Precompiles.antt =====
-- The precompiles of ArbOS, crates/arb-revm/src/precompiles: what a call of one is given and returns
-- (common.rs). revm's gas counter, its log encoders and the ABI decoder are the parameter `Host`.
pub mod Dispatch
pub mod ArbRetryableTx
pub mod RedeemGas
pub mod ArbGasInfo
pub mod ArbAddressTable
pub mod ArbAggregator
pub mod ArbOwnerPublic
pub mod ArbFilteredTransactionsManager
use arb_revm.Base.{
  Bool, Bool-cases, List, Option, Option-cases, [], ap, append-nil, append_assoc, ap₂, arith,
  bit_and, bit_or, bit_xor, checked_add, checked_mul, checked_sub, dec_le, dec_lt, drop, eq_self,
  eq_true→eq, false, fun_ext, if◌then◌else◌, inl, inr, leb, length, length-append, le→leb, le→ltb,
  ltb, ltb→lt, lt→ltb, map_option, min, ne→eq_false, none, not, refl, replicate, saturating_add,
  saturating_mul, some, subst, suc, sym, take, true, u256_max, u64_max, unwrap_or, zero, ℕ,
  ℕ_discrete, ◌%◌, ◌&&◌, ◌*◌, ◌++◌, ◌+◌, ◌-◌, ◌/◌, ◌<◌, ◌==◌, ◌^◌, ◌||◌, ◌↔◌, ◌∎, ◌∙◌, ◌∷◌, ◌≡◌,
  ◌≡⟨◌⟩◌, ◌≢◌, ◌≤◌, ◌⊎◌,
}
use arb_revm.Journal.{ArbJournal, Result, M, Error, ok, err}
use arb_revm.Base.Bytes.{be_bytes}
use arb_revm.Journal.Metered.{metered}

-- revm's `InstructionResult`, the ones that the precompiles use.
pub data InstructionResult : Type 0 where
  return revert out_of_gas fatal_external_error : InstructionResult

-- The texts that a revert carries; an error inside one is printed.
pub data Message : Type 0 where
  ticket_does_not_exist only_the_beneficiary ticket_id_not_found not_enough_gas : Message
  not_enough_gas_for_attempt address_not_registered index_out_of_bounds : Message
  not_yet_implemented must_be_owner only_poster_or_owner : Message
  rectify_not_yet_implemented : Message
  retryable_error cancel_error version_read_failed backlog_cost_error backlog_error :
      Error → Message
  gas_info_error address_table_error storage_error access_check_error add_error : Error → Message
  delete_error read_error aggregator_error add_poster_error set_fee_collector_error :
      Error → Message
  owner_public_error max_fragments_error : Error → Message
  dispatch_version_error wrapper_error : Error → Message

-- revm's `Gas`: `new`, `new_spent_with_reservoir` without a reservoir, `spend_all`, and
-- `record_regular_cost`, which is false where the cost does not fit. `encode_words` is the ABI encoding
-- of words, `encode_array` that of one array of them, `message_bytes` the UTF-8 of a text.
pub record Host : Type 1 where
  pub Gas : Type 0
  pub new_gas : ℕ → Gas
  pub new_spent : ℕ → Gas
  pub spend_all : Gas → Gas
  pub record_regular_cost : Gas → ℕ → Bool × Gas
  pub encode_words : List ℕ → List ℕ
  pub encode_array : List ℕ → List ℕ
  pub message_bytes : Message → List ℕ

-- What revm documents of its counter: a cost that fits what remains is taken from it, and another one
-- leaves the counter. A word is encoded as 32 bytes.
pub record LawfulGas (H : Host) : Type 0 where
  pub remaining : H.Gas → ℕ
  pub charged : H.Gas → ℕ → H.Gas
  pub record_fits :
      (g : H.Gas) (cost : ℕ)
      → cost ≤ remaining g
      → H.record_regular_cost g cost ≡ (true, charged g cost)
  pub record_short :
      (g : H.Gas) (cost : ℕ) → remaining g < cost → H.record_regular_cost g cost ≡ (false, g)
  pub remaining-new_gas : (limit : ℕ) → remaining (H.new_gas limit) ≡ limit
  pub remaining-charged :
      (g : H.Gas) (cost : ℕ) → cost ≤ remaining g → remaining (charged g cost) ≡ remaining g - cost
  pub length-encode_words : (word : ℕ) → length (H.encode_words (word ∷ [])) ≡ 32

-- `ArbCall`: a call that the context has resolved.
pub record ArbCall : Type 0 where
  pub input : List ℕ
  pub gas_limit : ℕ
  pub caller : ℕ
  pub value : ℕ
  pub acting_address : ℕ
  pub bytecode_address : ℕ
  pub is_static : Bool

-- revm's `InterpreterResult`.
pub record InterpreterResult (Gas : Type 0) : Type 0 where
  pub result : InstructionResult
  pub output : List ℕ
  pub gas : Gas

-- A `match` on a fallible call whose error becomes a result of the precompile.
unfoldable pub or_result : {S A R : Type 0} → M S A → (Error → R) → (A → S → R × S) → S → R × S
or_result m on_error k s = let (r, s') = m s in elim r [ ok a ↦ k a s' | err e ↦ (on_error e, s') ]

module _ (H : Host) where
  open H use {Gas, new_gas, new_spent, record_regular_cost, message_bytes}

  abbrev pub precompile_base_gas : ℕ
  precompile_base_gas = 0

  unfoldable pub ok_result : ℕ → List ℕ → InterpreterResult Gas
  ok_result gas_limit output = record {
    result = InstructionResult.return;
    output = output;
    gas = (record_regular_cost (new_gas gas_limit) precompile_base_gas).1;
  }

  -- `Error(string)`: the selector, the offset 32, the length, and the text in whole words.
  unfoldable pub error_output : List ℕ → List ℕ
  error_output bytes =
      0x08 ∷ 0xC3 ∷ 0x79 ∷ 0xA0 ∷ be_bytes 32 32
      ++ (be_bytes 32 (length bytes % 2 ^ 32)
          ++ (bytes ++ replicate ((length bytes + 31) / 32 * 32 - length bytes) 0))

  unfoldable pub revert_result : ℕ → Message → InterpreterResult Gas
  revert_result gas_limit msg = record {
    result = InstructionResult.revert;
    output = error_output (message_bytes msg);
    gas = new_gas gas_limit;
  }

  unfoldable pub empty_active_result : ℕ → InterpreterResult Gas
  empty_active_result gas_limit = record {
    result = InstructionResult.return;
    output = [];
    gas = new_gas gas_limit;
  }

  unfoldable pub gated_revert_result : ℕ → InterpreterResult Gas
  gated_revert_result gas_limit = record {
    result = InstructionResult.revert;
    output = [];
    gas = new_spent gas_limit;
  }

  unfoldable pub fatal_result : ℕ → Message → InterpreterResult Gas
  fatal_result gas_limit msg = record {
    result = InstructionResult.fatal_external_error;
    output = message_bytes msg;
    gas = new_gas gas_limit;
  }

  -- What a body's storage has burned is taken from its gas; where it does not fit, the call ends so.
  unfoldable pub take_burned : InstructionResult → InterpreterResult Gas → ℕ → InterpreterResult Gas
  take_burned short r burned =
      let (fits, gas) = record_regular_cost r.gas burned in
      if fits
      then record { result = r.result; output = r.output; gas = gas }
      else record { result = short; output = []; gas = gas }

-- A body over the journal that adds up what storage costs, from a burner at 0.
unfoldable pub run_metered :
    (J : ArbJournal) {R : Type 0}
    → ((metered J).State → R × (metered J).State)
    → J.State
    → (R × ℕ) × J.State
unfolding metered
run_metered J body s = let (r, (s', burned)) = body (s, 0) in ((r, burned), s')
