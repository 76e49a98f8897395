-- ===== src/Precompiles/ArbAggregator.antt =====
-- `ArbAggregator` of crates/arb-revm/src/precompiles/arb_aggregator.rs: the batch posters, who collects
-- their fees, and who may change it. Reads and writes are billed.
use arb_revm.Base.{List, Option, [], false, if◌then◌else◌, none, not, some, ℕ, ◌&&◌, ◌==◌, ◌∷◌}
use arb_revm.Storage.BatchPosterTable
use arb_revm.Storage.AddressSet
use arb_revm.Journal.{ArbJournal, Error, M, ◌>>=◌}
use arb_revm.Precompiles.{
  Host, ArbCall, InterpreterResult, Message, ok_result, revert_result, gated_revert_result,
  or_result, run_metered, take_burned, InstructionResult,
}
use arb_revm.Storage.ArbosState.{ArbosState, open_arbos}
use arb_revm.Storage.BatchPosterTable.{
  BatchPosterState, add_poster, open_poster_checked, set_pay_to,
}
use arb_revm.L1Cost.{batch_poster_address}
use arb_revm.Journal.Metered.{metered}

-- A call that the ABI decoder has read.
pub data AggregatorCall : Type 0 where
  get_batch_posters get_preferred_aggregator get_default_aggregator : AggregatorCall
  get_tx_base_fee set_tx_base_fee : AggregatorCall
  get_fee_collector add_batch_poster : ℕ → AggregatorCall
  set_fee_collector : ℕ → ℕ → AggregatorCall

module _ (J : ArbJournal) (H : Host) where
  open J use {State}
  open H use {Gas, encode_words, encode_array}

  abbrev pub AggregatorAnswer : Type 0
  AggregatorAnswer = State → InterpreterResult Gas × State

  unfoldable pub or_revert_with :
      {A : Type 0} → ℕ → (Error → Message) → M State A → (A → AggregatorAnswer) → AggregatorAnswer
  or_revert_with gas_limit message m = or_result m (λ e. revert_result H gas_limit (message e))

  unfoldable pub done : ℕ → List ℕ → AggregatorAnswer
  done gas_limit output s = (ok_result H gas_limit output, s)

  unfoldable pub refuse : ℕ → Message → AggregatorAnswer
  refuse gas_limit message s = (revert_result H gas_limit message, s)

  unfoldable pub call_get_fee_collector : ArbosState → ℕ → ℕ → AggregatorAnswer
  call_get_fee_collector a gas_limit poster =
      or_revert_with gas_limit Message.aggregator_error
        (open_poster_checked J a.l1_pricing.batch_poster_table poster false >>= λ p.
          BatchPosterTable.pay_to J p)
        (λ collector. done gas_limit (encode_words (collector ∷ [])))

  -- A poster that is new is added, and collects its own fees.
  unfoldable pub add_if_new : ArbosState → ℕ → ℕ → AggregatorAnswer
  add_if_new a gas_limit poster =
      let t = a.l1_pricing.batch_poster_table in
      or_revert_with gas_limit Message.aggregator_error
        (AddressSet.is_member J t.poster_address_set poster)
        (λ known.
          if known
          then done gas_limit []
          else or_revert_with gas_limit Message.add_poster_error (add_poster J t poster poster)
              (λ _. done gas_limit []))

  -- What only an owner of the chain may do.
  unfoldable pub as_owner : ArbosState → ℕ → ℕ → Message → AggregatorAnswer → AggregatorAnswer
  as_owner a gas_limit caller message continue =
      or_revert_with gas_limit Message.aggregator_error
        (AddressSet.is_member J a.chain_owners caller)
        (λ owner. if owner then continue else refuse gas_limit message)

  -- The poster, its collector and an owner may.
  unfoldable pub change_collector :
      ArbosState → ℕ → ℕ → ℕ → ℕ → BatchPosterState → ℕ → AggregatorAnswer
  change_collector a gas_limit caller poster collector p old =
      let change =
        or_revert_with gas_limit Message.set_fee_collector_error (set_pay_to J p collector)
          (λ _. done gas_limit []) in
      if not (caller == poster) && not (caller == old)
      then as_owner a gas_limit caller Message.only_poster_or_owner change
      else change

  unfoldable pub call_set_fee_collector : ArbosState → ℕ → ℕ → ℕ → ℕ → AggregatorAnswer
  call_set_fee_collector a gas_limit caller poster collector =
      or_revert_with gas_limit Message.set_fee_collector_error
        (open_poster_checked J a.l1_pricing.batch_poster_table poster false)
        (λ p.
          or_revert_with gas_limit Message.aggregator_error (BatchPosterTable.pay_to J p)
            (change_collector a gas_limit caller poster collector p))

  unfoldable pub dispatch_arb_aggregator : ArbosState → AggregatorCall → ℕ → ℕ → AggregatorAnswer
  dispatch_arb_aggregator a AggregatorCall.get_batch_posters caller gas_limit =
      or_revert_with gas_limit Message.aggregator_error
        (AddressSet.all_members J a.l1_pricing.batch_poster_table.poster_address_set)
        (λ posters. done gas_limit (encode_array posters))
  dispatch_arb_aggregator a (AggregatorCall.get_fee_collector poster) caller gas_limit =
      call_get_fee_collector a gas_limit poster
  dispatch_arb_aggregator a AggregatorCall.get_preferred_aggregator caller gas_limit =
      done gas_limit (encode_words (batch_poster_address ∷ 1 ∷ []))
  dispatch_arb_aggregator a AggregatorCall.get_default_aggregator caller gas_limit =
      done gas_limit (encode_words (batch_poster_address ∷ []))
  dispatch_arb_aggregator a AggregatorCall.get_tx_base_fee caller gas_limit =
      done gas_limit (encode_words (0 ∷ []))
  dispatch_arb_aggregator a (AggregatorCall.add_batch_poster poster) caller gas_limit =
      as_owner a gas_limit caller Message.must_be_owner (add_if_new a gas_limit poster)
  dispatch_arb_aggregator a (AggregatorCall.set_fee_collector poster collector) caller gas_limit =
      call_set_fee_collector a gas_limit caller poster collector
  dispatch_arb_aggregator a AggregatorCall.set_tx_base_fee caller gas_limit = done gas_limit []

module _ (J : ArbJournal) (H : Host) where
  open J use {State}

  unfoldable pub run_arb_aggregator :
      (List ℕ → Option AggregatorCall) → ArbCall → State → InterpreterResult H.Gas × State
  run_arb_aggregator decode call s = elim (decode call.input) [
    | none ↦ (gated_revert_result H call.gas_limit, s)
    | some decoded ↦
        let ((r, burned), s') =
          run_metered J
            (dispatch_arb_aggregator (metered J) H (open_arbos J) decoded call.caller
              call.gas_limit)
            s in
        (take_burned H InstructionResult.out_of_gas r burned, s')
  ]
