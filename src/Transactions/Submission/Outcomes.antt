-- ===== src/Transactions/Submission/Outcomes.antt =====
-- What a submission may report, on every path and over every journal.
use arb_revm.Base.{Bool, arith, false, true, ℕ, ◌≡◌, ◌⊎◌}
use arb_revm.Journal.{ArbJournal, ok}
use arb_revm.Transactions.SubmitRetryable.{SubmitRetryableOutcome}
use arb_revm.Transactions.{Platform, Block}
use arb_revm.Storage.ArbosState.{ArbosState}
use arb_revm.Transactions.Submission.{settle_gas, pay_and_record, submit_filtered, submit_call}
use arb_revm.Transactions.Calldata.{SubmitRetryableCall}

-- What is reported: a created ticket only if it is not filtered, with the gas of its redeem or, if
-- none is scheduled, with no gas and no escrow to track; a failure tracks no escrow and has no gas,
-- unless it is filtered, when it may have the redeem's. It is no account of what is written: a filtered
-- submission writes its ticket and is reported as a failure.
pub Reports : Bool → ℕ → SubmitRetryableOutcome × Bool → Type 0
Reports is_filtered gas (SubmitRetryableOutcome.created g, track) =
    (is_filtered ≡ false) × ((g ≡ gas) ⊎ ((g ≡ 0) × (track ≡ false)))
Reports is_filtered gas (SubmitRetryableOutcome.failed g, track) =
    (track ≡ false) × ((g ≡ 0) ⊎ ((g ≡ gas) × (is_filtered ≡ true)))

module _ (J : ArbJournal) (P : Platform J) (a : ArbosState) (chain_id from ticket_id : ℕ) where
  settle_gas-Reports :
      (is_filtered : Bool) (call : SubmitRetryableCall) (base_fee network submission_fee : ℕ)
      (s : J.State) (result : SubmitRetryableOutcome × Bool)
      → (settle_gas J P a chain_id from ticket_id is_filtered call base_fee network submission_fee
          s).0
        ≡ ok result
      → Reports is_filtered call.gas_limit result
  unfolding settle_gas Reports
  settle_gas-Reports true call base_fee network fee s result e = ground arith
  settle_gas-Reports false call base_fee network fee s result e = ground arith

  pay_and_record-Reports :
      (is_filtered : Bool) (call : SubmitRetryableCall)
      (base_fee network submission_fee timeout : ℕ) (s : J.State)
      (result : SubmitRetryableOutcome × Bool)
      → (pay_and_record J P a chain_id from ticket_id is_filtered call base_fee network
          submission_fee timeout s).0
        ≡ ok result
      → Reports is_filtered call.gas_limit result
  unfolding pay_and_record Reports settle_gas
  pay_and_record-Reports true call base_fee network fee timeout s result e = ground arith
  pay_and_record-Reports false call base_fee network fee timeout s result e = ground arith

  submit_call-Reports :
      (is_filtered : Bool) (call : SubmitRetryableCall) (block : Block) (s : J.State)
      (result : SubmitRetryableOutcome × Bool)
      → (submit_call J P a chain_id from ticket_id is_filtered call block s).0 ≡ ok result
      → Reports is_filtered call.gas_limit result
  unfolding submit_call Reports pay_and_record settle_gas
  submit_call-Reports true call block s result e = ground arith
  submit_call-Reports false call block s result e = ground arith

  -- Whatever the journal does, a submission that gives a result reports by `Reports`: it reports a
  -- created ticket only if it is not filtered, with the gas of its redeem or else with no gas and no
  -- escrow to track; a reported failure tracks no escrow, and has gas only if it is filtered.
  pub submit_filtered-Reports :
      (is_filtered : Bool) (call : SubmitRetryableCall) (block : Block) (s : J.State)
      (result : SubmitRetryableOutcome × Bool)
      → (submit_filtered J P a chain_id from ticket_id call block is_filtered s).0 ≡ ok result
      → Reports is_filtered call.gas_limit result
  unfolding submit_filtered Reports submit_call pay_and_record settle_gas
  submit_filtered-Reports true call block s result e = ground arith
  submit_filtered-Reports false call block s result e =
      submit_call-Reports false call block s result e
