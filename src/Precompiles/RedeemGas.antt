-- ===== src/Precompiles/RedeemGas.antt =====
-- The gas of a redeem of crates/arb-revm/src/precompiles/arb_retryable_tx.rs, after the dispatch of
-- mod.rs has charged the call.
use arb_revm.Base.{
  arith, ◌+◌, ◌*◌, ◌<◌, ◌∙◌, ap, ap₂, ◌^◌, ◌≤◌, ◌-◌, List, ℕ, ◌≡◌, false, length, ltb,
  if◌then◌else◌, refl, inl, inr, Bool-cases, sym, subst, true, ltb→lt,
}
use arb_revm.Journal.{ArbJournal}
use arb_revm.Transactions.{Platform}
use arb_revm.Precompiles.{Host, LawfulGas, ArbCall, InterpreterResult, InstructionResult}
use arb_revm.Precompiles.ArbRetryableTx.{
  redeem_reserve, backlog_cost_lookup_burn, redeem_result, retry_tx_gas_minimum,
}
use arb_revm.Precompiles.Dispatch.{
  arbos_call_extra_gas, method_is_pure, words_for_bytes, copy_gas, arbos_state_open_gas, Method,
  charge_call, is_fatal, ArbPrecompilesEnum,
}

module _ (J : ArbJournal) (P : Platform J) (H : Host) (G : LawfulGas H)
    (selector : Method → List ℕ) where
  charge : ArbCall → List ℕ → InterpreterResult H.Gas → InterpreterResult H.Gas
  charge = charge_call J H selector ArbPrecompilesEnum.arb_retryable_tx

  -- A redeem's result and what remains of its gas, once its price fits.
  charge-taken :
      (call : ArbCall) (sel : List ℕ) (r : InterpreterResult H.Gas)
      → is_fatal r.result ≡ false
      → arbos_call_extra_gas selector ArbPrecompilesEnum.arb_retryable_tx
          (length call.input)
          (length r.output)
          sel
        ≤ G.remaining r.gas
      → ((charge call sel r).result ≡ r.result)
        × (G.remaining (charge call sel r).gas
            ≡ G.remaining r.gas
              - arbos_call_extra_gas selector ArbPrecompilesEnum.arb_retryable_tx
                  (length call.input)
                  (length r.output)
                  sel)
  unfolding charge charge_call
  charge-taken call sel r ordinary fits = (
    simp (ordinary, G.record_fits r.gas _ fits),
    simp (ordinary, G.record_fits r.gas _ fits, G.remaining-charged r.gas _ fits),
  )

  -- The price of the call: opening the state, and the copies.
  extra_lem :
      (sel : List ℕ) (input_len output_len : ℕ)
      → arbos_call_extra_gas selector ArbPrecompilesEnum.arb_retryable_tx input_len output_len sel
        ≡ copy_gas * words_for_bytes (input_len - 4)
          + copy_gas * words_for_bytes output_len
          + arbos_state_open_gas
  unfolding arbos_call_extra_gas method_is_pure
  extra_lem sel input_len output_len = refl

  open_cost_le : (input_len : ℕ) → input_len ≤ 36 → copy_gas * words_for_bytes (input_len - 4) ≤ 3
  unfolding words_for_bytes
  open_cost_le input_len short = omega arith

  reserve_covers :
      (version reserved n limit : ℕ)
      → limit < 2 ^ 64
      → redeem_reserve version reserved n + retry_tx_gas_minimum ≤ limit
      → reserved + 1000 ≤ limit
  unfolding redeem_reserve words_for_bytes backlog_cost_lookup_burn
  reserve_covers version reserved n limit small enough = ground arith

  new-remaining :
      (limit cost : ℕ)
      → cost ≤ limit
      → G.remaining (H.record_regular_cost (H.new_gas limit) cost).1 ≡ limit - cost
  new-remaining limit cost fits =
      let there = subst (λ l. cost ≤ l) (sym (G.remaining-new_gas limit)) fits in
      simp (
        G.record_fits (H.new_gas limit) cost there,
        G.remaining-charged (H.new_gas limit) cost there,
        G.remaining-new_gas limit,
      )

  -- The charge of a result whose counter has just been spent up to a cost.
  charge-after :
      (call : ArbCall) (sel : List ℕ) (r : InterpreterResult H.Gas) (cost extra : ℕ)
      → is_fatal r.result ≡ false
      → r.gas ≡ (H.record_regular_cost (H.new_gas call.gas_limit) cost).1
      → extra
        ≡ copy_gas * words_for_bytes (length call.input - 4)
          + copy_gas * words_for_bytes (length r.output)
          + arbos_state_open_gas
      → cost + extra ≤ call.gas_limit
      → ((charge call sel r).result ≡ r.result)
        × (G.remaining (charge call sel r).gas ≡ call.gas_limit - cost - extra)
  charge-after call sel r cost extra ordinary counter price fits =
      let price_lem = price ∙ sym (extra_lem sel (length call.input) (length r.output)) in
      let left = ap G.remaining counter ∙ new-remaining call.gas_limit cost (omega arith) in
      let (result, gas) = charge-taken call sel r ordinary (omega arith) in
      (result, gas ∙ ap₂ (λ a b. a - b) left (sym price_lem))

  overrun :
      (call : ArbCall) (sel : List ℕ) (hash reserved actual : ℕ)
      → ltb reserved actual ≡ true
      → length call.input ≤ 36
      → reserved + 1000 ≤ call.gas_limit
      → let r = charge call sel (redeem_result J P H call hash reserved actual) in
        (r.result ≡ InstructionResult.revert) × (G.remaining r.gas ≡ 0)
  unfolding redeem_result words_for_bytes
  overrun call sel hash reserved actual over short enough =
      let open_cost = open_cost_le (length call.input) short in
      let extra = arbos_state_open_gas + copy_gas * words_for_bytes (length call.input - 4) in
      let (result, gas) =
        charge-after call sel (redeem_result J P H call hash reserved actual)
          (call.gas_limit - extra) extra (simp (over)) (simp (over)) (simp (over) (omega arith))
          (omega arith) in
      (result ∙ simp (over), gas ∙ omega arith)

  within :
      (call : ArbCall) (sel : List ℕ) (hash reserved actual : ℕ)
      → ltb reserved actual ≡ false
      → length call.input ≤ 36
      → reserved + 1000 ≤ call.gas_limit
      → let r = charge call sel (redeem_result J P H call hash reserved actual) in
        (r.result ≡ InstructionResult.return) × (G.remaining r.gas ≡ reserved - actual)
  unfolding redeem_result words_for_bytes
  within call sel hash reserved actual covered short enough =
      let open_cost = open_cost_le (length call.input) short in
      let extra = arbos_state_open_gas + copy_gas * words_for_bytes (length call.input - 4) in
      let (result, gas) =
        charge-after call sel (redeem_result J P H call hash reserved actual)
          (call.gas_limit - (reserved - actual) - (extra + 3)) (extra + 3) (simp (covered))
          (simp (covered)) (simp (covered, G.length-encode_words hash) (omega arith))
          (omega arith) in
      (result ∙ simp (covered), gas ∙ omega arith)

  -- A redeem of a call of 36 bytes at most whose gas covers the reserve and the least donation, when its
  -- call has been charged: it returns all that the backlog did not cost of what was reserved for it;
  -- if the backlog cost more than its reserve, the redeem reverts and nothing remains.
  pub charge_call-redeem_result :
      (call : ArbCall) (sel : List ℕ) (hash version reserved actual calldata_len : ℕ)
      → length call.input ≤ 36
      → call.gas_limit < 2 ^ 64
      → redeem_reserve version reserved calldata_len + retry_tx_gas_minimum ≤ call.gas_limit
      → let r =
          charge_call J H selector ArbPrecompilesEnum.arb_retryable_tx call sel
            (redeem_result J P H call hash reserved actual) in
        (r.result
          ≡ (if ltb reserved actual then InstructionResult.revert else InstructionResult.return))
        × (G.remaining r.gas ≡ reserved - actual)
  unfolding charge
  charge_call-redeem_result call sel hash version reserved actual calldata_len short small enough =
      let covers = reserve_covers version reserved calldata_len call.gas_limit small enough in
      elim (Bool-cases (ltb reserved actual)) [
        | inl over ↦
            let (result, gas) = overrun call sel hash reserved actual over short covers in
            let less = ltb→lt reserved actual over in (result ∙ simp (over), gas ∙ omega arith)
        | inr covered ↦
            let (result, gas) = within call sel hash reserved actual covered short covers in
            (result ∙ simp (covered), gas)
      ]
