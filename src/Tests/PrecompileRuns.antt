-- ===== src/Tests/PrecompileRuns.antt =====
-- The theorem on the gas of a redeem, applied.
use arb_revm.Base.{
  [], arith, ap, false, if◌then◌else◌, leb, length, refl, replicate, true, ℕ, ◌++◌, ◌-◌, ◌∷◌, ◌<◌,
  ◌≡◌, le→leb, ltb, List, ◌∙◌, append-nil,
}
use arb_revm.Base.Bytes.{be_bytes, length-be_bytes}
use arb_revm.Precompiles.{ArbCall, Host, LawfulGas, InstructionResult}
use arb_revm.Precompiles.ArbRetryableTx.{redeem_result, redeem_reserve, backlog_cost_lookup_burn}
use arb_revm.Precompiles.Dispatch.{ArbPrecompilesEnum, Method, charge_call, words_for_bytes}
use arb_revm.Precompiles.RedeemGas.{charge_call-redeem_result}
use arb_revm.Tests.Toy.{toy}
use arb_revm.Tests.TransactionRuns.{platform}

abbrev encode_words : List ℕ → List ℕ
encode_words [] = []
encode_words (w ∷ ws) = be_bytes 32 w ++ encode_words ws

-- A counter that is what remains.
abbrev host : Host
host = record {
  Gas = ℕ;
  new_gas = λ limit. limit;
  new_spent = λ limit. 0;
  spend_all = λ g. 0;
  record_regular_cost = λ g cost. if leb cost g then (true, g - cost) else (false, g);
  encode_words = encode_words;
  encode_array = encode_words;
  message_bytes = λ m. [];
}

short_lem : (g cost : ℕ) → g < cost → host.record_regular_cost g cost ≡ (false, g)
short_lem g cost short = ground arith

abbrev host-LawfulGas : LawfulGas host
host-LawfulGas = record {
  remaining = λ g. g;
  charged = λ g cost. g - cost;
  record_fits = λ g cost fits. simp (le→leb cost g fits);
  record_short = short_lem;
  remaining-new_gas = λ limit. refl;
  remaining-charged = λ g cost fits. refl;
  length-encode_words = λ word. ap length (append-nil (be_bytes 32 word)) ∙ length-be_bytes 32 word;
}

abbrev selector : Method → List ℕ
selector method = 1 ∷ 2 ∷ 3 ∷ 4 ∷ []

abbrev redeem_call : ArbCall
redeem_call = record {
  input = replicate 36 7;
  gas_limit = 200000;
  caller = 5;
  value = 0;
  acting_address = 110;
  bytecode_address = 110;
  is_static = false;
}

charge_call-redeem_result_example :
    let r =
      charge_call toy host selector ArbPrecompilesEnum.arb_retryable_tx redeem_call
        (7 ∷ 7 ∷ 7 ∷ 7 ∷ [])
        (redeem_result toy platform host redeem_call 99 21600 6600) in
    (r.result ≡ (if ltb 21600 6600 then InstructionResult.revert else InstructionResult.return))
    × (r.gas ≡ 21600 - 6600)
unfolding redeem_reserve words_for_bytes backlog_cost_lookup_burn
charge_call-redeem_result_example =
    charge_call-redeem_result toy platform host host-LawfulGas selector redeem_call
      (7 ∷ 7 ∷ 7 ∷ 7 ∷ []) 99 51 21600 6600 64 (omega arith) (omega arith) (omega arith)
