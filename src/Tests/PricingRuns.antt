-- ===== src/Tests/PricingRuns.antt =====
-- The theorems on fees and prices, at concrete states.
use arb_revm.Storage.L1Pricing.Update.{update_for_batch_poster_spending}
use arb_revm.Storage.L1Pricing.Timestamps.{updated, update_for_batch_poster_spending-time}
use arb_revm.Base.{
  ◌≢◌, ◌⊎◌, [], arith, if◌then◌else◌, min, refl, some, true, u64_max, ℕ, ◌*◌, ◌+◌, ◌-◌, ◌<◌, ◌==◌,
  ◌^◌, ◌∷◌, ◌≡◌, ◌≤◌,
}
use arb_revm.Base.Int.{pos, negsuc}
use arb_revm.Journal.{err, invalid_timestamp, ok}
use arb_revm.Journal.Memory.{Memory}
use arb_revm.Tests.Toy.{toy, toy-Lawful, list_space, list_apart, slot_of_list, with_words}
use arb_revm.Storage.Space.{slot_for_hash}
use arb_revm.Storage.Slot.Runs.{held}
use arb_revm.Storage.L2Pricing.{open_l2_pricing}
use arb_revm.Storage.L2Pricing.Exp.{approx_exp_basis_points, four_positive}
use arb_revm.Storage.L2Pricing.Exp.Bounds.{approx_exp_bounds, approx_exp_mono}
use arb_revm.Storage.L2Pricing.Backlog.{shrink_backlog, backlog_update_cost}
use arb_revm.Storage.L2Pricing.Charges.{HasWords}
use arb_revm.Storage.L2Pricing.Reserve.{shrink_backlog-le-reserved}
use arb_revm.Storage.L2Pricing.Floor.{HasLegacyWords, legacy_update_lem}
use arb_revm.Storage.L2Pricing.Update.{update_pricing_model_legacy}
use arb_revm.Storage.BatchPosterTable.{BatchPosterTable, BatchPosterState, set_funds_due}
use arb_revm.Storage.BatchPosterTable.Funds.{set_funds_due_lem}
use arb_revm.Storage.L1Pricing.{L1Pricing, open_l1_pricing}
use arb_revm.Storage.L1Pricing.Payments.{pay_poster}
use arb_revm.Storage.L1Pricing.Payout.{IsPaid, pay_poster_lem}
use arb_revm.Storage.L1Pricing.Division.{floor_div, div_i256_like_go_bigint_lem}
use arb_revm.Storage.L1Pricing.Arithmetic.{div_i256_like_go_bigint}
use arb_revm.L1Cost.{compute_poster_info, batch_poster_address, poster_charge}
use arb_revm.L1Cost.Charge.{compute_poster_info-poster_fee, compute_poster_info-poster_cost}
use arb_revm.Spec.{arbos_version, from_arbos_version, into_eth_spec, arbos_32}
use arb_revm.Spec.Schedule.{
  from_arbos_version-latest, eth_spec_of, into_eth_spec-from_arbos_version,
}

-- A speed limit of 1000, a minimum base fee of 1000000, a backlog of 700, an inertia of 102 and a
-- tolerance of 10, in the slots 256 to 262.
abbrev legacy_state : Memory
legacy_state = with_words (λ a k.
    if k == 256
    then 1000
    else if k == 259
    then 1000000
    else if k == 260
    then 700
    else if k == 261
    then 102
    else if k == 262
    then 10
    else 0)

abbrev legacy_cell : Memory → ℕ → ℕ
legacy_cell s i = s.words 7 (slot_for_hash toy list_space i)

legacy_state-HasLegacyWords :
    HasLegacyWords toy toy-Lawful list_space (list_apart 8 (omega arith)) legacy_state
legacy_state-HasLegacyWords = record {
  speed_limit = rw (slot_of_list 0 (omega arith)) (omega arith);
  backlog = rw (slot_of_list 4 (omega arith)) (omega arith);
  inertia = rw (slot_of_list 5 (omega arith)) (omega arith);
  tolerance = rw (slot_of_list 6 (omega arith)) (omega arith);
}

legacy_update_lem_example :
    let (r, s') = update_pricing_model_legacy toy (open_l2_pricing toy list_space) 1 legacy_state in
    (r ≡ ok tt)
    × (legacy_cell s' 4 ≡ legacy_cell legacy_state 4 - min (1 * legacy_cell legacy_state 0) u64_max)
    × (legacy_cell s' 3 ≡ legacy_cell legacy_state 3)
    × (legacy_cell legacy_state 3 ≤ legacy_cell s' 2)
legacy_update_lem_example =
    legacy_update_lem toy toy-Lawful list_space (list_apart 8 (omega arith)) 1 legacy_state
      legacy_state-HasLegacyWords
      (rw (slot_of_list 5 (omega arith), slot_of_list 0 (omega arith)) (omega arith))
      (rw (slot_of_list 3 (omega arith)) (omega arith))

-- Two gas constraints everywhere, each with a backlog of 2.
abbrev two_state : Memory
two_state = with_words (λ a k. 2)

two_state-HasWords : HasWords toy toy-Lawful (open_l2_pricing toy list_space) two_state
two_state-HasWords = record {
  lengths = record { single_in_u64 = omega arith; multi_in_u64 = omega arith };
  backlog_in_u64 = omega arith;
  single_in_u64 = λ i. omega arith;
  multi_in_u64 = λ i. omega arith;
  weight_in_u64 = λ i. omega arith;
}

shrink_backlog-le-reserved_example :
    (charge reserved : ℕ) × ((shrink_backlog toy (open_l2_pricing toy list_space) 5 60 two_state).0
      ≡ ok charge)
    × ((backlog_update_cost toy (open_l2_pricing toy list_space) 60 two_state).0 ≡ ok reserved)
    × (charge ≤ reserved)
shrink_backlog-le-reserved_example =
    shrink_backlog-le-reserved toy toy-Lawful (open_l2_pricing toy list_space) 5 60 two_state
      two_state-HasWords (omega arith)

approx_exp_bounds_example :
    (10000 ≤ approx_exp_basis_points (pos 5000) 4 four_positive)
    × (approx_exp_basis_points (pos 5000) 4 four_positive ≤ 2 ^ 63 - 1)
    × (approx_exp_basis_points (negsuc 5000) 4 four_positive ≤ 10000)
approx_exp_bounds_example = approx_exp_bounds 5000 4 four_positive

approx_exp_mono_example :
    approx_exp_basis_points (pos 5000) 4 four_positive
    ≤ approx_exp_basis_points (pos 6000) 4 four_positive
approx_exp_mono_example = approx_exp_mono 5000 6000 4 four_positive (omega arith)

-- A poster that is owed 30 of 50, in an account of the pool with 40.
abbrev table : BatchPosterTable
table = record {
  poster_info = list_space;
  poster_address_set = record {
    backing = list_space;
    size = record { account = 7; slot = 9 };
    by_address = list_space;
  };
  total_funds_due = record { account = 7; slot = 0 };
}

abbrev poster : BatchPosterState
poster = record {
  funds_due = record { account = 7; slot = 1 };
  pay_to = record { account = 7; slot = 2 };
  posters_table = table;
}

abbrev owed_state : Memory
owed_state = record (with_words (λ a k. if k == 0 then 50 else if k == 1 then 30 else 12)) {
  funds = λ a. 40;
}

set_funds_due_lem_example :
    let (r, s') = set_funds_due toy poster 10 owed_state in
    (r ≡ ok tt)
    × (held toy toy-Lawful s' poster.funds_due ≡ 10)
    × (held toy toy-Lawful s' table.total_funds_due - held toy toy-Lawful s' poster.funds_due ≡ 20)
set_funds_due_lem_example =
    set_funds_due_lem toy toy-Lawful poster 10 owed_state (refl, λ e. omega arith) (omega arith)
      (omega arith)

abbrev pricing : L1Pricing
pricing = record (open_l1_pricing toy list_space) {
  l1_fees_available = record { account = 7; slot = 3 };
}

pay_poster_lem_example :
    let (r, s') = pay_poster toy pricing poster true 25 owed_state in
    (r ≡ ok tt) × IsPaid toy toy-Lawful poster 25 owed_state s'
pay_poster_lem_example =
    pay_poster_lem toy toy-Lawful pricing poster true 25 owed_state refl (λ e. omega arith)
      (omega arith) (omega arith)

div_i256_like_go_bigint_lem_example :
    div_i256_like_go_bigint (negsuc 6) (pos 2) ≡ floor_div (negsuc 6) 2
div_i256_like_go_bigint_lem_example = div_i256_like_go_bigint_lem (negsuc 6) 2 refl (omega arith)

compute_poster_info-poster_fee_example :
    let info = compute_poster_info (λ bytes level. some 3) (1 ∷ []) batch_poster_address 5 7 1 in
    (info.poster_fee ≡ 7 * info.poster_gas) × (info.poster_fee ≤ info.poster_cost)
compute_poster_info-poster_fee_example =
    compute_poster_info-poster_fee (λ bytes level. some 3) (1 ∷ []) batch_poster_address 5 7 1

compute_poster_info-poster_cost_example :
    let info = compute_poster_info (λ bytes level. some 3) (1 ∷ []) batch_poster_address 5 7 1 in
    info.poster_cost < info.poster_fee + 7
unfolding compute_poster_info poster_charge
compute_poster_info-poster_cost_example =
    compute_poster_info-poster_cost (λ bytes level. some 3) (1 ∷ []) batch_poster_address 5 7 1
      (omega arith) (omega arith)

from_arbos_version-latest_example :
    (arbos_version (from_arbos_version 35) ≤ 35)
    × (arbos_version arbos_32 ≤ arbos_version (from_arbos_version 35))
unfolding arbos_version
from_arbos_version-latest_example =
    from_arbos_version-latest 35 arbos_32 (omega arith) (omega arith)

into_eth_spec-from_arbos_version_example : into_eth_spec (from_arbos_version 35) ≡ eth_spec_of 35
into_eth_spec-from_arbos_version_example = into_eth_spec-from_arbos_version 35

-- Every word is 1000, the time of the last update too, and a report of time 1500 comes at 2000.
abbrev late_state : Memory
late_state = with_words (λ a k. 1000)

abbrev reports : L1Pricing
reports = open_l1_pricing toy list_space

update_for_batch_poster_spending-time_example :
    let last : ℕ = 1000 in
    let run = update_for_batch_poster_spending toy reports 11 1500 2000 9 1 1 late_state in
    ((1500 ≤ 2000)
      × ((last ≡ 0) ⊎ (last ≤ 1500))
      × (run
          ≡ updated toy toy-Lawful reports 11
              (if last == 0 then 1500 - 1 else last)
              1500
              2000
              9
              1
              1
              late_state))
    ⊎ (((2000 < 1500) ⊎ ((last ≢ 0) × (1500 < last)))
        × (run.0 ≡ err invalid_timestamp)
        × ((a k : ℕ) → run.1.words a k ≡ 1000))
update_for_batch_poster_spending-time_example =
    update_for_batch_poster_spending-time toy toy-Lawful reports 11 1500 2000 9 1 1 late_state
      (λ e. omega arith) (omega arith)
