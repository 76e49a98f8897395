-- ===== src/Storage/L1Pricing.antt =====
-- `L1Pricing` of crates/arb-revm/src/storage/l1_pricing.rs: what the chain owes for posting its
-- data on L1, and the price that it asks for a unit of data.
pub mod Arithmetic
pub mod Division
pub mod Payments
pub mod Payout
pub mod Update
pub mod Timestamps
use arb_revm.Base.{
  Bool, Bool-cases, List, Option, Option-cases, [], ap, append-nil, append_assoc, ap₂, arith,
  bit_and, bit_or, bit_xor, checked_add, checked_mul, checked_sub, dec_le, dec_lt, drop, eq_self,
  eq_true→eq, false, fun_ext, if◌then◌else◌, inl, inr, leb, length, length-append, le→leb, le→ltb,
  ltb, ltb→lt, lt→ltb, map_option, min, ne→eq_false, none, not, refl, replicate, saturating_add,
  saturating_mul, some, subst, suc, sym, take, true, u256_max, u64_max, unwrap_or, zero, ℕ,
  ℕ_discrete, ◌%◌, ◌&&◌, ◌*◌, ◌++◌, ◌+◌, ◌-◌, ◌/◌, ◌<◌, ◌==◌, ◌^◌, ◌||◌, ◌↔◌, ◌∎, ◌∙◌, ◌∷◌, ◌≡◌,
  ◌≡⟨◌⟩◌, ◌≢◌, ◌≤◌, ◌⊎◌,
}
use arb_revm.Base.Int.{ℤ, checked, ◌+ℤ◌, ◌-ℤ◌}
use arb_revm.Storage.Space.{StorageSpace, StorageSlot, storage_backed, open_subspace_with_key}
use arb_revm.Storage.Slot.{get_u256, set_u256, get_i256}
use arb_revm.Storage.BatchPosterTable.{BatchPosterTable, open_batch_poster_table, total_funds_due}
use arb_revm.Journal.{ArbJournal, M, pure, or_raise, overflow, underflow, ◌>>=◌}

pub record L1Pricing : Type 0 where
  pub batch_poster_table : BatchPosterTable
  pub pay_rewards_to : StorageSlot
  pub equilibration_units : StorageSlot
  pub inertia : StorageSlot
  pub per_unit_reward : StorageSlot
  pub last_update_time : StorageSlot
  pub funds_due_for_rewards : StorageSlot
  pub units_since_update : StorageSlot
  pub price_per_unit : StorageSlot
  pub last_surplus : StorageSlot
  pub per_batch_gas_cost : StorageSlot
  pub amortized_cost_cap_bips : StorageSlot
  pub l1_fees_available : StorageSlot
  pub gas_floor_per_token : StorageSlot
  pub storage : StorageSpace

module _ (J : ArbJournal) where
  open J use {State}

  abbrev pub open_l1_pricing : StorageSpace → L1Pricing
  open_l1_pricing sp = record {
    batch_poster_table = open_batch_poster_table J (open_subspace_with_key J sp 0);
    pay_rewards_to = storage_backed J sp 0;
    equilibration_units = storage_backed J sp 1;
    inertia = storage_backed J sp 2;
    per_unit_reward = storage_backed J sp 3;
    last_update_time = storage_backed J sp 4;
    funds_due_for_rewards = storage_backed J sp 5;
    units_since_update = storage_backed J sp 6;
    price_per_unit = storage_backed J sp 7;
    last_surplus = storage_backed J sp 8;
    per_batch_gas_cost = storage_backed J sp 9;
    amortized_cost_cap_bips = storage_backed J sp 10;
    l1_fees_available = storage_backed J sp 11;
    gas_floor_per_token = storage_backed J sp 12;
    storage = sp;
  }

  -- `i256_from` is alloy's `I256::from`.
  unfoldable pub get_l1_pricing_surplus : (ℕ → ℤ) → L1Pricing → M State ℤ
  get_l1_pricing_surplus i256_from p = do
    refunds_due ← total_funds_due J p.batch_poster_table
    rewards_due ← get_i256 J p.funds_due_for_rewards
    available ← get_u256 J p.l1_fees_available
    needed ← or_raise (checked 255 (i256_from refunds_due +ℤ rewards_due)) overflow
    or_raise (checked 255 (i256_from available -ℤ needed)) underflow

  unfoldable pub add_to_l1_fees_available : L1Pricing → ℕ → M State (Unit {0})
  add_to_l1_fees_available p delta = do
    current ← get_u256 J p.l1_fees_available
    next ← or_raise (checked_add 256 current delta) overflow
    set_u256 J p.l1_fees_available next
