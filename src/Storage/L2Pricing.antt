-- ===== src/Storage/L2Pricing.antt =====
-- `L2Pricing` of crates/arb-revm/src/storage/l2_pricing.rs: the slots of the L2 gas market, and
-- which of its three models is in force. The operations are in the children `Constraints`,
-- `Update` and `Backlog`.
pub mod Exp
pub mod Constraints
pub mod Update
pub mod Backlog
pub mod Model
pub mod Charges
pub mod Reserve
pub mod Floor
use arb_revm.Base.{
  Bool, Bool-cases, List, Option, Option-cases, [], ap, append-nil, append_assoc, ap₂, arith,
  bit_and, bit_or, bit_xor, checked_add, checked_mul, checked_sub, dec_le, dec_lt, drop, eq_self,
  eq_true→eq, false, fun_ext, if◌then◌else◌, inl, inr, leb, length, length-append, le→leb, le→ltb,
  ltb, ltb→lt, lt→ltb, min, ne→eq_false, none, not, refl, replicate, saturating_add, saturating_mul,
  some, subst, suc, sym, take, true, u256_max, u64_max, unwrap_or, zero, ℕ, ℕ_discrete, ◌%◌, ◌&&◌,
  ◌*◌, ◌++◌, ◌+◌, ◌-◌, ◌/◌, ◌<◌, ◌==◌, ◌^◌, ◌||◌, ◌↔◌, ◌∎, ◌∙◌, ◌∷◌, ◌≡◌, ◌≡⟨◌⟩◌, ◌≢◌, ◌≤◌, ◌⊎◌,
}
use arb_revm.Base.Bytes.{be_bytes}
use arb_revm.Journal.{ArbJournal, M, pure, ◌>>=◌, ◌>>◌}
use arb_revm.Storage.Space.{
  StorageSpace, StorageSlot, storage_backed, open_subspace, open_subspace_with_key,
}
use arb_revm.Storage.Slot.{get_u64}

pub data GasModel : Type 0 where
  legacy single_gas_constraints multi_gas_constraints : GasModel

abbrev pub num_resource_kinds : ℕ
num_resource_kinds = 9

abbrev pub resource_kind_single_dim : ℕ
resource_kind_single_dim = 6

abbrev pub arbos_single_gas_constraints_version : ℕ
arbos_single_gas_constraints_version = 50

abbrev pub arbos_multi_constraint_fix_version : ℕ
arbos_multi_constraint_fix_version = 51

abbrev pub arbos_multi_gas_constraints_version : ℕ
arbos_multi_gas_constraints_version = 60

pub record GasConstraint : Type 0 where
  pub target : StorageSlot
  pub adjustment_window : StorageSlot
  pub backlog : StorageSlot

-- `weighted_resources` is the array, as a function of the resource kind.
pub record MultiGasConstraint : Type 0 where
  pub target : StorageSlot
  pub adjustment_window : StorageSlot
  pub backlog : StorageSlot
  pub max_weight : StorageSlot
  pub weighted_resources : ℕ → StorageSlot

pub record MultiGasFees : Type 0 where
  pub next : ℕ → StorageSlot
  pub current : ℕ → StorageSlot

pub record L2Pricing : Type 0 where
  pub speed_limit_per_second : StorageSlot
  pub per_block_gas_limit : StorageSlot
  pub per_tx_gas_limit : StorageSlot
  pub base_fee_wei : StorageSlot
  pub min_base_fee_wei : StorageSlot
  pub gas_backlog : StorageSlot
  pub pricing_inertia : StorageSlot
  pub backlog_tolerance : StorageSlot
  pub gas_constraints : StorageSpace
  pub multi_gas_constraints : StorageSpace
  pub multi_gas_fees : MultiGasFees

module _ (J : ArbJournal) where
  open J use {State}

  unfoldable pub open_fees : StorageSpace → MultiGasFees
  open_fees sp = record {
    next = λ kind. storage_backed J sp kind;
    current = λ kind. storage_backed J sp (num_resource_kinds + kind);
  }

  -- `L2Pricing::open`, at the offsets of `L2PricingOffset`.
  unfoldable pub open_l2_pricing : StorageSpace → L2Pricing
  unfolding open_fees
  open_l2_pricing sp = record {
    speed_limit_per_second = storage_backed J sp 0;
    per_block_gas_limit = storage_backed J sp 1;
    per_tx_gas_limit = storage_backed J sp 7;
    base_fee_wei = storage_backed J sp 2;
    min_base_fee_wei = storage_backed J sp 3;
    gas_backlog = storage_backed J sp 4;
    pricing_inertia = storage_backed J sp 5;
    backlog_tolerance = storage_backed J sp 6;
    gas_constraints = open_subspace_with_key J sp 0;
    multi_gas_constraints = open_subspace_with_key J sp 1;
    multi_gas_fees = open_fees (open_subspace_with_key J sp 2);
  }

  -- The element at an index of a sub-storage vector is named by the index, as eight bytes.
  unfoldable pub open_gas_constraint : L2Pricing → ℕ → GasConstraint
  open_gas_constraint l index =
      let sp = open_subspace J l.gas_constraints (be_bytes 8 index) in
      record {
        target = storage_backed J sp 0;
        adjustment_window = storage_backed J sp 1;
        backlog = storage_backed J sp 2;
      }

  unfoldable pub open_multi_gas_constraint : L2Pricing → ℕ → MultiGasConstraint
  open_multi_gas_constraint l index =
      let sp = open_subspace J l.multi_gas_constraints (be_bytes 8 index) in
      record {
        target = storage_backed J sp 0;
        adjustment_window = storage_backed J sp 1;
        backlog = storage_backed J sp 2;
        max_weight = storage_backed J sp 3;
        weighted_resources = λ kind. storage_backed J sp (4 + kind);
      }

  abbrev pub gas_constraints_length : L2Pricing → StorageSlot
  gas_constraints_length l = storage_backed J l.gas_constraints 0

  abbrev pub multi_gas_constraints_length : L2Pricing → StorageSlot
  multi_gas_constraints_length l = storage_backed J l.multi_gas_constraints 0

  unfoldable pub gas_constraints_len : L2Pricing → M State ℕ
  gas_constraints_len l = get_u64 J (gas_constraints_length l)

  unfoldable pub multi_gas_constraints_len : L2Pricing → M State ℕ
  multi_gas_constraints_len l = get_u64 J (multi_gas_constraints_length l)

  -- The length is read only from the version on that has the model.
  unfoldable pub active_from : ℕ → ℕ → M State ℕ → M State Bool
  active_from version arbos_version len =
      if leb version arbos_version then (len >>= λ n. pure (ltb 0 n)) else pure false

  unfoldable pub gas_model : L2Pricing → ℕ → M State GasModel
  gas_model l arbos_version = do
    multi ←
        active_from arbos_multi_gas_constraints_version arbos_version (multi_gas_constraints_len l)
    single ←
        if multi
        then pure false
        else active_from arbos_single_gas_constraints_version arbos_version (gas_constraints_len l)
    pure
        (if multi then multi_gas_constraints else if single then single_gas_constraints else legacy)
