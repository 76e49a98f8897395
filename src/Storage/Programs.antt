-- ===== src/Storage/Programs.antt =====
-- `ArbosPrograms` of crates/arb-revm/src/storage/programs.rs: the parameters of Stylus in one packed
-- word, a packed word for each activated program, and the pricer of its data.
pub mod Genesis
pub mod Records
pub mod DataFee
use arb_revm.Base.{
  Bool, Bool-cases, List, Option, Option-cases, [], ap, append-nil, append_assoc, ap₂, arith,
  bit_and, bit_or, bit_xor, checked_add, checked_mul, checked_sub, dec_le, dec_lt, drop, eq_self,
  eq_true→eq, false, fun_ext, if◌then◌else◌, inl, inr, leb, length, length-append, le→leb, le→ltb,
  ltb, ltb→lt, lt→ltb, map_option, min, ne→eq_false, none, not, refl, replicate, saturating_add,
  saturating_mul, some, subst, suc, sym, take, true, u256_max, u64_max, unwrap_or, zero, ℕ,
  ℕ_discrete, ◌%◌, ◌&&◌, ◌*◌, ◌++◌, ◌+◌, ◌-◌, ◌/◌, ◌<◌, ◌==◌, ◌^◌, ◌||◌, ◌↔◌, ◌∎, ◌∙◌, ◌∷◌, ◌≡◌,
  ◌≡⟨◌⟩◌, ◌≢◌, ◌≤◌, ◌⊎◌,
}
use arb_revm.Base.Int.{ℤ, pos}
use arb_revm.Journal.{ArbJournal, M, pure, ◌>>=◌, ◌>>◌}
use arb_revm.Storage.Space
use arb_revm.Storage.StylusParamLayout
use arb_revm.Storage.Space.{StorageSpace, StorageSlot, storage_backed, open_subspace_with_key}
use arb_revm.Storage.Slot.{get_u64, get_u32, set_u64, set_u32}
use arb_revm.Storage.L2Pricing.Exp.{approx_exp_basis_points, twelve_positive, one_in_bips}
use arb_revm.Base.Bytes.{be_bytes, from_be}
use arb_revm.Storage.AddressSet.{AddressSet, open_address_set}
use arb_revm.Storage.Packed.{pack_uint, unpack_uint, slice, copy_at, byte_at}

-- `ProgramInfo`.
pub record ProgramInfo : Type 0 where
  pub version : ℕ
  pub init_cost : ℕ
  pub cached_cost : ℕ
  pub footprint : ℕ
  pub activated_at : ℕ
  pub asm_estimate_kb : ℕ
  pub cached : Bool

pub record ProgramDataPricer : Type 0 where
  pub demand : StorageSlot
  pub bytes_per_second : StorageSlot
  pub last_update_time : StorageSlot
  pub min_price : StorageSlot
  pub inertia : StorageSlot

pub record ArbosPrograms : Type 0 where
  pub root : StorageSpace
  pub params : StorageSpace
  pub program_data : StorageSpace
  pub module_hashes : StorageSpace
  pub data_pricer : ProgramDataPricer
  pub cache_managers : AddressSet
  pub activation_gas : StorageSlot

abbrev pub arbitrum_start_time : ℕ
arbitrum_start_time = 1421388000

abbrev pub initial_bytes_per_second : ℕ
initial_bytes_per_second = 34865

abbrev pub initial_data_min_price : ℕ
initial_data_min_price = 82928201

abbrev pub initial_data_inertia : ℕ
initial_data_inertia = 21360419

abbrev pub initial_max_wasm_size : ℕ
initial_max_wasm_size = 128 * 1024

abbrev pub initial_max_fragment_count : ℕ
initial_max_fragment_count = 4

-- `pack_uint(&mut word, field.0, field.1, value)`.
abbrev pub pack : ℕ × ℕ → ℕ → List ℕ → List ℕ
pack field value word = pack_uint word field.0 field.1 value

-- The fields that every version writes, with the constants `INITIAL_…`.
unfoldable pub initial_word : List ℕ
initial_word =
    let word : List ℕ = pack StylusParamLayout.version 1 (replicate 32 0) in
    let word = pack StylusParamLayout.ink_price 10000 word in
    let word = pack StylusParamLayout.max_stack_depth (4 * 65536) word in
    let word = pack StylusParamLayout.free_pages 2 word in
    let word = pack StylusParamLayout.page_gas 1000 word in
    let word = pack StylusParamLayout.page_limit 128 word in
    let word = pack StylusParamLayout.min_init_gas 72 word in
    let word = pack StylusParamLayout.min_cached_init_gas 11 word in
    let word = pack StylusParamLayout.init_cost_scalar 50 word in
    let word = pack StylusParamLayout.cached_cost_scalar 50 word in
    let word = pack StylusParamLayout.expiry_days 365 word in
    let word = pack StylusParamLayout.keepalive_days 31 word in
    pack StylusParamLayout.block_cache_size 32 word

-- The fields that later versions add.
unfoldable pub added_fields : Bool → Bool → List ℕ → List ℕ
added_fields has_wasm_size has_fragments word =
    let word =
      if has_wasm_size
      then pack StylusParamLayout.max_wasm_size initial_max_wasm_size word
      else word in
    if has_fragments
    then pack StylusParamLayout.max_fragment_count initial_max_fragment_count word
    else word

unfoldable pub genesis_word : ℕ → List ℕ
genesis_word arbos_version = added_fields (leb 40 arbos_version) (leb 60 arbos_version) initial_word

-- The word that `write_program` packs.
unfoldable pub program_word : ProgramInfo → List ℕ
program_word info =
    let word : List ℕ = copy_at (replicate 32 0) 0 (be_bytes 2 info.version) in
    let word = copy_at word 2 (be_bytes 2 info.init_cost) in
    let word = copy_at word 4 (be_bytes 2 info.cached_cost) in
    let word = copy_at word 6 (be_bytes 2 info.footprint) in
    let word = pack_uint word 8 3 info.activated_at in
    let word = pack_uint word 11 3 info.asm_estimate_kb in
    copy_at word 14 ((if info.cached then 1 else 0) ∷ [])

-- The `ProgramInfo` that `read_program` unpacks.
unfoldable pub program_of_word : List ℕ → ProgramInfo
program_of_word word = record {
  version = from_be (slice word 0 2);
  init_cost = from_be (slice word 2 2);
  cached_cost = from_be (slice word 4 2);
  footprint = from_be (slice word 6 2);
  activated_at = unpack_uint word 8 3;
  asm_estimate_kb = unpack_uint word 11 3;
  cached = not (byte_at word 14 == 0);
}

-- The fee for `temp_bytes` of data under a demand, in wei: a price per byte that grows with the
-- exponential of demand over inertia.
unfoldable pub data_fee : ℕ → ℕ → ℕ → ℕ → ℕ
data_fee demand min_price inertia temp_bytes =
    let exponent = if inertia == 0 then 0 else one_in_bips * demand / inertia in
    let multiplier = approx_exp_basis_points (pos exponent) 12 twelve_positive in
    let cost_per_byte = saturating_mul 64 min_price multiplier / one_in_bips in
    saturating_mul 64 cost_per_byte temp_bytes

-- The demand after `passed` seconds of refill and `temp_bytes` more.
unfoldable pub next_demand : ℕ → ℕ → ℕ → ℕ → ℕ → ℕ
next_demand demand bytes_per_second last_update_time time temp_bytes =
    let passed = min (time - last_update_time) (2 ^ 32 - 1) in
    let credit = saturating_mul 32 bytes_per_second passed in
    saturating_add 32 (demand - credit) temp_bytes

module _ (J : ArbJournal) where
  open J use {State}

  abbrev pub open_data_pricer : StorageSpace → ProgramDataPricer
  open_data_pricer storage = record {
    demand = storage_backed J storage 0;
    bytes_per_second = storage_backed J storage 1;
    last_update_time = storage_backed J storage 2;
    min_price = storage_backed J storage 3;
    inertia = storage_backed J storage 4;
  }

  abbrev pub open_programs : StorageSpace → ArbosPrograms
  open_programs root = record {
    root = root;
    params = open_subspace_with_key J root 0;
    program_data = open_subspace_with_key J root 1;
    module_hashes = open_subspace_with_key J root 2;
    data_pricer = open_data_pricer (open_subspace_with_key J root 3);
    cache_managers = open_address_set J (open_subspace_with_key J root 4);
    activation_gas = storage_backed J (open_subspace_with_key J root 5) 0;
  }

  unfoldable pub read_params_word : ArbosPrograms → M State (List ℕ)
  read_params_word t = do word ← Space.get J t.params 0; pure (be_bytes 32 word)

  unfoldable pub write_params_word : ArbosPrograms → List ℕ → M State (Unit {0})
  write_params_word t word = Space.set J t.params 0 (from_be word)

  unfoldable pub initialize_programs : ArbosPrograms → ℕ → M State (Unit {0})
  initialize_programs t arbos_version = do
    write_params_word t (genesis_word arbos_version)
    set_u32 J t.data_pricer.bytes_per_second initial_bytes_per_second
    set_u64 J t.data_pricer.last_update_time arbitrum_start_time
    set_u32 J t.data_pricer.min_price initial_data_min_price
    set_u32 J t.data_pricer.inertia initial_data_inertia

  unfoldable pub read_program : ArbosPrograms → ℕ → M State ProgramInfo
  read_program t code_hash = do
    word ← Space.get J t.program_data code_hash
    pure (program_of_word (be_bytes 32 word))

  unfoldable pub write_program : ArbosPrograms → ℕ → ProgramInfo → M State (Unit {0})
  write_program t code_hash info =
      Space.set J t.program_data code_hash (from_be (program_word info))

  unfoldable pub write_module_hash : ArbosPrograms → ℕ → ℕ → M State (Unit {0})
  write_module_hash t code_hash module_hash = Space.set J t.module_hashes code_hash module_hash

  unfoldable pub update_data_model : ArbosPrograms → ℕ → ℕ → M State ℕ
  update_data_model t temp_bytes time = do
    old_demand ← get_u32 J t.data_pricer.demand
    bytes_per_second ← get_u32 J t.data_pricer.bytes_per_second
    last_update_time ← get_u64 J t.data_pricer.last_update_time
    min_price ← get_u32 J t.data_pricer.min_price
    inertia ← get_u32 J t.data_pricer.inertia
    let demand = next_demand old_demand bytes_per_second last_update_time time temp_bytes
    set_u32 J t.data_pricer.demand demand
    set_u64 J t.data_pricer.last_update_time time
    pure (data_fee demand min_price inertia temp_bytes)
