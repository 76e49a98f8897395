-- ===== src/Transactions/Upgrade.antt =====
-- `upgrade_arbos_version` of crates/arb-revm/src/internal_tx.rs: the migrations from one version of
-- ArbOS to another, one version at a time, and `install_precompiles_introduced_at` of arbos_init.rs.
pub mod Unsupported
use arb_revm.Base.{
  Bool, Bool-cases, List, Option, Option-cases, [], ap, append-nil, append_assoc, ap₂, arith,
  bit_and, bit_or, bit_xor, checked_add, checked_mul, checked_sub, dec_le, dec_lt, drop, eq_self,
  eq_true→eq, false, fun_ext, if◌then◌else◌, inl, inr, leb, length, length-append, le→leb, le→ltb,
  ltb, ltb→lt, lt→ltb, map_option, min, ne→eq_false, none, not, refl, replicate, saturating_add,
  saturating_mul, some, subst, suc, sym, take, true, u256_max, u64_max, unwrap_or, zero, ℕ,
  ℕ_discrete, ◌%◌, ◌&&◌, ◌*◌, ◌++◌, ◌+◌, ◌-◌, ◌/◌, ◌<◌, ◌==◌, ◌^◌, ◌||◌, ◌↔◌, ◌∎, ◌∙◌, ◌∷◌, ◌≡◌,
  ◌≡⟨◌⟩◌, ◌≢◌, ◌≤◌, ◌⊎◌, map,
}
use arb_revm.Base.Bytes.{be_bytes, from_be}
use arb_revm.Base.Int.{pos}
use arb_revm.Journal.{ArbJournal, M, ok, err, pure, raise, unsupported, ◌>>=◌, ◌>>◌}
use arb_revm.Storage.Slot.{get_uint, get_u64, set_u64, set_u256, set_i64, set_pre_version7}
use arb_revm.Storage.Packed.{pack_uint, copy_at, slice}
use arb_revm.Storage.StylusParamLayout
use arb_revm.Storage.ArbosState.{ArbosState}
use arb_revm.Storage.Programs.{
  initialize_programs, read_params_word, write_params_word, pack, initial_max_fragment_count,
}
use arb_revm.Storage.L1Pricing.Payments.{l1_pricer_funds_pool_address}
use arb_revm.Transactions.{Platform}
use arb_revm.Transactions.Filter.{filtered_transactions_state_address}
use arb_revm.Storage.AddressSet.{clear_list}

abbrev pub initial_per_batch_gas_cost_v12 : ℕ
initial_per_batch_gas_cost_v12 = 210000

abbrev pub initial_per_tx_gas_limit_v50 : ℕ
initial_per_tx_gas_limit_v50 = 32 * 1000000

abbrev pub history_storage_address : ℕ
history_storage_address = 0x0000F90827F1C53A10CB7A02335B175320002935

abbrev pub history_storage_code : List ℕ
history_storage_code =
    51 ∷ 115 ∷ 255 ∷ 255 ∷ 255 ∷ 255 ∷ 255 ∷ 255 ∷ 255 ∷ 255 ∷ 255 ∷ 255 ∷ 255 ∷ 255 ∷ 255 ∷ 255
    ∷ 255 ∷ 255 ∷ 255 ∷ 255 ∷ 255 ∷ 254 ∷ 20 ∷ 96 ∷ 96 ∷ 87 ∷ 96 ∷ 32 ∷ 54 ∷ 3 ∷ 96 ∷ 92 ∷ 87 ∷ 95
    ∷ 53 ∷ 99 ∷ 163 ∷ 177 ∷ 179 ∷ 29 ∷ 95 ∷ 82 ∷ 96 ∷ 32 ∷ 95 ∷ 96 ∷ 4 ∷ 96 ∷ 28 ∷ 96 ∷ 100 ∷ 90
    ∷ 250 ∷ 21 ∷ 96 ∷ 92 ∷ 87 ∷ 95 ∷ 81 ∷ 96 ∷ 1 ∷ 129 ∷ 3 ∷ 130 ∷ 17 ∷ 96 ∷ 92 ∷ 87 ∷ 129 ∷ 98 ∷ 5
    ∷ 255 ∷ 208 ∷ 145 ∷ 3 ∷ 17 ∷ 96 ∷ 92 ∷ 87 ∷ 98 ∷ 5 ∷ 255 ∷ 208 ∷ 144 ∷ 6 ∷ 84 ∷ 95 ∷ 82 ∷ 96
    ∷ 32 ∷ 95 ∷ 243 ∷ 91 ∷ 95 ∷ 95 ∷ 253 ∷ 91 ∷ 95 ∷ 53 ∷ 98 ∷ 5 ∷ 255 ∷ 208 ∷ 96 ∷ 1 ∷ 99 ∷ 163
    ∷ 177 ∷ 179 ∷ 29 ∷ 95 ∷ 82 ∷ 96 ∷ 32 ∷ 95 ∷ 96 ∷ 4 ∷ 96 ∷ 28 ∷ 96 ∷ 100 ∷ 90 ∷ 250 ∷ 21 ∷ 96
    ∷ 92 ∷ 87 ∷ 95 ∷ 81 ∷ 3 ∷ 6 ∷ 85 ∷ 0 ∷ []

-- `[INVALID]`
abbrev pub precompile_fake_code : List ℕ
precompile_fake_code = 0xFE ∷ []

-- A precompile: its address, the version that brings it, and whether it is for debugging.
pub record Precompile : Type 0 where
  pub address : ℕ
  pub min_version : ℕ
  pub debug_only : Bool

abbrev pub from_genesis : ℕ → Precompile
from_genesis address = record { address = address; min_version = 0; debug_only = false }

abbrev pub from_version : ℕ → ℕ → Precompile
from_version address v = record { address = address; min_version = v; debug_only = false }

abbrev pub arbos_precompiles : List Precompile
arbos_precompiles =
    map from_genesis
      (0x64 ∷ 0x65 ∷ 0x66 ∷ 0x67 ∷ 0x68 ∷ 0x69 ∷ 0x6B ∷ 0x6C ∷ 0x6D ∷ 0x6E ∷ 0x6F ∷ 0x70 ∷ [])
    ++ (from_version 0x71 30
        ∷ from_version 0x72 30
        ∷ from_version 0x73 41
        ∷ from_version 0x74 60
        ∷ (record { address = 0xFF; min_version = 0; debug_only = true })
        ∷ from_genesis 0xA4B05
        ∷ [])

-- `let _ = …`: the error of a step is dropped, what it wrote stays.
unfoldable pub ignore : {S A : Type 0} → M S A → M S (Unit {0})
ignore m s = let (r, s') = m s in (ok tt, s')

-- `….unwrap_or(default)`
unfoldable pub or_default : {S A : Type 0} → M S A → A → M S A
or_default m d s = let (r, s') = m s in elim r [ ok a ↦ (ok a, s') | err e ↦ (ok d, s') ]

module _ (J : ArbJournal) (P : Platform J) where
  open J use {State, account_balance}

  unfoldable pub install_from : List Precompile → ℕ → M State (Unit {0})
  install_from [] v = pure tt
  install_from (p ∷ ps) v =
      let rest = install_from ps v in
      if (p.min_version == v) && not p.debug_only
      then (do P.load_account p.address; P.set_code p.address precompile_fake_code; rest)
      else rest

  unfoldable pub install_precompiles_introduced_at : ℕ → M State (Unit {0})
  install_precompiles_introduced_at v = install_from arbos_precompiles v

  -- Reading the parameters of Stylus, changing them and writing them back.
  unfoldable pub change_params : ArbosState → (List ℕ → List ℕ) → M State (Unit {0})
  change_params a change = do
    word ← read_params_word J a.programs
    write_params_word J a.programs (change word)

  unfoldable pub upgrade_to_3 : ArbosState → M State (Unit {0})
  upgrade_to_3 a = do
    ignore (set_i64 J a.l1_pricing.per_batch_gas_cost (pos 0))
    ignore (set_u64 J a.l1_pricing.amortized_cost_cap_bips u64_max)

  unfoldable pub upgrade_to_10 : ArbosState → M State (Unit {0})
  upgrade_to_10 a = ignore (
      account_balance l1_pricer_funds_pool_address >>= λ balance.
      set_u256 J a.l1_pricing.l1_fees_available balance)

  unfoldable pub upgrade_to_11 : ArbosState → Bool → M State (Unit {0})
  upgrade_to_11 a first_time = do
    ignore (set_i64 J a.l1_pricing.per_batch_gas_cost (pos initial_per_batch_gas_cost_v12))
    old_cap ← or_default (get_u64 J a.l1_pricing.amortized_cost_cap_bips) 0
    if old_cap == u64_max
        then ignore (set_u64 J a.l1_pricing.amortized_cost_cap_bips 0)
        else pure tt
    if first_time then pure tt else ignore (clear_list J a.chain_owners)

  unfoldable pub upgrade_to_31 : ArbosState → M State (Unit {0})
  upgrade_to_31 a =
      change_params a
        (λ word. pack StylusParamLayout.min_init_gas 69 (pack StylusParamLayout.version 2 word))

  unfoldable pub upgrade_to_40 : ArbosState → M State (Unit {0})
  upgrade_to_40 a = do
    P.set_nonce history_storage_address 1
    P.set_code history_storage_address history_storage_code
    change_params a (λ word. copy_at word 25 (be_bytes 4 (128 * 1024)))

  unfoldable pub upgrade_to_50 : ArbosState → M State (Unit {0})
  upgrade_to_50 a = do
    word ← read_params_word J a.programs
    if ltb 22000 (from_be (slice word 5 4))
        then write_params_word J a.programs (copy_at word 5 (be_bytes 4 22000))
        else pure tt
    ignore (set_u64 J a.l2_pricing.per_tx_gas_limit initial_per_tx_gas_limit_v50)

  unfoldable pub upgrade_to_60 : ArbosState → M State (Unit {0})
  upgrade_to_60 a = do
    change_params a (λ word.
        pack StylusParamLayout.max_fragment_count initial_max_fragment_count
          (pack StylusParamLayout.max_wasm_size (256 * 1024) word))
    P.set_nonce filtered_transactions_state_address 1

  abbrev between : ℕ → ℕ → ℕ → Bool
  between low high v = leb low v && leb v high

  -- The versions that change nothing.
  abbrev pub is_unchanged : ℕ → Bool
  is_unchanged v =
      between 4 9 v
      || between 12 19 v
      || between 21 29 v
      || between 32 39 v
      || between 41 49 v
      || between 51 58 v
      || (v == 61)

  -- The match on a version; the arms exclude one another.
  unfoldable pub migrate : ArbosState → Bool → ℕ → M State (Unit {0})
  migrate a first_time v =
      if v == 2
      then ignore (set_pre_version7 J a.l1_pricing.last_surplus (pos 0))
      else if v == 3
      then upgrade_to_3 a
      else if v == 10
      then upgrade_to_10 a
      else if v == 11
      then upgrade_to_11 a first_time
      else if v == 20
      then ignore (set_u64 J a.brotli_compression_level 1)
      else if v == 30
      then initialize_programs J a.programs 30
      else if v == 31
      then upgrade_to_31 a
      else if v == 40
      then upgrade_to_40 a
      else if v == 50
      then upgrade_to_50 a
      else if v == 59
      then change_params a (pack StylusParamLayout.version 3)
      else if v == 60
      then upgrade_to_60 a
      else if is_unchanged v
      then pure tt
      else raise unsupported

  -- The loop `while version < target_version`, with the versions that are left.
  unfoldable pub upgrade_loop : ArbosState → Bool → ℕ → ℕ → M State (Unit {0})
  upgrade_loop a first_time zero v = pure tt
  upgrade_loop a first_time (suc rounds) v = do
    migrate a first_time (v + 1)
    install_precompiles_introduced_at (v + 1)
    ignore (set_u64 J a.arbos_version (v + 1))
    upgrade_loop a first_time rounds (v + 1)

  unfoldable pub upgrade_arbos_version : ArbosState → ℕ → ℕ → Bool → M State (Unit {0})
  upgrade_arbos_version a current_version target_version first_time =
      upgrade_loop a first_time (target_version - current_version) current_version
