-- ===== src/Genesis.antt =====
-- crates/arb-revm/src/arbos_init.rs: the state of ArbOS before the first block, and what the genesis
-- of Arbitrum One imports on top of it. The accounts that come out of revm's journal, and their sorting,
-- are not modelled.
use arb_revm.Base.{
  Bool, List, Option, [], if◌then◌else◌, leb, ltb, true, ℕ, ◌&&◌, ◌*◌, ◌+◌, ◌==◌, ◌||◌, ◌∷◌,
}
use arb_revm.Base.Int.{pos}
use arb_revm.Journal.{ArbJournal, M, pure, raise, unsupported, already_registered, ◌>>=◌, ◌>>◌}
use arb_revm.Storage.Space.{arbos_state_address}
use arb_revm.Storage.Slot.{set_u64, set_u256, set_i64, set_address}
use arb_revm.Storage.Bytes
use arb_revm.Storage.Queue
use arb_revm.Storage.ArbosState.{ArbosState}
use arb_revm.Storage.AddressSet.{add}
use arb_revm.Storage.AddressTable.{register}
use arb_revm.Storage.Retryables.{retryable, set_to, retryable_escrow_address, initialize_retryables}
use arb_revm.Transactions.{Platform}
use arb_revm.Transactions.Upgrade.{
  upgrade_arbos_version, ignore, arbos_precompiles, precompile_fake_code, Precompile,
}
use arb_revm.L1Cost.{batch_poster_address}
use arb_revm.Storage.BatchPosterTable.{add_poster}

pub record ArbosInitConfig : Type 0 where
  pub initial_arbos_version : ℕ
  pub initial_chain_owner : ℕ
  pub chain_id : ℕ
  pub genesis_block_number : ℕ
  pub initial_l1_base_fee : ℕ
  pub serialized_chain_config : List ℕ

pub record GenesisRetryableInput : Type 0 where
  pub id : ℕ
  pub timeout : ℕ
  pub from : ℕ
  pub to : Option ℕ
  pub callvalue : ℕ
  pub beneficiary : ℕ
  pub calldata : List ℕ

abbrev pub initial_equilibration_units_v0 : ℕ
initial_equilibration_units_v0 = 60 * 16 * 100000

abbrev pub l1_initial_inertia : ℕ
l1_initial_inertia = 10

abbrev pub l1_initial_per_unit_reward : ℕ
l1_initial_per_unit_reward = 10

abbrev pub l2_initial_speed_limit_v0 : ℕ
l2_initial_speed_limit_v0 = 1000000

abbrev pub l2_initial_per_block_gas_limit_v0 : ℕ
l2_initial_per_block_gas_limit_v0 = 20 * 1000000

abbrev pub l2_initial_min_base_fee_wei : ℕ
l2_initial_min_base_fee_wei = 100000000

abbrev pub l2_initial_pricing_inertia : ℕ
l2_initial_pricing_inertia = 102

abbrev pub l2_initial_backlog_tolerance : ℕ
l2_initial_backlog_tolerance = 10

-- Before another ticket: an earlier timeout, or the same and a smaller id.
unfoldable pub goes_before : GenesisRetryableInput → GenesisRetryableInput → Bool
goes_before r q = ltb r.timeout q.timeout || ((r.timeout == q.timeout) && leb r.id q.id)

-- `sort_by`, which is stable.
unfoldable pub insert_ticket :
    GenesisRetryableInput → List GenesisRetryableInput → List GenesisRetryableInput
insert_ticket r [] = r ∷ []
insert_ticket r (q ∷ qs) =
    let rest = insert_ticket r qs in if goes_before r q then r ∷ q ∷ qs else q ∷ rest

unfoldable pub sort_tickets : List GenesisRetryableInput → List GenesisRetryableInput
sort_tickets [] = []
sort_tickets (r ∷ rs) = insert_ticket r (sort_tickets rs)

module _ (J : ArbJournal) (P : Platform J) (a : ArbosState) where
  open J use {State}

  -- Code for every precompile of the version or an older one, those for debugging included.
  unfoldable pub install_precompiles : List Precompile → ℕ → M State (Unit {0})
  install_precompiles [] v = pure tt
  install_precompiles (p ∷ ps) v =
      let rest = install_precompiles ps v in
      if ltb v p.min_version
      then rest
      else (do P.load_account p.address; P.set_code p.address precompile_fake_code; rest)

  unfoldable pub write_metadata : ArbosInitConfig → M State (Unit {0})
  write_metadata config = do
    ignore (set_u64 J a.arbos_version 1)
    ignore (set_u256 J a.chain_id config.chain_id)
    if config.genesis_block_number == 0
        then pure tt
        else ignore (set_u64 J a.genesis_block_number config.genesis_block_number)
    if leb 2 config.initial_arbos_version
        then ignore (set_address J a.network_fee_account config.initial_chain_owner)
        else pure tt

  unfoldable pub initialize_l1_pricing : ArbosInitConfig → M State (Unit {0})
  initialize_l1_pricing config = do
    let recipient =
        if leb 2 config.initial_arbos_version
        then config.initial_chain_owner
        else batch_poster_address
    add_poster J a.l1_pricing.batch_poster_table batch_poster_address batch_poster_address
    ignore (set_address J a.l1_pricing.pay_rewards_to recipient)
    ignore (set_u256 J a.l1_pricing.equilibration_units initial_equilibration_units_v0)
    ignore (set_u64 J a.l1_pricing.inertia l1_initial_inertia)
    ignore (set_u64 J a.l1_pricing.per_unit_reward l1_initial_per_unit_reward)
    ignore (set_u256 J a.l1_pricing.price_per_unit config.initial_l1_base_fee)

  unfoldable pub initialize_l2_pricing : M State (Unit {0})
  initialize_l2_pricing = do
    ignore (set_u64 J a.l2_pricing.speed_limit_per_second l2_initial_speed_limit_v0)
    ignore (set_u64 J a.l2_pricing.per_block_gas_limit l2_initial_per_block_gas_limit_v0)
    ignore (set_u256 J a.l2_pricing.base_fee_wei l2_initial_min_base_fee_wei)
    ignore (set_u256 J a.l2_pricing.min_base_fee_wei l2_initial_min_base_fee_wei)
    ignore (set_u64 J a.l2_pricing.pricing_inertia l2_initial_pricing_inertia)
    ignore (set_u64 J a.l2_pricing.backlog_tolerance l2_initial_backlog_tolerance)

  -- What a genesis from version 6 on overrides after the upgrades.
  unfoldable pub override_pricing_v6 : ℕ → M State (Unit {0})
  override_pricing_v6 v = do
    if ltb v 11 then ignore (set_i64 J a.l1_pricing.per_batch_gas_cost (pos 100000)) else pure tt
    ignore (set_u256 J a.l1_pricing.equilibration_units 160000000)
    ignore (set_u64 J a.l2_pricing.speed_limit_per_second 7000000)
    ignore (set_u64 J a.l2_pricing.per_block_gas_limit 32000000)

  unfoldable pub initialize_arbos_state : ArbosInitConfig → M State (Unit {0})
  initialize_arbos_state config =
      let v = config.initial_arbos_version in
      if v == 0 then raise unsupported else (do
        P.set_nonce arbos_state_address 1
        install_precompiles arbos_precompiles v
        write_metadata config
        Bytes.set J a.chain_config config.serialized_chain_config
        initialize_l1_pricing config
        initialize_l2_pricing
        initialize_retryables J a.retryables
        add J a.chain_owners config.initial_chain_owner
        if ltb 1 v then upgrade_arbos_version J P a 1 v true else pure tt
        if leb 6 v then override_pricing_v6 v else pure tt)

  -- The address table in the order of the file: the entry's number is its index, or the import fails.
  unfoldable pub register_all : List ℕ → ℕ → M State (Unit {0})
  register_all [] i = pure tt
  register_all (address ∷ addresses) i = do
    index ← register J a.address_table address
    if index == i then register_all addresses (i + 1) else raise already_registered

  -- The value of an expired ticket goes to its beneficiary; the others are kept.
  unfoldable pub credit_expired :
      ℕ → List GenesisRetryableInput → M State (List GenesisRetryableInput)
  credit_expired now [] = pure []
  credit_expired now (r ∷ rs) =
      let rest = credit_expired now rs in
      if leb r.timeout now
      then (do if r.callvalue == 0 then pure tt else P.balance_incr r.beneficiary r.callvalue; rest)
      else (rest >>= λ live. pure (r ∷ live))

  unfoldable pub recreate_ticket : GenesisRetryableInput → M State (Unit {0})
  recreate_ticket r = do
    if r.callvalue == 0
        then pure tt
        else P.balance_incr (retryable_escrow_address J r.id) r.callvalue
    let t = retryable J a.retryables r.id
    set_u64 J t.num_tries 0
    set_address J t.from r.from
    set_to J t r.to
    set_u256 J t.callvalue r.callvalue
    set_address J t.beneficiary r.beneficiary
    set_u64 J t.timeout r.timeout
    set_u64 J t.timeout_windows_left 0
    Bytes.set_fresh J t.calldata r.calldata
    Queue.put J a.retryables.timeout_queue r.id

  unfoldable pub recreate_tickets : List GenesisRetryableInput → M State (Unit {0})
  recreate_tickets [] = pure tt
  recreate_tickets (r ∷ rs) = do recreate_ticket r; recreate_tickets rs

  -- `build_mainnet_genesis_accounts`, up to the import of the classic accounts.
  unfoldable pub import_mainnet :
      ArbosInitConfig → List ℕ → List GenesisRetryableInput → ℕ → M State (Unit {0})
  import_mainnet config address_table retryables current_timestamp = do
    initialize_arbos_state config
    register_all address_table 0
    live ← credit_expired current_timestamp retryables
    recreate_tickets (sort_tickets live)
