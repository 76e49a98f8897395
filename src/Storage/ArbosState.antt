-- ===== src/Storage/ArbosState.antt =====
-- `ArbosState` of crates/arb-revm/src/storage/arbos_state.rs: where each part of ArbOS stands in the
-- state account, by the offsets of offsets.rs, and what a block's header takes from it.
use arb_revm.Base.{Bool, if◌then◌else◌, leb, ltb, not, ℕ, ◌&&◌, ◌==◌}
use arb_revm.Journal.{ArbJournal, M, pure, ◌>>=◌}
use arb_revm.Storage.Space.{
  StorageSpace, StorageSlot, storage_backed, open_subspace_with_key, root_space,
  arbos_state_address,
}
use arb_revm.Storage.Slot.{get_u64, get_u256}
use arb_revm.Storage.SendMerkle
use arb_revm.Storage.SendMerkle.{SendMerkle, open_send_merkle}
use arb_revm.Storage.BlockHashes.{BlockHashes, open_block_hashes, l1_block_number}
use arb_revm.Storage.L1Pricing.{L1Pricing, open_l1_pricing}
use arb_revm.Storage.L2Pricing.{L2Pricing, open_l2_pricing}
use arb_revm.Storage.Retryables.{open_retryables, Retryables}
use arb_revm.Storage.AddressTable.{AddressTable, open_address_table}
use arb_revm.Storage.AddressSet.{open_address_set, AddressSet}
use arb_revm.Storage.Programs.{open_programs, ArbosPrograms}
use arb_revm.Storage.Features.{ArbFeatures, open_features}

-- `enum ArbosMetadataOffset`.
pub data ArbosMetadataOffset : Type 0 where
  version upgrade_version upgrade_timestamp network_fee_account chain_id : ArbosMetadataOffset
  genesis_block_number infra_fee_account brotli_compression_level : ArbosMetadataOffset
  native_token_enabled_from_timestamp transaction_filtering_enabled_from_timestamp :
      ArbosMetadataOffset
  filtered_funds_recipient collect_tips : ArbosMetadataOffset

abbrev pub metadata_offset : ArbosMetadataOffset → ℕ
metadata_offset version = 0
metadata_offset upgrade_version = 1
metadata_offset upgrade_timestamp = 2
metadata_offset network_fee_account = 3
metadata_offset chain_id = 4
metadata_offset genesis_block_number = 5
metadata_offset infra_fee_account = 6
metadata_offset brotli_compression_level = 7
metadata_offset native_token_enabled_from_timestamp = 8
metadata_offset transaction_filtering_enabled_from_timestamp = 9
metadata_offset filtered_funds_recipient = 10
metadata_offset collect_tips = 11

-- `enum Subspace`.
pub data Subspace : Type 0 where
  l1_pricing l2_pricing retryables address_table chain_owners send_merkle : Subspace
  block_hashes chain_config programs features native_token_owners transaction_filterers : Subspace

abbrev pub subspace_key : Subspace → ℕ
subspace_key l1_pricing = 0
subspace_key l2_pricing = 1
subspace_key retryables = 2
subspace_key address_table = 3
subspace_key chain_owners = 4
subspace_key send_merkle = 5
subspace_key block_hashes = 6
subspace_key chain_config = 7
subspace_key programs = 8
subspace_key features = 9
subspace_key native_token_owners = 10
subspace_key transaction_filterers = 11

pub record ArbosState : Type 0 where
  pub arbos_version : StorageSlot
  pub upgrade_version : StorageSlot
  pub upgrade_timestamp : StorageSlot
  pub network_fee_account : StorageSlot
  pub genesis_block_number : StorageSlot
  pub l1_pricing : L1Pricing
  pub l2_pricing : L2Pricing
  pub retryables : Retryables
  pub address_table : AddressTable
  pub chain_owners : AddressSet
  pub send_merkle : SendMerkle
  pub block_hashes : BlockHashes
  pub chain_config : StorageSpace
  pub programs : ArbosPrograms
  pub features : ArbFeatures
  pub native_token_owners : AddressSet
  pub transaction_filterers : AddressSet
  pub chain_id : StorageSlot
  pub infra_fee_account : StorageSlot
  pub brotli_compression_level : StorageSlot
  pub native_token_enabled_from_timestamp : StorageSlot
  pub transaction_filtering_enabled_from_timestamp : StorageSlot
  pub filtered_funds_recipient : StorageSlot
  pub collect_tips : StorageSlot
  pub root : StorageSpace

pub record ArbBlockHeaderInfo : Type 0 where
  pub send_root : ℕ
  pub send_count : ℕ
  pub arbos_version : ℕ
  pub l1_block_number : ℕ
  pub collect_tips : Bool
  pub base_fee_wei : ℕ

-- The version that a block executes under: a scheduled upgrade counts from its time on.
unfoldable pub resolve_effective_version : ℕ → ℕ → ℕ → ℕ → ℕ
resolve_effective_version current planned planned_time block_timestamp =
    if ltb current planned && leb planned_time block_timestamp then planned else current

module _ (J : ArbJournal) where
  open J use {State}

  abbrev pub metadata : ArbosMetadataOffset → StorageSlot
  metadata offset = storage_backed J (root_space arbos_state_address) (metadata_offset offset)

  abbrev pub subspace : Subspace → StorageSpace
  subspace part = open_subspace_with_key J (root_space arbos_state_address) (subspace_key part)

  -- `ArbosState::build`, which `open` caches.
  unfoldable pub open_arbos : ArbosState
  open_arbos = record {
    arbos_version = metadata ArbosMetadataOffset.version;
    upgrade_version = metadata ArbosMetadataOffset.upgrade_version;
    upgrade_timestamp = metadata ArbosMetadataOffset.upgrade_timestamp;
    network_fee_account = metadata ArbosMetadataOffset.network_fee_account;
    genesis_block_number = metadata ArbosMetadataOffset.genesis_block_number;
    l1_pricing = open_l1_pricing J (subspace Subspace.l1_pricing);
    l2_pricing = open_l2_pricing J (subspace Subspace.l2_pricing);
    retryables = open_retryables J (subspace Subspace.retryables);
    address_table = open_address_table J (subspace Subspace.address_table);
    chain_owners = open_address_set J (subspace Subspace.chain_owners);
    send_merkle = open_send_merkle J (subspace Subspace.send_merkle);
    block_hashes = open_block_hashes J (subspace Subspace.block_hashes);
    chain_config = subspace Subspace.chain_config;
    programs = open_programs J (subspace Subspace.programs);
    features = open_features J (subspace Subspace.features);
    native_token_owners = open_address_set J (subspace Subspace.native_token_owners);
    transaction_filterers = open_address_set J (subspace Subspace.transaction_filterers);
    chain_id = metadata ArbosMetadataOffset.chain_id;
    infra_fee_account = metadata ArbosMetadataOffset.infra_fee_account;
    brotli_compression_level = metadata ArbosMetadataOffset.brotli_compression_level;
    native_token_enabled_from_timestamp =
        metadata ArbosMetadataOffset.native_token_enabled_from_timestamp;
    transaction_filtering_enabled_from_timestamp =
        metadata ArbosMetadataOffset.transaction_filtering_enabled_from_timestamp;
    filtered_funds_recipient = metadata ArbosMetadataOffset.filtered_funds_recipient;
    collect_tips = metadata ArbosMetadataOffset.collect_tips;
    root = root_space arbos_state_address;
  }

  unfoldable pub read_block_header_info : M State ArbBlockHeaderInfo
  read_block_header_info = do
    send_root ← SendMerkle.root J open_arbos.send_merkle
    send_count ← SendMerkle.size J open_arbos.send_merkle
    format ← get_u64 J open_arbos.arbos_version
    block_number ← l1_block_number J open_arbos.block_hashes
    tips ← get_u64 J open_arbos.collect_tips
    base_fee_wei ← get_u256 J open_arbos.l2_pricing.base_fee_wei
    pure (record {
      send_root = send_root;
      send_count = send_count;
      arbos_version = format;
      l1_block_number = block_number;
      collect_tips = not (tips == 0);
      base_fee_wei = base_fee_wei;
    })
