-- ===== src/Precompiles/ArbOwnerPublic.antt =====
-- `ArbOwnerPublic` of crates/arb-revm/src/precompiles/arb_owner_public.rs: what anyone may ask of the
-- owners' settings. These reads are not billed.
use arb_revm.Storage.Features.{is_calldata_price_increase_enabled}
use arb_revm.Base.{Bool, List, Option, [], if◌then◌else◌, leb, ltb, none, some, ℕ, ◌%◌, ◌^◌, ◌∷◌}
use arb_revm.Storage.StylusParamLayout
use arb_revm.Storage.AddressSet
use arb_revm.Journal.{pure, ◌>>=◌, ArbJournal, M}
use arb_revm.Precompiles.{
  Host, InterpreterResult, gated_revert_result, or_result, revert_result, Message, ok_result,
}
use arb_revm.Storage.ArbosState.{ArbosState, open_arbos}
use arb_revm.Storage.Slot.{get_u64, get_address}
use arb_revm.Storage.Programs.{read_params_word}
use arb_revm.Storage.Packed.{unpack_uint}

-- A call that the ABI decoder has read.
pub data OwnerPublicCall : Type 0 where
  get_all_chain_owners get_all_native_token_owners get_native_token_management_from :
      OwnerPublicCall
  get_transaction_filtering_from get_all_transaction_filterers : OwnerPublicCall
  get_filtered_funds_recipient get_network_fee_account get_infra_fee_account : OwnerPublicCall
  get_brotli_compression_level get_scheduled_upgrade : OwnerPublicCall
  is_calldata_price_increase_enabled_call get_parent_gas_floor_per_token : OwnerPublicCall
  get_max_stylus_contract_fragments rectify_chain_owner : OwnerPublicCall
  is_chain_owner is_native_token_owner is_transaction_filterer : ℕ → OwnerPublicCall

-- An upgrade that has happened is none.
unfoldable pub scheduled : ℕ → ℕ → ℕ → List ℕ
scheduled arbos_version version timestamp =
    if leb version arbos_version then 0 ∷ 0 ∷ [] else version ∷ timestamp ∷ []

module _ (J : ArbJournal) (H : Host) where
  open J use {State}
  open H use {Gas, encode_words, encode_array}

  abbrev pub OwnerPublicAnswer : Type 0
  OwnerPublicAnswer = State → InterpreterResult Gas × State

  -- What is read, encoded.
  unfoldable pub reply : {A : Type 0} → ℕ → M State A → (A → List ℕ) → OwnerPublicAnswer
  reply gas_limit m encode =
      or_result m (λ e. revert_result H gas_limit (Message.owner_public_error e))
        (λ a s. (ok_result H gas_limit (encode a), s))

  unfoldable pub encode_word : ℕ → List ℕ
  encode_word w = encode_words (w ∷ [])

  unfoldable pub encode_bool : Bool → List ℕ
  encode_bool b = encode_words ((if b then 1 else 0) ∷ [])

  -- Before version 6 there is no account of its own for the fees of the infrastructure.
  unfoldable pub read_infra_fee_account : ArbosState → M State ℕ
  read_infra_fee_account a = do
    arbos_version ← get_u64 J a.arbos_version
    if ltb arbos_version 6
        then get_address J a.network_fee_account
        else get_address J a.infra_fee_account

  unfoldable pub read_scheduled_upgrade : ArbosState → M State (List ℕ)
  read_scheduled_upgrade a = do
    arbos_version ← get_u64 J a.arbos_version
    version ← get_u64 J a.upgrade_version
    timestamp ← get_u64 J a.upgrade_timestamp
    pure (scheduled arbos_version version timestamp)

  unfoldable pub max_fragments : ArbosState → ℕ → OwnerPublicAnswer
  max_fragments a gas_limit =
      or_result (read_params_word J a.programs)
        (λ e. revert_result H gas_limit (Message.max_fragments_error e))
        (λ word s. (
          ok_result H gas_limit (
              encode_word (
                unpack_uint word StylusParamLayout.max_fragment_count.0
                  StylusParamLayout.max_fragment_count.1
                % 2 ^ 8)),
          s,
        ))

  unfoldable pub owner_public_call : ArbosState → ℕ → OwnerPublicCall → OwnerPublicAnswer
  owner_public_call a gas_limit OwnerPublicCall.get_all_chain_owners =
      reply gas_limit (AddressSet.all_members J a.chain_owners) encode_array
  owner_public_call a gas_limit (OwnerPublicCall.is_chain_owner account) =
      reply gas_limit (AddressSet.is_member J a.chain_owners account) encode_bool
  owner_public_call a gas_limit (OwnerPublicCall.is_native_token_owner account) =
      reply gas_limit (AddressSet.is_member J a.native_token_owners account) encode_bool
  owner_public_call a gas_limit OwnerPublicCall.get_all_native_token_owners =
      reply gas_limit (AddressSet.all_members J a.native_token_owners) encode_array
  owner_public_call a gas_limit OwnerPublicCall.get_native_token_management_from =
      reply gas_limit (get_u64 J a.native_token_enabled_from_timestamp) encode_word
  owner_public_call a gas_limit OwnerPublicCall.get_transaction_filtering_from =
      reply gas_limit (get_u64 J a.transaction_filtering_enabled_from_timestamp) encode_word
  owner_public_call a gas_limit (OwnerPublicCall.is_transaction_filterer filterer) =
      reply gas_limit (AddressSet.is_member J a.transaction_filterers filterer) encode_bool
  owner_public_call a gas_limit OwnerPublicCall.get_all_transaction_filterers =
      reply gas_limit (AddressSet.all_members J a.transaction_filterers) encode_array
  owner_public_call a gas_limit OwnerPublicCall.get_filtered_funds_recipient =
      reply gas_limit (get_address J a.filtered_funds_recipient) encode_word
  owner_public_call a gas_limit OwnerPublicCall.get_network_fee_account =
      reply gas_limit (get_address J a.network_fee_account) encode_word
  owner_public_call a gas_limit OwnerPublicCall.get_infra_fee_account =
      reply gas_limit (read_infra_fee_account a) encode_word
  owner_public_call a gas_limit OwnerPublicCall.get_brotli_compression_level =
      reply gas_limit (get_u64 J a.brotli_compression_level) encode_word
  owner_public_call a gas_limit OwnerPublicCall.get_scheduled_upgrade =
      reply gas_limit (read_scheduled_upgrade a) encode_words
  owner_public_call a gas_limit OwnerPublicCall.is_calldata_price_increase_enabled_call =
      reply gas_limit (is_calldata_price_increase_enabled J a.features) encode_bool
  owner_public_call a gas_limit OwnerPublicCall.get_parent_gas_floor_per_token =
      reply gas_limit (get_u64 J a.l1_pricing.gas_floor_per_token) encode_word
  owner_public_call a gas_limit OwnerPublicCall.get_max_stylus_contract_fragments =
      max_fragments a gas_limit
  owner_public_call a gas_limit OwnerPublicCall.rectify_chain_owner =
      λ s. (revert_result H gas_limit Message.rectify_not_yet_implemented, s)

  unfoldable pub run_arb_owner_public :
      (List ℕ → Option OwnerPublicCall) → List ℕ → ℕ → OwnerPublicAnswer
  run_arb_owner_public decode input gas_limit = elim (decode input) [
    | none ↦ λ s. (gated_revert_result H gas_limit, s)
    | some call ↦ owner_public_call (open_arbos J) gas_limit call
  ]
