-- ===== src/L1Cost.antt =====
-- The poster cost of crates/arb-revm/src/l1_cost.rs: the bytes of a transaction, and what a batch
-- poster charges for them. The compressor `brotli::compress` is the crate `brotli` of the repository's vendored
-- code: the length that it gives, if any, is a parameter.
pub mod Rlp
pub mod Charge
use arb_revm.Base.{
  Bool, Bool-cases, List, Option, Option-cases, [], ap, append-nil, append_assoc, ap₂, arith,
  bit_and, bit_or, bit_xor, checked_add, checked_mul, checked_sub, dec_le, dec_lt, drop, eq_self,
  eq_true→eq, false, fun_ext, if◌then◌else◌, inl, inr, leb, length, length-append, le→leb, le→ltb,
  ltb, ltb→lt, lt→ltb, map_option, min, ne→eq_false, none, not, refl, replicate, saturating_add,
  saturating_mul, some, subst, suc, sym, take, true, u256_max, u64_max, unwrap_or, zero, ℕ,
  ℕ_discrete, ◌%◌, ◌&&◌, ◌*◌, ◌++◌, ◌+◌, ◌-◌, ◌/◌, ◌<◌, ◌==◌, ◌^◌, ◌||◌, ◌↔◌, ◌∎, ◌∙◌, ◌∷◌, ◌≡◌,
  ◌≡⟨◌⟩◌, ◌≢◌, ◌≤◌, ◌⊎◌,
}
use arb_revm.L1Cost.Rlp
use arb_revm.Base.Bytes.{be_bytes}
use arb_revm.L1Cost.Rlp.{rlp_encode_list, strip_leading_zeros}

abbrev pub batch_poster_address : ℕ
batch_poster_address = 0xA4B000000000000000000073657175656e636572

-- Internal, deposit, submit-retryable and retry transactions cost no posting.
unfoldable pub tx_type_has_poster_costs : ℕ → Bool
tx_type_has_poster_costs tx_type =
    not ((tx_type == 0x6a) || (tx_type == 0x64) || (tx_type == 0x69) || (tx_type == 0x68))

-- What the encoder reads of a transaction; `to` is none for a creation.
pub record Transaction : Type 0 where
  pub tx_type : ℕ
  pub input : List ℕ
  pub to : Option ℕ
  pub value : ℕ
  pub gas_price : ℕ
  pub gas_limit : ℕ
  pub nonce : ℕ
  pub max_priority_fee_per_gas : Option ℕ
  pub max_fee_per_gas : ℕ
  pub chain_id : Option ℕ
  pub encoded_2718_bytes : Option (List ℕ)

-- A number without its leading zeros, from the `n` bytes of its type.
abbrev pub trimmed : ℕ → ℕ → List ℕ
trimmed n v = strip_leading_zeros (be_bytes n v)

abbrev pub to_bytes : Option ℕ → List ℕ
to_bytes none = []
to_bytes (some a) = be_bytes 20 a

abbrev pub signature : List (List ℕ)
signature = (0 ∷ []) ∷ replicate 32 0 ∷ replicate 32 0 ∷ []

unfoldable pub encode_tx_for_l1_cost : Transaction → List ℕ
encode_tx_for_l1_cost tx =
    let chain_id = trimmed 8 (unwrap_or tx.chain_id 0) in
    let nonce = trimmed 8 tx.nonce in
    let priority = trimmed 16 (unwrap_or tx.max_priority_fee_per_gas 0) in
    let max_fee = trimmed 16 tx.max_fee_per_gas in
    let gas_price = trimmed 16 tx.gas_price in
    let gas_limit = trimmed 8 tx.gas_limit in
    let call = gas_limit ∷ to_bytes tx.to ∷ trimmed 32 tx.value ∷ tx.input ∷ [] in
    if not (tx_type_has_poster_costs tx.tx_type)
    then []
    else if tx.tx_type == 2
    then 2 ∷ rlp_encode_list ((chain_id ∷ nonce ∷ priority ∷ max_fee ∷ call) ++ ([] ∷ signature))
    else if tx.tx_type == 1
    then 1 ∷ rlp_encode_list ((chain_id ∷ nonce ∷ gas_price ∷ call) ++ ([] ∷ signature))
    else rlp_encode_list ((nonce ∷ gas_price ∷ call) ++ signature)

unfoldable pub encode_tx_bytes : Transaction → List ℕ
encode_tx_bytes tx =
    if not (tx_type_has_poster_costs tx.tx_type)
    then []
    else unwrap_or tx.encoded_2718_bytes (encode_tx_for_l1_cost tx)

pub record PosterInfo : Type 0 where
  pub poster_cost : ℕ
  pub calldata_units : ℕ
  pub poster_gas : ℕ
  pub poster_fee : ℕ

abbrev pub no_cost : PosterInfo
no_cost = record { poster_cost = 0; calldata_units = 0; poster_gas = 0; poster_fee = 0 }

-- The charge for `units` units.
unfoldable pub poster_charge : ℕ → ℕ → ℕ → PosterInfo
poster_charge price_per_unit gas_price units =
    let cost = saturating_mul 256 price_per_unit units in
    let gas = if gas_price == 0 then 0 else min (cost / gas_price) u64_max in
    record {
      poster_cost = cost;
      calldata_units = units;
      poster_gas = gas;
      poster_fee = saturating_mul 256 gas_price gas;
    }

-- Where compression fails, the bytes count as they are.
unfoldable pub compute_poster_info : (List ℕ → ℕ → Option ℕ) → List ℕ → ℕ → ℕ → ℕ → ℕ → PosterInfo
compute_poster_info compressed_len tx_bytes coinbase price_per_unit gas_price brotli_level =
    if not (coinbase == batch_poster_address) || (length tx_bytes == 0)
    then no_cost
    else poster_charge price_per_unit gas_price
        (saturating_mul 64 16 (unwrap_or (compressed_len tx_bytes brotli_level) (length tx_bytes)))
