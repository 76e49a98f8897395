-- ===== src/Transactions.antt =====
-- The transactions of ArbOS that bypass the EVM's own rules: deposit_tx.rs, submit_retryable_tx.rs,
-- retry_tx.rs, internal_tx.rs and transaction_filter.rs of crates/arb-revm/src. They reach revm's journal for more
-- than `ArbJournal` offers, and encoders of other crates: these are the parameter `Platform`.
pub mod Filter
pub mod Deposit
pub mod Calldata
pub mod SubmitRetryable
pub mod Submission
pub mod Retry
pub mod Upgrade
pub mod Internal
use arb_revm.Base.{
  Bool, Bool-cases, List, Option, Option-cases, [], ap, append-nil, append_assoc, ap₂, arith,
  bit_and, bit_or, bit_xor, checked_add, checked_mul, checked_sub, dec_le, dec_lt, drop, eq_self,
  eq_true→eq, false, fun_ext, if◌then◌else◌, inl, inr, leb, length, length-append, le→leb, le→ltb,
  ltb, ltb→lt, lt→ltb, map_option, min, ne→eq_false, none, not, refl, replicate, saturating_add,
  saturating_mul, some, subst, suc, sym, take, true, u256_max, u64_max, unwrap_or, zero, ℕ,
  ℕ_discrete, ◌%◌, ◌&&◌, ◌*◌, ◌++◌, ◌+◌, ◌-◌, ◌/◌, ◌<◌, ◌==◌, ◌^◌, ◌||◌, ◌↔◌, ◌∎, ◌∙◌, ◌∷◌, ◌≡◌,
  ◌≡⟨◌⟩◌, ◌≢◌, ◌≤◌, ◌⊎◌,
}
use arb_revm.Journal.{ArbJournal, Lawful, M, pure, raise, ok, conversion}

-- What the context says of the transaction that runs. A recipient of none is a creation.
pub record ArbTransaction : Type 0 where
  pub caller : ℕ
  pub to : Option ℕ
  pub value : ℕ
  pub input : List ℕ
  pub chain_id : Option ℕ
  pub tx_hash : Option ℕ
  pub encoded_2718_bytes : Option (List ℕ)
  -- the ticket of `retry_meta`
  pub retry_ticket : Option ℕ

pub record Block : Type 0 where
  pub number : ℕ
  pub timestamp : ℕ
  pub basefee : ℕ

-- `TxRetry` of arbitrum_alloy_consensus, as the source fills it in.
pub record TxRetry : Type 0 where
  pub chain_id : ℕ
  pub nonce : ℕ
  pub from : ℕ
  pub gas_fee_cap : ℕ
  pub gas_limit : ℕ
  pub to : Option ℕ
  pub value : ℕ
  pub input : List ℕ
  pub ticket_id : ℕ
  pub refund_to : ℕ
  pub max_refund : ℕ
  pub submission_fee_refund : ℕ

-- revm's `JournalTr::balance_incr`, `load_account`, `bump_nonce` (false if the nonce is the last), `set_nonce` and
-- `set_code`,
-- `TxRetry::tx_hash`, the encoders of alloy_rlp and the ABI encoder of four words.
pub record Platform (J : ArbJournal) : Type 0 where
  pub balance_incr : ℕ → ℕ → M J.State (Unit {0})
  pub load_account : ℕ → M J.State (Unit {0})
  pub bump_nonce : ℕ → M J.State Bool
  pub set_nonce : ℕ → ℕ → M J.State (Unit {0})
  pub set_code : ℕ → List ℕ → M J.State (Unit {0})
  -- the database's hash of a block
  pub block_hash : ℕ → M J.State ℕ
  -- `load_account`, then `mark_created` and `mark_touch`
  pub materialize : ℕ → M J.State (Unit {0})
  pub retry_tx_hash : TxRetry → ℕ
  pub rlp_uint : ℕ → List ℕ
  pub rlp_hash : ℕ → List ℕ
  pub rlp_address : ℕ → List ℕ
  pub rlp_kind : Option ℕ → List ℕ
  pub rlp_bytes : List ℕ → List ℕ
  pub rlp_list_header : ℕ → List ℕ
  pub abi_encode : ℕ → ℕ → ℕ → ℕ → List ℕ

-- What revm documents of these calls, over a database that answers: minting adds to one balance, and
-- neither loading an account nor its nonce touches words or balances. A nonce is bumped by one unless it
-- is the last; neither reading words nor a transfer touches it.
pub record LawfulPlatform (J : ArbJournal) (L : Lawful J) (P : Platform J) : Type 0 where
  pub minted : ℕ → ℕ → J.State → J.State
  pub loaded : ℕ → J.State → J.State
  pub bumped : ℕ → J.State → J.State
  pub balance_incr_lem :
      (a n : ℕ) (s : J.State)
      → L.balance s a + n < 2 ^ 256
      → P.balance_incr a n s ≡ (ok tt, minted a n s)
  pub load_lem : (a : ℕ) (s : J.State) → P.load_account a s ≡ (ok tt, loaded a s)
  pub nonce : J.State → ℕ → ℕ
  pub bump_lem :
      (a : ℕ) (s : J.State) → nonce s a < u64_max → P.bump_nonce a s ≡ (ok true, bumped a s)
  pub bump_last : (a : ℕ) (s : J.State) → nonce s a ≡ u64_max → (P.bump_nonce a s).0 ≡ ok false
  pub nonce-bumped :
      (a : ℕ) (s : J.State) (b : ℕ)
      → nonce s a < u64_max
      → nonce (bumped a s) b ≡ (if a == b then nonce s b + 1 else nonce s b)
  pub nonce-seen : (a k : ℕ) (s : J.State) (b : ℕ) → nonce (L.seen a k s) b ≡ nonce s b
  pub nonce-moved : (a c n : ℕ) (s : J.State) (b : ℕ) → nonce (L.moved a c n s) b ≡ nonce s b
  pub balance-minted :
      (a n : ℕ) (s : J.State) (b : ℕ)
      → L.balance (minted a n s) b ≡ (if a == b then L.balance s b + n else L.balance s b)
  pub balance-loaded : (a : ℕ) (s : J.State) (b : ℕ) → L.balance (loaded a s) b ≡ L.balance s b
  pub balance-bumped : (a : ℕ) (s : J.State) (b : ℕ) → L.balance (bumped a s) b ≡ L.balance s b
  pub value-minted : (a n : ℕ) (s : J.State) (b k : ℕ) → L.value (minted a n s) b k ≡ L.value s b k
  pub value-loaded : (a : ℕ) (s : J.State) (b k : ℕ) → L.value (loaded a s) b k ≡ L.value s b k
  pub value-bumped : (a : ℕ) (s : J.State) (b k : ℕ) → L.value (bumped a s) b k ≡ L.value s b k

-- `tx_hash()`, or the hash of the transaction's envelope.
unfoldable pub known_hash : (J : ArbJournal) → ArbTransaction → Option ℕ
known_hash J tx = elim tx.tx_hash [
  | some h ↦ some h
  | none ↦ map_option J.keccak256 tx.encoded_2718_bytes
]

-- `block.timestamp().try_into()`.
unfoldable pub timestamp_u64 : {S : Type 0} → Block → M S ℕ
timestamp_u64 block =
    if ltb block.timestamp (2 ^ 64) then pure block.timestamp else raise conversion
