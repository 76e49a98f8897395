-- ===== src/Storage/Retryables.antt =====
-- `Retryables` of crates/arb-revm/src/storage/retryables.rs: the tickets of retryable transactions
-- and the queue of their timeouts.
pub mod Windows
use arb_revm.Base.{
  Bool, Bool-cases, List, Option, Option-cases, [], ap, append-nil, append_assoc, ap₂, arith,
  bit_and, bit_or, bit_xor, checked_add, checked_mul, checked_sub, dec_le, dec_lt, drop, eq_self,
  eq_true→eq, false, fun_ext, if◌then◌else◌, inl, inr, leb, length, length-append, le→leb, le→ltb,
  ltb, ltb→lt, lt→ltb, map_option, min, ne→eq_false, none, not, refl, replicate, saturating_add,
  saturating_mul, some, subst, suc, sym, take, true, u256_max, u64_max, unwrap_or, zero, ℕ,
  ℕ_discrete, ◌%◌, ◌&&◌, ◌*◌, ◌++◌, ◌+◌, ◌-◌, ◌/◌, ◌<◌, ◌==◌, ◌^◌, ◌||◌, ◌↔◌, ◌∎, ◌∙◌, ◌∷◌, ◌≡◌,
  ◌≡⟨◌⟩◌, ◌≢◌, ◌≤◌, ◌⊎◌,
}
use arb_revm.Base.Bytes.{be_bytes}
use arb_revm.Journal.{ArbJournal, M, pure, ◌>>=◌, ◌>>◌}
use arb_revm.Storage.Space.{
  StorageSpace, StorageSlot, storage_backed, open_subspace, open_subspace_with_key, address_of_word,
}
use arb_revm.Storage.Slot.{get_u64, set_u64, get_u256, set_u256, get_address, set_address}
use arb_revm.Storage.Queue.{StorageQueue, open_queue}
use arb_revm.Storage.Queue
use arb_revm.Storage.Bytes.{clear}
use arb_revm.Storage.L1Pricing.Payments.{transfer_result}

-- A week, in seconds.
abbrev pub retryable_lifetime_seconds : ℕ
retryable_lifetime_seconds = 604800

-- "retryable escrow"
abbrev pub retryable_escrow_tag : List ℕ
retryable_escrow_tag =
    114 ∷ 101 ∷ 116 ∷ 114 ∷ 121 ∷ 97 ∷ 98 ∷ 108 ∷ 101 ∷ 32 ∷ 101 ∷ 115 ∷ 99 ∷ 114 ∷ 111 ∷ 119 ∷ []

abbrev pub nil_address_representation : ℕ
nil_address_representation = 2 ^ 255

pub record Retryables : Type 0 where
  pub root : StorageSpace
  pub timeout_queue : StorageQueue

pub record RetryableRecord : Type 0 where
  pub id : ℕ
  pub storage : StorageSpace
  pub num_tries : StorageSlot
  pub from : StorageSlot
  pub to_raw : StorageSlot
  pub callvalue : StorageSlot
  pub beneficiary : StorageSlot
  pub timeout : StorageSlot
  pub timeout_windows_left : StorageSlot
  pub calldata : StorageSpace

module _ (J : ArbJournal) where
  open J use {State, keccak256, account_balance, transfer}

  abbrev pub open_retryables : StorageSpace → Retryables
  open_retryables storage = record {
    root = storage;
    timeout_queue = open_queue J (open_subspace_with_key J storage 0);
  }

  abbrev pub open_record : ℕ → StorageSpace → RetryableRecord
  open_record id storage = record {
    id = id;
    storage = storage;
    num_tries = storage_backed J storage 0;
    from = storage_backed J storage 1;
    to_raw = storage_backed J storage 2;
    callvalue = storage_backed J storage 3;
    beneficiary = storage_backed J storage 4;
    timeout = storage_backed J storage 5;
    timeout_windows_left = storage_backed J storage 6;
    calldata = open_subspace_with_key J storage 1;
  }

  unfoldable pub retryable : Retryables → ℕ → RetryableRecord
  retryable r id = open_record id (open_subspace J r.root (be_bytes 32 id))

  unfoldable pub initialize_retryables : Retryables → M State (Unit {0})
  initialize_retryables r = Queue.initialize J r.timeout_queue

  unfoldable pub ensure_timeout_queue_initialized : Retryables → M State (Unit {0})
  ensure_timeout_queue_initialized r = Queue.ensure_initialized J r.timeout_queue

  unfoldable pub retryable_escrow_address : ℕ → ℕ
  retryable_escrow_address ticket_id =
      address_of_word (keccak256 (retryable_escrow_tag ++ be_bytes 32 ticket_id))

  -- The escrow goes to the beneficiary, unless it is empty.
  unfoldable pub release_escrow : ℕ → ℕ → M State (Unit {0})
  release_escrow escrow beneficiary = do
    escrow_balance ← account_balance escrow
    if escrow_balance == 0
        then pure tt
        else (transfer escrow beneficiary escrow_balance >>= transfer_result)

  unfoldable pub clear_record : RetryableRecord → M State (Unit {0})
  clear_record t = do
    set_u64 J t.num_tries 0
    set_address J t.from 0
    set_u256 J t.to_raw 0
    set_u256 J t.callvalue 0
    set_address J t.beneficiary 0
    set_u64 J t.timeout 0
    set_u64 J t.timeout_windows_left 0
    clear J t.calldata

  unfoldable pub delete_retryable : Retryables → ℕ → M State Bool
  delete_retryable r id = do
    let t = retryable r id
    timeout ← get_u64 J t.timeout
    if timeout == 0 then pure false else (do
      beneficiary ← get_address J t.beneficiary
      release_escrow (retryable_escrow_address id) beneficiary
      clear_record t
      pure true)

  -- One more lifetime, for one of the windows that are left.
  unfoldable pub use_window : RetryableRecord → ℕ → ℕ → M State (Unit {0})
  use_window t timeout windows_left = do
    set_u64 J t.timeout (saturating_add 64 timeout retryable_lifetime_seconds)
    set_u64 J t.timeout_windows_left (windows_left - 1)

  -- The ticket at the head of the queue: what it was deleted before leaves the queue, what has not
  -- expired stays, and what has expired is deleted or uses a window.
  unfoldable pub reap : Retryables → ℕ → ℕ → M State Bool
  reap r id current_timestamp = do
    let t = retryable r id
    timeout ← get_u64 J t.timeout
    if timeout == 0 then (Queue.get J r.timeout_queue >> pure true) else (do
      windows_left ← get_u64 J t.timeout_windows_left
      if leb current_timestamp timeout then pure false else (do
        Queue.get J r.timeout_queue
        if windows_left == 0
            then (delete_retryable r id >> pure true)
            else (use_window t timeout windows_left >> pure true)))

  abbrev pub reap_head : Retryables → ℕ → Option ℕ → M State Bool
  reap_head r current_timestamp none = pure false
  reap_head r current_timestamp (some id) = reap r id current_timestamp

  unfoldable pub try_to_reap_one : Retryables → ℕ → M State Bool
  try_to_reap_one r current_timestamp = do
    head ← Queue.peek J r.timeout_queue
    reap_head r current_timestamp head

  unfoldable pub exists : RetryableRecord → ℕ → M State Bool
  exists t current_timestamp = do
    timeout ← get_u64 J t.timeout
    pure (not (timeout == 0) && leb current_timestamp timeout)

  unfoldable pub to : RetryableRecord → M State (Option ℕ)
  to t = do
    raw ← get_u256 J t.to_raw
    pure (if raw == nil_address_representation then none else some (address_of_word raw))

  unfoldable pub set_to : RetryableRecord → Option ℕ → M State (Unit {0})
  set_to t address = set_u256 J t.to_raw (unwrap_or address nil_address_representation)

  unfoldable pub timeout_with_windows : RetryableRecord → M State ℕ
  timeout_with_windows t = do
    timeout ← get_u64 J t.timeout
    windows ← get_u64 J t.timeout_windows_left
    pure (saturating_add 64 timeout (saturating_mul 64 windows retryable_lifetime_seconds))
