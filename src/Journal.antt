-- ===== src/Journal.antt =====
-- The state-access seam of crates/arb-revm/src/arb_journal.rs. ArbOS storage and the precompiles
-- reach the chain's state only through the trait `ArbJournal`; what stands behind it (revm's
-- journal, alloy's `EvmInternals`) is no code of this repository, so it is the parameter `J` of
-- every definition here, and `Lawful` says what the trait's documentation promises of it.
pub mod Metered
pub mod Memory
use arb_revm.Base.{
  ℕ, ◌+◌, ◌-◌, ◌^◌, ◌≤◌, ◌<◌, ◌≡◌, Bool, ◌&&◌, List, Option, none, some, ◌==◌, if◌then◌else◌, leb,
}

-- Why an operation fails. The messages of the source carry values besides, which nothing reads.
pub data Error : Type 0 where
  database conversion overflow underflow out_of_funds overflow_payment create_collision : Error
  already_registered not_registered invalid_timestamp unsupported panic : Error
  bad_calldata missing_field not_found nonce_overflow : Error

pub data Result (A : Type 0) : Type 0 where
  ok : A → Result A
  err : Error → Result A

-- A call through `&mut journal`: what was written before an error stays written.
abbrev pub M : Type 0 → Type 0 → Type 0
M S A = S → Result A × S

module _ {S : Type 0} {A : Type 0} where
  abbrev pub pure : A → M S A
  pure a s = (ok a, s)

  abbrev pub raise : Error → M S A
  raise e s = (err e, s)

  abbrev pub or_raise : Option A → Error → M S A
  or_raise none e = raise e
  or_raise (some a) e = pure a

infixl 5 ◌>>=◌ ◌>>◌
abbrev pub ◌>>=◌ : {S A B : Type 0} → M S A → (A → M S B) → M S B
◌>>=◌ m f s = let (r, s') = m s in elim r [ ok a ↦ f a s' | err e ↦ (err e, s') ]

abbrev pub ◌>>◌ : {S A B : Type 0} → M S A → M S B → M S B
m >> k = m >>= λ _. k

-- revm's `TransferError`.
pub data TransferError : Type 0 where
  out_of_funds overflow_payment create_collision : TransferError

-- An event: the emitting account, its topics and its bytes.
pub record Log : Type 0 where
  pub address : ℕ
  pub topics : List ℕ
  pub bytes : List ℕ

-- `trait ArbJournal`, and the free function `keccak256` of revm's primitives. Addresses, slots,
-- words and hashes are the numbers that their bytes spell.
pub record ArbJournal : Type 1 where
  pub State : Type 0
  pub keccak256 : List ℕ → ℕ
  pub read_slot : ℕ → ℕ → M State ℕ
  pub write_slot : ℕ → ℕ → ℕ → M State (Unit {0})
  pub account_balance : ℕ → M State ℕ
  pub debit_balance : ℕ → ℕ → M State Bool
  pub transfer : ℕ → ℕ → ℕ → M State (Option TransferError)
  pub emit_log : Log → M State (Unit {0})
  -- `fn keccak`, on the concatenated parts
  pub keccak : List ℕ → M State ℕ

-- What the documentation of the trait promises, over a database that answers. A state is known by
-- the words and balances that it holds; an operation may change what else a state remembers
-- (warm accounts, caches, logs, gas), which is `seen`, `looked`, `refused`, `logged` and `hashed`.
pub record Lawful (J : ArbJournal) : Type 0 where
  pub value : J.State → ℕ → ℕ → ℕ
  pub balance : J.State → ℕ → ℕ
  pub seen : ℕ → ℕ → J.State → J.State
  pub stored : ℕ → ℕ → ℕ → J.State → J.State
  pub looked : ℕ → J.State → J.State
  pub debited : ℕ → ℕ → J.State → J.State
  pub moved : ℕ → ℕ → ℕ → J.State → J.State
  pub refused : ℕ → ℕ → ℕ → J.State → J.State
  pub logged : Log → J.State → J.State
  pub hashed : List ℕ → J.State → J.State
  pub read_lem : (a k : ℕ) (s : J.State) → J.read_slot a k s ≡ (ok (value s a k), seen a k s)
  pub write_lem : (a k v : ℕ) (s : J.State) → J.write_slot a k v s ≡ (ok tt, stored a k v s)
  pub balance_lem : (a : ℕ) (s : J.State) → J.account_balance a s ≡ (ok (balance s a), looked a s)
  pub debit_lem :
      (a n : ℕ) (s : J.State) → J.debit_balance a n s ≡ (ok (leb n (balance s a)), debited a n s)
  pub log_lem : (l : Log) (s : J.State) → J.emit_log l s ≡ (ok tt, logged l s)
  pub keccak_lem : (b : List ℕ) (s : J.State) → J.keccak b s ≡ (ok (J.keccak256 b), hashed b s)
  -- A covered transfer moves the amount.
  pub transfer_lem :
      (a b n : ℕ) (s : J.State)
      → n ≤ balance s a
      → balance s b + n < 2 ^ 256
      → J.transfer a b n s ≡ (ok none, moved a b n s)
  -- One that is not covered is refused by a value, not by an error.
  pub transfer_short :
      (a b n : ℕ) (s : J.State)
      → balance s a < n
      → J.transfer a b n s ≡ (ok (some TransferError.out_of_funds), refused a b n s)
  pub value-seen : (a k : ℕ) (s : J.State) (b l : ℕ) → value (seen a k s) b l ≡ value s b l
  pub value-looked : (a : ℕ) (s : J.State) (b l : ℕ) → value (looked a s) b l ≡ value s b l
  pub value-debited : (a n : ℕ) (s : J.State) (b l : ℕ) → value (debited a n s) b l ≡ value s b l
  pub value-logged : (g : Log) (s : J.State) (b l : ℕ) → value (logged g s) b l ≡ value s b l
  pub value-hashed : (t : List ℕ) (s : J.State) (b l : ℕ) → value (hashed t s) b l ≡ value s b l
  pub value-moved : (a c n : ℕ) (s : J.State) (b l : ℕ) → value (moved a c n s) b l ≡ value s b l
  pub value-refused :
      (a c n : ℕ) (s : J.State) (b l : ℕ) → value (refused a c n s) b l ≡ value s b l
  pub value-stored :
      (a k v : ℕ) (s : J.State) (b l : ℕ)
      → value (stored a k v s) b l ≡ (if (a == b) && (k == l) then v else value s b l)
  pub balance-seen : (a k : ℕ) (s : J.State) (b : ℕ) → balance (seen a k s) b ≡ balance s b
  pub balance-looked : (a : ℕ) (s : J.State) (b : ℕ) → balance (looked a s) b ≡ balance s b
  pub balance-logged : (g : Log) (s : J.State) (b : ℕ) → balance (logged g s) b ≡ balance s b
  pub balance-hashed : (t : List ℕ) (s : J.State) (b : ℕ) → balance (hashed t s) b ≡ balance s b
  pub balance-stored : (a k v : ℕ) (s : J.State) (b : ℕ) → balance (stored a k v s) b ≡ balance s b
  pub balance-refused :
      (a c n : ℕ) (s : J.State) (b : ℕ) → balance (refused a c n s) b ≡ balance s b
  pub balance-moved :
      (a c n : ℕ) (s : J.State) (b : ℕ)
      → balance (moved a c n s) b ≡ (
          if a == c
          then balance s b
          else if a == b
          then balance s b - n
          else if c == b
          then balance s b + n
          else balance s b)
  pub balance-debited :
      (a n : ℕ) (s : J.State) (b : ℕ)
      → balance (debited a n s) b
        ≡ (if (a == b) && leb n (balance s a) then balance s b - n else balance s b)
