-- ===== src/Journal/Metered.antt =====
-- `MeteredJournal` of crates/arb-revm/src/arb_journal.rs: a journal around a journal that adds up
-- the gas which Nitro's burner would charge.
pub mod Delegates
use arb_revm.Base.{ℕ, ◌+◌, ◌*◌, ◌/◌, ◌==◌, if◌then◌else◌, List, length, saturating_add, Option}
use arb_revm.Journal.{ArbJournal, M, Result, ok, Log, TransferError}

abbrev pub storage_read_cost : ℕ
storage_read_cost = 800

abbrev pub storage_write_cost : ℕ
storage_write_cost = 20000

abbrev pub storage_write_zero_cost : ℕ
storage_write_zero_cost = 5000

abbrev log_gas : ℕ
log_gas = 375

abbrev log_topic_gas : ℕ
log_topic_gas = 375

abbrev log_data_gas : ℕ
log_data_gas = 8

-- `div_ceil(32)` words at 6, on top of 30.
unfoldable pub keccak_gas : ℕ → ℕ
keccak_gas byte_len = 30 + 6 * ((byte_len + 31) / 32)

unfoldable pub log_cost : Log → ℕ
log_cost l = log_gas + log_topic_gas * length l.topics + log_data_gas * length l.bytes

unfoldable pub write_cost : ℕ → ℕ
write_cost v = if v == 0 then storage_write_zero_cost else storage_write_cost

-- The inner state and `burned`.
abbrev pub MeteredState : ArbJournal → Type 0
MeteredState J = J.State × ℕ

unfoldable pub burn : ℕ → ℕ → ℕ
burn burned amount = saturating_add 64 burned amount

-- Charge `amount`, then call the inner journal.
unfoldable pub charged : (J : ArbJournal) {A : Type 0} → ℕ → M J.State A → M (MeteredState J) A
unfolding burn
charged J amount m (s, burned) = let (r, s') = m s in (r, (s', burn burned amount))

unfoldable pub delegated : (J : ArbJournal) {A : Type 0} → M J.State A → M (MeteredState J) A
delegated J m (s, burned) = let (r, s') = m s in (r, (s', burned))

-- `impl ArbJournal for MeteredJournal`. Its `keccak` hashes by itself and does not call the inner
-- journal's.
unfoldable pub metered : ArbJournal → ArbJournal
unfolding charged delegated burn keccak_gas log_cost write_cost
metered J = record {
  State = MeteredState J;
  keccak256 = J.keccak256;
  read_slot = λ a k. charged J storage_read_cost (J.read_slot a k);
  write_slot = λ a k v. charged J (write_cost v) (J.write_slot a k v);
  account_balance = λ a. delegated J (J.account_balance a);
  debit_balance = λ a n. delegated J (J.debit_balance a n);
  transfer = λ a b n. delegated J (J.transfer a b n);
  emit_log = λ l. charged J (log_cost l) (J.emit_log l);
  keccak = λ b. charged J (keccak_gas (length b)) (λ s. (ok (J.keccak256 b), s));
}
