-- ===== src/Journal/Metered/Delegates.antt =====
-- What metering leaves alone, and what it charges.
use arb_revm.Base.{refl, length}
use arb_revm.Journal.{ArbJournal, Lawful}
use arb_revm.Journal.Metered.{
  metered, burn, storage_read_cost, write_cost, log_cost, keccak_gas, charged, delegated,
}

module _ (J : ArbJournal) (L : Lawful J) where
  open L use {
    value, balance, seen, stored, looked, debited, moved, refused, logged, hashed, read_lem,
    write_lem, balance_lem, debit_lem, log_lem, transfer_lem, transfer_short, value-seen,
    value-looked, value-debited, value-logged, value-moved, value-refused, value-stored,
    balance-seen, balance-looked, balance-logged, balance-stored, balance-refused, balance-moved,
    balance-debited,
  }

  -- Metering keeps every promise of the inner journal: ArbOS storage code that runs on a metered
  -- journal reads and writes the same words and balances as on the journal inside. Each read,
  -- write, log and hash adds its cost to the gas burned, up to the largest `u64`; balance reads,
  -- debits and transfers add nothing.
  pub metered-Lawful : Lawful (metered J)
  unfolding metered charged delegated
  metered-Lawful = record {
    value = λ s. value s.0;
    balance = λ s. balance s.0;
    seen = λ a k s. (seen a k s.0, burn s.1 storage_read_cost);
    stored = λ a k v s. (stored a k v s.0, burn s.1 (write_cost v));
    looked = λ a s. (looked a s.0, s.1);
    debited = λ a n s. (debited a n s.0, s.1);
    moved = λ a b n s. (moved a b n s.0, s.1);
    refused = λ a b n s. (refused a b n s.0, s.1);
    logged = λ l s. (logged l s.0, burn s.1 (log_cost l));
    hashed = λ b s. (s.0, burn s.1 (keccak_gas (length b)));
    read_lem = λ a k s. rw (read_lem a k s.0);
    write_lem = λ a k v s. rw (write_lem a k v s.0);
    balance_lem = λ a s. rw (balance_lem a s.0);
    debit_lem = λ a n s. rw (debit_lem a n s.0);
    log_lem = λ l s. rw (log_lem l s.0);
    keccak_lem = λ b s. refl;
    transfer_lem = λ a b n s h k. rw (transfer_lem a b n s.0 h k);
    transfer_short = λ a b n s h. rw (transfer_short a b n s.0 h);
    value-seen = λ a k s. value-seen a k s.0;
    value-looked = λ a s. value-looked a s.0;
    value-debited = λ a n s. value-debited a n s.0;
    value-logged = λ g s. value-logged g s.0;
    value-hashed = λ t s b l. refl;
    value-moved = λ a c n s. value-moved a c n s.0;
    value-refused = λ a c n s. value-refused a c n s.0;
    value-stored = λ a k v s. value-stored a k v s.0;
    balance-seen = λ a k s. balance-seen a k s.0;
    balance-looked = λ a s. balance-looked a s.0;
    balance-logged = λ g s. balance-logged g s.0;
    balance-hashed = λ t s b. refl;
    balance-stored = λ a k v s. balance-stored a k v s.0;
    balance-refused = λ a c n s. balance-refused a c n s.0;
    balance-moved = λ a c n s. balance-moved a c n s.0;
    balance-debited = λ a n s. balance-debited a n s.0;
  }
