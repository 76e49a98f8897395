-- ===== src/Journal/Memory.antt =====
-- A journal that keeps its words, balances and nonces in functions: it shows that `Lawful` can be met, and
-- the tests run on it. The hash is a parameter.
use arb_revm.Base.{
  ℕ, ◌+◌, ◌-◌, ◌^◌, ◌≤◌, ◌<◌, ◌≡◌, refl, ◌&&◌, List, Option, none, some, ◌==◌, ltb, leb,
  if◌then◌else◌, ◌∷◌, lt→ltb, le→ltb,
}
use arb_revm.Journal.{ArbJournal, Lawful, M, ok, Log, TransferError}

pub record Memory : Type 0 where
  pub words : ℕ → ℕ → ℕ
  pub funds : ℕ → ℕ
  pub nonces : ℕ → ℕ
  pub logs : List Log

abbrev pub put_word : ℕ → ℕ → ℕ → Memory → Memory
put_word a k v s = record s { words = λ b l. if (a == b) && (k == l) then v else s.words b l }

abbrev pub move_funds : ℕ → ℕ → ℕ → Memory → Memory
move_funds a c n s = record s {
  funds = λ b.
      if a == c
      then s.funds b
      else if a == b
      then s.funds b - n
      else if c == b
      then s.funds b + n
      else s.funds b;
}

abbrev pub debit_funds : ℕ → ℕ → Memory → Memory
debit_funds a n s = record s {
  funds = λ b. if (a == b) && leb n (s.funds a) then s.funds b - n else s.funds b;
}

unfoldable pub memory_transfer : ℕ → ℕ → ℕ → M Memory (Option TransferError)
memory_transfer a c n s =
    if ltb (s.funds a) n
    then (ok (some TransferError.out_of_funds), s)
    else if ltb (s.funds c + n) (2 ^ 256)
    then (ok none, move_funds a c n s)
    else (ok (some TransferError.overflow_payment), s)

module _ (keccak256 : List ℕ → ℕ) where
  abbrev pub memory : ArbJournal
  memory = record {
    State = Memory;
    keccak256 = keccak256;
    read_slot = λ a k s. (ok (s.words a k), s);
    write_slot = λ a k v s. (ok tt, put_word a k v s);
    account_balance = λ a s. (ok (s.funds a), s);
    debit_balance = λ a n s. (ok (leb n (s.funds a)), debit_funds a n s);
    transfer = memory_transfer;
    emit_log = λ l s. (ok tt, record s { logs = l ∷ s.logs });
    keccak = λ b s. (ok (keccak256 b), s);
  }

pub memory_transfer_lem :
    (a b n : ℕ) (s : Memory)
    → n ≤ s.funds a
    → s.funds b + n < 2 ^ 256
    → memory_transfer a b n s ≡ (ok none, move_funds a b n s)
unfolding memory_transfer
memory_transfer_lem a b n s h k = rw (le→ltb (s.funds a) n h, lt→ltb (s.funds b + n) (2 ^ 256) k)

pub memory_transfer_short :
    (a b n : ℕ) (s : Memory)
    → s.funds a < n
    → memory_transfer a b n s ≡ (ok (some TransferError.out_of_funds), s)
unfolding memory_transfer
memory_transfer_short a b n s h = rw (lt→ltb (s.funds a) n h)

module _ (keccak256 : List ℕ → ℕ) where
  abbrev pub memory-Lawful : Lawful (memory keccak256)
  memory-Lawful = record {
    value = λ s. s.words;
    balance = λ s. s.funds;
    seen = λ a k s. s;
    stored = put_word;
    looked = λ a s. s;
    debited = debit_funds;
    moved = move_funds;
    refused = λ a b n s. s;
    logged = λ l s. record s { logs = l ∷ s.logs };
    hashed = λ b s. s;
    read_lem = λ a k s. refl;
    write_lem = λ a k v s. refl;
    balance_lem = λ a s. refl;
    debit_lem = λ a n s. refl;
    log_lem = λ l s. refl;
    keccak_lem = λ b s. refl;
    transfer_lem = memory_transfer_lem;
    transfer_short = memory_transfer_short;
    value-seen = λ a k s b l. refl;
    value-looked = λ a s b l. refl;
    value-debited = λ a n s b l. refl;
    value-logged = λ g s b l. refl;
    value-hashed = λ t s b l. refl;
    value-moved = λ a c n s b l. refl;
    value-refused = λ a c n s b l. refl;
    value-stored = λ a k v s b l. refl;
    balance-seen = λ a k s b. refl;
    balance-looked = λ a s b. refl;
    balance-logged = λ g s b. refl;
    balance-hashed = λ t s b. refl;
    balance-stored = λ a k v s b. refl;
    balance-refused = λ a c n s b. refl;
    balance-moved = λ a c n s b. refl;
    balance-debited = λ a n s b. refl;
  }
