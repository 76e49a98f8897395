-- ===== src/Transactions/Deposit/Balances.antt =====
-- What a deposit does to the balances.
use arb_revm.Base.{arith, none, refl, ℕ, ◌+◌, ◌<◌, ◌^◌, ◌≡◌, ◌≢◌}
use arb_revm.Journal.{ArbJournal, Lawful, ok, ◌>>=◌}
use arb_revm.Storage.L1Pricing.Payments.{transfer_result}
use arb_revm.Transactions.{Platform, LawfulPlatform, ArbTransaction, known_hash}
use arb_revm.Transactions.Deposit.{deposit_to, deposit_recipient, DepositOutcome}

module _ (J : ArbJournal) (L : Lawful J) (P : Platform J) (Q : LawfulPlatform J L P) where
  open J use {State}
  open L use {balance, transfer_lem, balance-moved}
  open Q use {minted, balance_incr_lem, balance-minted}

  -- A deposit without a hash is applied: the recipient has the value on top of what it had, and every
  -- other account, the sender too, what it had, if the recipient is not the sender and the two
  -- balances have room for the value.
  pub deposit_to_lem :
      (tx : ArbTransaction) (target : ℕ) (s : State)
      → known_hash J tx ≡ none
      → target ≢ tx.caller
      → balance s tx.caller + tx.value < 2 ^ 256
      → balance s target + tx.value < 2 ^ 256
      → let (r, s') = deposit_to J P tx target s in
        (r ≡ ok DepositOutcome.applied)
        × (balance s' target ≡ balance s target + tx.value)
        × ((other : ℕ) → other ≢ target → balance s' other ≡ balance s other)
  unfolding deposit_to deposit_recipient transfer_result
  deposit_to_lem tx target s no_hash apart room_from room_to = rw no_hash (
      simp
        (
          balance_incr_lem tx.caller tx.value s room_from,
          transfer_lem tx.caller target tx.value (minted tx.caller tx.value s)
              (ground (arith, balance-minted tx.caller tx.value s tx.caller))
              (ground (arith, balance-minted tx.caller tx.value s target)),
          ◌>>=◌,
        )
        (
          refl,
          ground (
            arith,
            balance-moved tx.caller target tx.value (minted tx.caller tx.value s) target,
            balance-minted tx.caller tx.value s target,
          ),
          λ other ne. ground (
            arith,
            balance-moved tx.caller target tx.value (minted tx.caller tx.value s) other,
            balance-minted tx.caller tx.value s other,
          ),
        ))
