-- ===== src/Storage/L1Pricing/Payout.antt =====
-- The money that a batch poster is paid.
use arb_revm.Base.{
  Bool, arith, eq_self, false, min, ne→eq_false, refl, sym, true, ℕ, ℕ_discrete, ◌&&◌, ◌+◌, ◌-◌,
  ◌<◌, ◌==◌, ◌^◌, ◌≡◌, ◌≢◌, ◌≤◌,
}
use arb_revm.Journal.{ArbJournal, Lawful, ok, ◌>>=◌}
use arb_revm.Storage.Space.{StorageSlot, address_of_word}
use arb_revm.Storage.BatchPosterTable.{
  BatchPosterState, next_total, set_funds_due, funds_due, pay_to,
}
use arb_revm.Storage.L1Pricing.{L1Pricing}
use arb_revm.Storage.L1Pricing.Payments.{
  pay_poster, transfer_from_pool, transfer_result, l1_pricer_funds_pool_address,
}
use arb_revm.Storage.Slot.Runs.{held, read, written, get_u256_lem, set_u256_lem, get_address_lem}
use arb_revm.Storage.L1Pricing.Arithmetic.{sub_u256_floor_zero}

-- The floor at 0 is the subtraction of numbers.
sub_u256_floor_zero_lem : (a b : ℕ) → sub_u256_floor_zero a b ≡ a - b
unfolding sub_u256_floor_zero
sub_u256_floor_zero_lem a b = ground arith

module _ (J : ArbJournal) (L : Lawful J) where
  open J use {State}
  open L use {
    value, balance, value-seen, value-stored, value-moved, balance-seen, balance-stored,
    balance-moved, transfer_lem,
  }

  abbrev pub IsElsewhere : StorageSlot → StorageSlot → Type 0
  IsElsewhere p q = ((p.account == q.account) && (p.slot == q.slot)) ≡ false

  -- A covered transfer from the pool moves the amount; an amount of 0 moves nothing.
  transfer_from_pool_lem :
      (recipient amount : ℕ) (s : State)
      → amount ≢ 0
      → amount ≤ balance s l1_pricer_funds_pool_address
      → balance s recipient + amount < 2 ^ 256
      → transfer_from_pool J recipient amount s
        ≡ (ok tt, L.moved l1_pricer_funds_pool_address recipient amount s)
  unfolding transfer_from_pool transfer_result
  transfer_from_pool_lem recipient amount s some_amount covered fits = simp (
    ne→eq_false amount 0 some_amount,
    transfer_lem l1_pricer_funds_pool_address recipient amount s covered fits,
    ◌>>=◌,
  )

  set_funds_due_run :
      (p : BatchPosterState) (due : ℕ) (s : State)
      → set_funds_due J p due s ≡ (
        ok tt,
        written J L p.funds_due due (
            written J L p.posters_table.total_funds_due
              (next_total J
                (held J L s p.posters_table.total_funds_due)
                (held J L s p.funds_due)
                due)
              (read J L p.posters_table.total_funds_due (read J L p.funds_due s))),
      )
  unfolding set_funds_due
  set_funds_due_run p due s = simp (get_u256_lem J L, set_u256_lem J L, value-seen, ◌>>=◌)

  -- What a poster is paid, and whom.
  abbrev pub amount_due : BatchPosterState → ℕ → State → ℕ
  amount_due poster funds s = min (held J L s poster.funds_due) funds

  abbrev pub payee : BatchPosterState → State → ℕ
  payee poster s = address_of_word (held J L s poster.pay_to)

  -- After the payment the amount is with the payee and no longer due.
  abbrev pub IsPaid : BatchPosterState → ℕ → State → State → Type 0
  IsPaid poster funds s s' =
      (balance s' l1_pricer_funds_pool_address + amount_due poster funds s
        ≡ balance s l1_pricer_funds_pool_address)
      × (balance s' (payee poster s) ≡ balance s (payee poster s) + amount_due poster funds s)
      × (held J L s' poster.funds_due + amount_due poster funds s ≡ held J L s poster.funds_due)

  pay_some :
      (p : L1Pricing) (poster : BatchPosterState) (use_fees : Bool) (funds : ℕ) (s : State)
      → amount_due poster funds s ≢ 0
      → IsElsewhere p.l1_fees_available poster.funds_due
      → payee poster s ≢ l1_pricer_funds_pool_address
      → amount_due poster funds s ≤ balance s l1_pricer_funds_pool_address
      → transfer_from_pool J
          (payee poster s)
          (amount_due poster funds s)
          (read J L poster.pay_to (read J L poster.funds_due s))
        ≡ (
          ok tt,
          L.moved l1_pricer_funds_pool_address
              (payee poster s)
              (amount_due poster funds s)
              (read J L poster.pay_to (read J L poster.funds_due s)),
        )
      → let (r, s') = pay_poster J p poster use_fees funds s in
        (r ≡ ok tt) × IsPaid poster funds s s'
  unfolding pay_poster funds_due pay_to
  pay_some p poster true funds s some_amount fees_elsewhere other covered run =
      simp
        (
          get_u256_lem J L,
          get_address_lem J L,
          set_u256_lem J L,
          ne→eq_false _ 0 some_amount,
          run,
          set_funds_due_run,
          sub_u256_floor_zero_lem,
          value-seen,
          value-stored,
          value-moved,
          balance-seen,
          balance-stored,
          balance-moved,
          ne→eq_false _ _ (λ e. other (sym e)),
          fees_elsewhere,
          eq_self,
          ◌>>=◌,
        )
        (refl, (omega arith, omega arith, omega arith))
  pay_some p poster false funds s some_amount fees_elsewhere other covered run =
      simp
        (
          get_u256_lem J L,
          get_address_lem J L,
          ne→eq_false _ 0 some_amount,
          run,
          set_funds_due_run,
          sub_u256_floor_zero_lem,
          value-seen,
          value-stored,
          value-moved,
          balance-seen,
          balance-stored,
          balance-moved,
          ne→eq_false _ _ (λ e. other (sym e)),
          eq_self,
          ◌>>=◌,
        )
        (refl, (omega arith, omega arith, omega arith))

  -- A poster whose payee is not the pool is paid what it is owed, as far as the given funds go, if the
  -- balance of the pool holds the amount, the payee has room for it, and the poster's due is not kept in
  -- the word of the recorded fees: the run succeeds, the pool loses the amount, the payee gains it, and
  -- the due goes down by it.
  pub pay_poster_lem :
      (p : L1Pricing) (poster : BatchPosterState) (use_fees : Bool) (funds : ℕ) (s : State)
      → IsElsewhere p.l1_fees_available poster.funds_due
      → payee poster s ≢ l1_pricer_funds_pool_address
      → amount_due poster funds s ≤ balance s l1_pricer_funds_pool_address
      → balance s (payee poster s) + amount_due poster funds s < 2 ^ 256
      → let (r, s') = pay_poster J p poster use_fees funds s in
        (r ≡ ok tt) × IsPaid poster funds s s'
  unfolding pay_poster funds_due pay_to
  pay_poster_lem p poster use_fees funds s fees_elsewhere other covered fits =
      elim (ℕ_discrete (amount_due poster funds s) 0) [
        | yes nothing ↦
            simp (get_u256_lem J L, nothing, value-seen, balance-seen, ◌>>=◌)
              (refl, (omega arith, omega arith, omega arith))
        | no some_amount ↦
            pay_some p poster use_fees funds s some_amount fees_elsewhere other covered (
              transfer_from_pool_lem (payee poster s) (amount_due poster funds s)
                (read J L poster.pay_to (read J L poster.funds_due s)) some_amount
                (omega (arith, same l1_pricer_funds_pool_address))
                (omega (arith, same (payee poster s))))
      ]
    where
      same :
          (b : ℕ) → balance (read J L poster.pay_to (read J L poster.funds_due s)) b ≡ balance s b
      same b = simp balance-seen
