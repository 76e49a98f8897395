-- ===== src/Storage/BatchPosterTable/Funds.antt =====
-- What a change of a poster's due does to the total.
use arb_revm.Base.{arith, refl, ℕ, ◌+◌, ◌-◌, ◌<◌, ◌^◌, ◌≡◌, ◌≢◌, ◌≤◌}
use arb_revm.Journal.{ArbJournal, Lawful, ok, ◌>>=◌}
use arb_revm.Storage.BatchPosterTable.{BatchPosterState, set_funds_due}
use arb_revm.Storage.Slot.Runs.{held, get_u256_lem, set_u256_lem}

module _ (J : ArbJournal) (L : Lawful J) where
  open J use {State}
  open L use {value-seen, value-stored}

  -- A poster's due stands in another slot of the account than the total.
  abbrev pub AreSeparate : BatchPosterState → Type 0
  AreSeparate p =
      (p.funds_due.account ≡ p.posters_table.total_funds_due.account)
      × (p.funds_due.slot ≢ p.posters_table.total_funds_due.slot)

  -- Setting a poster's due succeeds and stores it. If the due has a slot of its own, the total
  -- counts the old due, and the sum with the new one fits a word, the total changes by the
  -- difference of the dues: what the others are owed stays the same.
  pub set_funds_due_lem :
      (p : BatchPosterState) (due : ℕ) (s : State)
      → AreSeparate p
      → held J L s p.funds_due ≤ held J L s p.posters_table.total_funds_due
      → held J L s p.posters_table.total_funds_due + due < 2 ^ 256
      → let (r, s') = set_funds_due J p due s in
        (r ≡ ok tt)
        × (held J L s' p.funds_due ≡ due)
        × (held J L s' p.posters_table.total_funds_due - held J L s' p.funds_due
            ≡ held J L s p.posters_table.total_funds_due - held J L s p.funds_due)
  unfolding set_funds_due
  set_funds_due_lem p due s (same, apart) counted fits =
      simp (get_u256_lem J L, set_u256_lem J L, value-stored, value-seen, ◌>>=◌)
        (refl, ground arith, ground (arith, apart, same, counted, fits))
