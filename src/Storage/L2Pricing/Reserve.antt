-- ===== src/Storage/L2Pricing/Reserve.antt =====
-- What `Redeem` reserves for the trailing backlog update covers what the update charges.
use arb_revm.Base.{
  Bool-cases, arith, if◌then◌else◌, inl, inr, leb, ltb, min, subst, true, u64_max, unwrap_or, ℕ,
  ◌&&◌, ◌*◌, ◌+◌, ◌-◌, ◌≡◌, ◌≢◌, ◌≤◌,
}
use native.Mathlib.Nat.{le_trans}
use arb_revm.Journal.{ArbJournal, Lawful, ok, ◌>>=◌}
use arb_revm.Journal.Metered.{storage_read_cost, storage_write_cost}
use arb_revm.Storage.Slot.Runs.{held, read, get_uint_lem, set_u64_lem}
use arb_revm.Storage.L2Pricing.{
  L2Pricing, multi_gas_constraints, legacy, gas_constraints_length, single_gas_constraints,
  multi_gas_constraints_length,
}
use arb_revm.Storage.L2Pricing.Model.{
  after_model, value-after_model, multi_gas_constraints_len_lem, gas_constraints_len_lem, model_in,
  gas_model_lem, model_of,
}
use arb_revm.Storage.L2Pricing.Backlog.{
  update_cost, shrink_under, fixed_cost, backlog_update_cost, shrink_backlog,
  backlog_update_cost_for_constraints,
}
use arb_revm.Storage.L2Pricing.Charges.{
  HasWords, word, HasWords-of_eq, update_cost_le, shrink_constraints_charge,
  shrink_multi_constraints_ok, read_words,
}

module _ (J : ArbJournal) (L : Lawful J) (l : L2Pricing) where
  open J use {State}
  open L use {value, value-seen, value-stored}

  -- The most that a backlog update charges under a model.
  abbrev most : ℕ → ℕ → ℕ
  most v n =
      if leb 60 v
      then storage_read_cost + storage_write_cost
      else if leb 50 v && ltb 0 n
      then min (2 * storage_read_cost + n * (storage_read_cost + storage_write_cost)) u64_max
      else (if leb 50 v then storage_read_cost else 0) + storage_read_cost + storage_write_cost

  words_after_model :
      (v : ℕ) (s : State) → HasWords J L l s → HasWords J L l (after_model J L l v s)
  words_after_model v s h =
      HasWords-of_eq J L l s (after_model J L l v s) (value-after_model J L l v s) h

  legacy_charge :
      (gas v : ℕ) (s : State)
      → HasWords J L l s
      → (charge : ℕ) × ((shrink_under J l gas v legacy s).0 ≡ ok charge) × (charge ≤ most v 0)
  unfolding shrink_under
  legacy_charge gas v s h = (
    unwrap_or (fixed_cost v) (
        (if leb 50 v then storage_read_cost else 0)
        + storage_read_cost
        + update_cost (held J L s l.gas_backlog - gas)),
    simp (get_uint_lem J L 64 l.gas_backlog s h.backlog_in_u64, set_u64_lem J L, ◌>>=◌),
    ground (arith, update_cost_le J L l (held J L s l.gas_backlog - gas)),
  )

  single_charge :
      (gas v : ℕ) (s : State)
      → HasWords J L l s
      → leb 50 v ≡ true
      → ltb 0 (held J L s (gas_constraints_length J l)) ≡ true
      → (charge : ℕ) × ((shrink_under J l gas v single_gas_constraints s).0 ≡ ok charge)
        × (charge ≤ most v (held J L s (gas_constraints_length J l)))
  unfolding shrink_under
  single_charge gas v s h new some_left =
      let n = held J L s (gas_constraints_length J l) in
      let (charge, done, small) =
        shrink_constraints_charge J L l gas n 0 (2 * storage_read_cost)
          (read J L (gas_constraints_length J l) s) (λ j. rw value-seen (h.single_in_u64 j))
          (omega arith) in
      (
        unwrap_or (fixed_cost v) charge,
        simp (gas_constraints_len_lem J L l s h.lengths, ◌>>=◌) (rw (done, ◌>>=◌)),
        ground arith,
      )

  multi_charge :
      (gas v : ℕ) (s : State)
      → HasWords J L l s
      → leb 60 v ≡ true
      → (shrink_under J l gas v multi_gas_constraints s).0
        ≡ ok (storage_read_cost + storage_write_cost)
  unfolding shrink_under
  multi_charge gas v s h new =
      simp (multi_gas_constraints_len_lem J L l s h.lengths, ◌>>=◌)
        (rw (
          shrink_multi_constraints_ok J L l gas (held J L s (multi_gas_constraints_length J l)) 0
              (read J L (multi_gas_constraints_length J l) s)
              (HasWords-of_eq J L l s (read J L (multi_gas_constraints_length J l) s)
                (read_words J L l (multi_gas_constraints_length J l) s) h),
          new,
        ))

  -- The charge of the model that a state is in.
  charge_in_model :
      (gas v : ℕ) (s : State)
      → HasWords J L l s
      → (charge : ℕ) × ((shrink_under J l gas v (model_in J L l s v) s).0 ≡ ok charge)
        × (charge ≤ most v (held J L s (gas_constraints_length J l)))
  charge_in_model gas v s h =
      elim (Bool-cases (leb 60 v && ltb 0 (held J L s (multi_gas_constraints_length J l)))) [
        | inl multi ↦ rw multi (
          storage_read_cost + storage_write_cost,
          multi_charge gas v s h (ground arith),
          ground arith,
        )
        | inr single ↦
            rw single
              (elim (Bool-cases (leb 50 v && ltb 0 (held J L s (gas_constraints_length J l)))) [
                | inl some_left ↦ rw some_left (
                    let (charge, done, small) =
                      single_charge gas v s h (ground arith) (ground arith) in
                    (charge, done, ground arith))
                | inr legacy_model ↦ rw legacy_model (
                    let (charge, done, small) = legacy_charge gas v s h in
                    (charge, done, ground arith))
              ])
      ]

  charge_after_model :
      (gas v : ℕ) (s : State)
      → HasWords J L l s
      → (charge : ℕ) × ((shrink_under J l gas v (model_in J L l s v) (after_model J L l v s)).0
          ≡ ok charge)
        × (charge ≤ most v (held J L s (gas_constraints_length J l)))
  charge_after_model gas v s h =
      subst
        (λ f.
          (charge : ℕ) × ((shrink_under J l gas v
              (model_of v (word J L l f (multi_gas_constraints_length J l))
                (word J L l f (gas_constraints_length J l)))
              (after_model J L l v s)).0
            ≡ ok charge)
          × (charge ≤ most v (word J L l f (gas_constraints_length J l))))
        (value-after_model J L l v s)
        (charge_in_model gas v (after_model J L l v s) (words_after_model v s h))

  reserved_lem :
      (v : ℕ) (s : State)
      → HasWords J L l s
      → (reserved : ℕ) × ((backlog_update_cost J l v s).0 ≡ ok reserved)
        × (v ≢ 50 → most v (held J L s (gas_constraints_length J l)) ≤ reserved)
  unfolding backlog_update_cost backlog_update_cost_for_constraints
  reserved_lem v s h = elim (Bool-cases (leb 51 v && ltb v 60)) [
    | inl counted ↦ (
      backlog_update_cost_for_constraints v (held J L s (gas_constraints_length J l)),
      simp (counted, gas_constraints_len_lem J L l s h.lengths, ◌>>=◌),
      λ other. ground arith,
    )
    | inr fixed ↦
        (backlog_update_cost_for_constraints v 0, simp (fixed, ◌>>=◌), λ other. ground arith)
  ]

  -- At every ArbOS version but 50, where the words in storage fit their types, `shrink_backlog`
  -- succeeds and charges no more than `backlog_update_cost` reserved for it in the same state.
  pub shrink_backlog-le-reserved :
      (gas v : ℕ) (s : State)
      → HasWords J L l s
      → v ≢ 50
      → (charge reserved : ℕ) × ((shrink_backlog J l gas v s).0 ≡ ok charge)
        × ((backlog_update_cost J l v s).0 ≡ ok reserved)
        × (charge ≤ reserved)
  unfolding shrink_backlog
  shrink_backlog-le-reserved gas v s h other =
      let (charge, done, small) = charge_after_model gas v s h in
      let (reserved, told, covers) = reserved_lem v s h in
      (
        charge,
        reserved,
        simp (gas_model_lem J L l v s h.lengths, ◌>>=◌) done,
        told,
        le_trans small (covers other),
      )
