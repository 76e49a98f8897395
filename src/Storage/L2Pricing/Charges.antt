-- ===== src/Storage/L2Pricing/Charges.antt =====
-- The words that the backlog of the L2 price reads, and what shrinking the constraints charges.
use arb_revm.Base.{
  arith, fun_ext, min, refl, saturating_add, saturating_mul, subst, suc, sym, u64_max, zero, ℕ, ◌*◌,
  ◌+◌, ◌-◌, ◌<◌, ◌^◌, ◌∙◌, ◌≡◌, ◌≤◌,
}
use arb_revm.Journal.{ArbJournal, Lawful, ok, ◌>>=◌}
use arb_revm.Journal.Metered.{storage_read_cost, storage_write_cost}
use arb_revm.Storage.Slot.Runs.{held, read, written, get_uint_lem, set_u64_lem}
use arb_revm.Storage.L2Pricing.{
  L2Pricing, open_gas_constraint, open_multi_gas_constraint, resource_kind_single_dim,
}
use arb_revm.Storage.L2Pricing.Model.{LengthsFit}
use arb_revm.Storage.L2Pricing.Backlog.{update_cost, shrink_constraints, shrink_multi_constraints}
use arb_revm.Storage.Space.{StorageSlot}

module _ (J : ArbJournal) (L : Lawful J) (l : L2Pricing) where
  open J use {State}
  open L use {value, value-seen, value-stored}

  abbrev pub word : (ℕ → ℕ → ℕ) → StorageSlot → ℕ
  word f p = f p.account p.slot

  -- Every word that the backlog code reads fits a `u64`, in the words that `f` gives.
  pub record WordsFit (f : ℕ → ℕ → ℕ) : Type 0 where
    pub lengths : LengthsFit J L l f
    pub backlog_in_u64 : word f l.gas_backlog < 2 ^ 64
    pub single_in_u64 : (i : ℕ) → word f (open_gas_constraint J l i).backlog < 2 ^ 64
    pub multi_in_u64 : (i : ℕ) → word f (open_multi_gas_constraint J l i).backlog < 2 ^ 64
    pub weight_in_u64 :
        (i : ℕ)
        → word f ((open_multi_gas_constraint J l i).weighted_resources resource_kind_single_dim)
          < 2 ^ 64

  abbrev pub HasWords : State → Type 0
  HasWords s = WordsFit (value s)

  pub HasWords-of_eq : (s t : State) → value t ≡ value s → HasWords s → HasWords t
  HasWords-of_eq s t e h = subst WordsFit (sym e) h

  pub read_words : (p : StorageSlot) (s : State) → value (read J L p s) ≡ value s
  read_words p s = fun_ext (λ a. fun_ext (λ k. value-seen p.account p.slot s a k))

  -- What the loop over the single constraints needs of them.
  abbrev SingleWords : State → Type 0
  SingleWords s = (i : ℕ) → held J L s (open_gas_constraint J l i).backlog < 2 ^ 64

  pub update_cost_le : (n : ℕ) → update_cost n ≤ storage_write_cost
  unfolding update_cost
  update_cost_le n = ground arith

  -- Writing a `u64` keeps every word a `u64`.
  written_in_u64 :
      (s : State) (a k v b m : ℕ)
      → v < 2 ^ 64
      → value s b m < 2 ^ 64
      → value (L.stored a k v s) b m < 2 ^ 64
  written_in_u64 s a k v b m hv hs = rw (value-stored a k v s b m) (ground arith)

  pub shrink_constraints_charge :
      (gas n i cost : ℕ) (s : State)
      → SingleWords s
      → cost ≤ u64_max
      → (charge : ℕ) × ((shrink_constraints J l gas n i cost s).0 ≡ ok charge)
        × (charge ≤ min (cost + n * (storage_read_cost + storage_write_cost)) u64_max)
  unfolding shrink_constraints
  shrink_constraints_charge gas zero i cost s h bound = (cost, refl, omega arith)
  shrink_constraints_charge gas (suc n) i cost s h bound =
      let p = (open_gas_constraint J l i).backlog in
      let cost' : ℕ =
        saturating_add 64 cost (storage_read_cost + update_cost (held J L s p - gas)) in
      let (charge, done, small) =
        shrink_constraints_charge gas n (i + 1) cost'
          (written J L p (held J L s p - gas) (read J L p s))
          (λ j.
            written_in_u64 (read J L p s) p.account p.slot (held J L s p - gas) _ _
              (omega (arith, h i)) (rw value-seen (h j)))
          (omega arith) in
      (
        charge,
        simp (get_uint_lem J L 64 p s (h i), set_u64_lem J L, ◌>>=◌) done,
        omega (arith, small, update_cost_le (held J L s p - gas)),
      )

  pub shrink_multi_constraints_ok :
      (gas n i : ℕ) (s : State) → HasWords s → (shrink_multi_constraints J l gas n i s).0 ≡ ok tt
  unfolding shrink_multi_constraints
  shrink_multi_constraints_ok gas zero i s h = refl
  shrink_multi_constraints_ok gas (suc n) i s h =
      let c = open_multi_gas_constraint J l i in
      let p = c.backlog in
      let q = c.weighted_resources resource_kind_single_dim in
      let v : ℕ = held J L s p - saturating_mul 64 gas (held J L s q) in
      simp
        (
          get_uint_lem J L 64 p s (h.multi_in_u64 i),
          get_uint_lem J L 64 q (read J L p s) (rw value-seen (h.weight_in_u64 i)),
          value-seen,
          set_u64_lem J L,
          ◌>>=◌,
        )
        (shrink_multi_constraints_ok gas n (i + 1) (written J L p v (read J L q (read J L p s))) (
          keep (read J L q (read J L p s)) p v (omega (arith, h.multi_in_u64 i)) (
            HasWords-of_eq s (read J L q (read J L p s))
              (read_words q (read J L p s) ∙ read_words p s) h)))
    where
      keep :
          (s : State) (p : StorageSlot) (v : ℕ)
          → v < 2 ^ 64
          → HasWords s
          → HasWords (written J L p v s)
      keep s p v hv h = record {
        lengths = record {
          single_in_u64 = written_in_u64 s p.account p.slot v _ _ hv h.lengths.single_in_u64;
          multi_in_u64 = written_in_u64 s p.account p.slot v _ _ hv h.lengths.multi_in_u64;
        };
        backlog_in_u64 = written_in_u64 s p.account p.slot v _ _ hv h.backlog_in_u64;
        single_in_u64 = λ j. written_in_u64 s p.account p.slot v _ _ hv (h.single_in_u64 j);
        multi_in_u64 = λ j. written_in_u64 s p.account p.slot v _ _ hv (h.multi_in_u64 j);
        weight_in_u64 = λ j. written_in_u64 s p.account p.slot v _ _ hv (h.weight_in_u64 j);
      }
