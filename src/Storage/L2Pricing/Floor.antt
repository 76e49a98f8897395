-- ===== src/Storage/L2Pricing/Floor.antt =====
-- The base fee that a pricing update leaves never lies below the minimum base fee.
use arb_revm.Base.{
  Bool-cases, arith, eq_self, if◌then◌else◌, inl, inr, ltb, min, refl, saturating_mul, suc,
  u256_max, u64_max, zero, ℕ, ◌*◌, ◌-◌, ◌/◌, ◌<◌, ◌==◌, ◌^◌, ◌∙◌, ◌≡◌, ◌≤◌,
}
use arb_revm.Base.Int.{pos}
use arb_revm.Journal.{ArbJournal, Lawful, ok, ◌>>=◌}
use arb_revm.Storage.Space.{StorageSpace, storage_backed, slot_for_hash, StorageSlot}
use arb_revm.Storage.Space.Apart.{AreApart, slots_eq}
use arb_revm.Storage.Slot.Runs.{
  read, written, get_uint_lem, set_u64_lem, get_u256_lem, set_u256_lem,
}
use arb_revm.Storage.L2Pricing.{open_l2_pricing}
use arb_revm.Storage.L2Pricing.Exp.{
  approx_exp_basis_points, four_positive, one_in_bips, natural_to_bips, as_i64,
}
use arb_revm.Storage.L2Pricing.Exp.Bounds.{approx_exp_bounds, big_mul_by_bips_ge}
use arb_revm.Storage.L2Pricing.Update.{legacy_base_fee, exponent_bips, update_pricing_model_legacy}

-- An exponent whose divisor is an `i64` is not negative.
exponent_not_negative :
    (excess divisor : ℕ) → divisor < 2 ^ 63 → (x : ℕ) × (exponent_bips excess divisor ≡ pos x)
unfolding exponent_bips as_i64
exponent_not_negative excess zero h = (0, refl)
exponent_not_negative excess (suc d) h = (natural_to_bips excess / suc d, ground arith)

legacy_base_fee_ge :
    (backlog speed_limit inertia tolerance min_base_fee : ℕ)
    → inertia * speed_limit < 2 ^ 63
    → min_base_fee * one_in_bips ≤ u256_max
    → min_base_fee ≤ legacy_base_fee backlog speed_limit inertia tolerance min_base_fee
unfolding legacy_base_fee
legacy_base_fee_ge b s i t m h fits =
    let (x, e) =
      exponent_not_negative (b - saturating_mul 64 t s) (saturating_mul 64 i s) (omega arith) in
    elim (Bool-cases (ltb (saturating_mul 64 t s) b)) [
      | inl over ↦
          rw (over, e)
            (big_mul_by_bips_ge m (approx_exp_basis_points (pos x) 4 four_positive)
              (approx_exp_bounds x 4 four_positive).0 fits)
      | inr calm ↦ rw calm (omega arith)
    ]

module _ (J : ArbJournal) (L : Lawful J) (sp : StorageSpace) (apart : AreApart J 8 sp) where
  open J use {State}
  open L use {value, value-seen, value-stored}

  abbrev cell : State → ℕ → ℕ
  cell s i = value s sp.account (slot_for_hash J sp i)

  -- The words of the legacy model, each in its type.
  pub record HasLegacyWords (s : State) : Type 0 where
    pub speed_limit : cell s 0 < 2 ^ 64
    pub backlog : cell s 4 < 2 ^ 64
    pub inertia : cell s 5 < 2 ^ 64
    pub tolerance : cell s 6 < 2 ^ 64

  abbrev at : ℕ → StorageSlot
  at i = storage_backed J sp i

  -- The backlog and the fee that an update computes, and the states that it goes through.
  abbrev new_backlog : ℕ → State → ℕ
  new_backlog t s = cell s 4 - saturating_mul 64 t (cell s 0)

  abbrev new_fee : ℕ → State → ℕ
  new_fee t s = legacy_base_fee (new_backlog t s) (cell s 0) (cell s 5) (cell s 6) (cell s 3)

  abbrev shrunk : ℕ → State → State
  shrunk t s = written J L (at 4) (new_backlog t s) (read J L (at 4) (read J L (at 0) s))

  abbrev asked : ℕ → State → State
  asked t s = read J L (at 3) (read J L (at 6) (read J L (at 5) (shrunk t s)))

  cell-written :
      (i j v : ℕ) (s : State)
      → i < 8
      → j < 8
      → cell (written J L (at i) v s) j ≡ (if i == j then v else cell s j)
  cell-written i j v s hi hj = simp (value-stored, eq_self, slots_eq J 8 sp apart i j hi hj)

  cell-shrunk :
      (t j : ℕ) (s : State)
      → j < 8
      → cell (shrunk t s) j ≡ (if 4 == j then new_backlog t s else cell s j)
  cell-shrunk t j s hj =
      cell-written 4 j (new_backlog t s) (read J L (at 4) (read J L (at 0) s)) (omega arith) hj
      ∙ simp value-seen

  update_run :
      (t : ℕ) (s : State)
      → HasLegacyWords s
      → update_pricing_model_legacy J (open_l2_pricing J sp) t s
        ≡ (ok tt, written J L (at 2) (new_fee t s) (asked t s))
  unfolding update_pricing_model_legacy open_l2_pricing
  update_run t s w = simp (
    get_uint_lem J L 64 (at 0) s w.speed_limit,
    get_uint_lem J L 64 (at 4) (read J L (at 0) s) (rw value-seen w.backlog),
    get_uint_lem J L 64 (at 5) (shrunk t s) (rw (cell-shrunk t 5 s (omega arith)) w.inertia),
    get_uint_lem J L 64 (at 6) (read J L (at 5) (shrunk t s))
        (rw (value-seen, cell-shrunk t 6 s (omega arith)) w.tolerance),
    set_u64_lem J L,
    get_u256_lem J L,
    set_u256_lem J L,
    value-seen,
    cell-shrunk t 5 s (omega arith),
    cell-shrunk t 6 s (omega arith),
    cell-shrunk t 3 s (omega arith),
    ◌>>=◌,
  )

  cell-update :
      (t j : ℕ) (s : State)
      → j < 8
      → cell (written J L (at 2) (new_fee t s) (asked t s)) j
        ≡ (if 2 == j then new_fee t s else if 4 == j then new_backlog t s else cell s j)
  cell-update t j s hj =
      cell-written 2 j (new_fee t s) (asked t s) (omega arith) hj
      ∙ simp (value-seen, cell-shrunk t j s hj)

  -- Where the words fit their types, a legacy update succeeds. The backlog shrinks by the speed
  -- limit times the time passed, down to 0 at the least, the minimum base fee stays, and the new
  -- base fee is at least the minimum, if inertia times speed limit fits an `i64` and the minimum
  -- fee has room for the scaling.
  pub legacy_update_lem :
      (time_passed : ℕ) (s : State)
      → HasLegacyWords s
      → cell s 5 * cell s 0 < 2 ^ 63
      → cell s 3 * one_in_bips ≤ u256_max
      → let (r, s') = update_pricing_model_legacy J (open_l2_pricing J sp) time_passed s in
        (r ≡ ok tt)
        × (cell s' 4 ≡ cell s 4 - min (time_passed * cell s 0) u64_max)
        × (cell s' 3 ≡ cell s 3)
        × (cell s 3 ≤ cell s' 2)
  legacy_update_lem t s w d fits = rw (update_run t s w) (
    refl,
    cell-update t 4 s (omega arith),
    cell-update t 3 s (omega arith),
    rw (cell-update t 2 s (omega arith))
        (legacy_base_fee_ge (new_backlog t s) (cell s 0) (cell s 5) (cell s 6) (cell s 3) d fits),
  )
