-- ===== src/Storage/Programs/DataFee.antt =====
-- The fee for activation data: at least the minimum price for each byte, and growing with demand.
use arb_revm.Base.{
  ap, arith, eq_self, if◌then◌else◌, ne→eq_false, refl, saturating_mul, ℕ, ℕ_discrete, ◌*◌, ◌+◌,
  ◌-◌, ◌/◌, ◌<◌, ◌==◌, ◌^◌, ◌∙◌, ◌≡◌, ◌≤◌,
}
use native.Mathlib.Nat.{le-div_iff_mul-le}
use arb_revm.Base.Int.{pos}
use arb_revm.Journal.{ArbJournal, Lawful, ok, ◌>>=◌}
use arb_revm.Storage.Space.{StorageSpace, slot_for_hash, open_subspace_with_key, StorageSlot}
use arb_revm.Storage.Space.Apart.{AreApart, slots_eq, AreApart-page}
use arb_revm.Storage.Slot.Runs.{held, read, written, get_uint_lem, set_u32_lem, set_u64_lem}
use arb_revm.Storage.L2Pricing.Exp.{approx_exp_basis_points, twelve_positive, one_in_bips}
use arb_revm.Storage.L2Pricing.Exp.Bounds.{approx_exp_bounds, approx_exp_mono, mul_mono, div_mono}
use arb_revm.Storage.Programs.{
  data_fee, ArbosPrograms, ProgramDataPricer, next_demand, open_programs, update_data_model,
}
use arb_revm.Storage.Slot.{get_uint}

module _ (min_price temp_bytes : ℕ) where
  abbrev price_at : ℕ → ℕ
  price_at multiplier =
      saturating_mul 64 (saturating_mul 64 min_price multiplier / one_in_bips) temp_bytes

  price_floor :
      (m : ℕ)
      → min_price < 2 ^ 32
      → temp_bytes < 2 ^ 32
      → one_in_bips ≤ m
      → min_price * temp_bytes ≤ price_at m
  price_floor m hp ht h =
      let per_byte : min_price ≤ saturating_mul 64 min_price m / one_in_bips =
        (le-div_iff_mul-le {k = one_in_bips} {x = min_price} {y = saturating_mul 64 min_price m}
            (omega arith)).1
          (omega (arith, mul_mono min_price min_price one_in_bips m (omega arith) h)) in
      omega (
        arith,
        mul_mono min_price (saturating_mul 64 min_price m / one_in_bips) temp_bytes temp_bytes
            per_byte (omega arith),
        mul_mono min_price (2 ^ 32 - 1) temp_bytes (2 ^ 32 - 1) (omega arith) (omega arith),
      )

  price_mono : (m n : ℕ) → m ≤ n → price_at m ≤ price_at n
  price_mono m n h =
      let per_byte : saturating_mul 64 min_price m / one_in_bips
          ≤ saturating_mul 64 min_price n / one_in_bips =
        div_mono one_in_bips {m = saturating_mul 64 min_price m} {n = saturating_mul 64 min_price n}
          (omega arith) (omega (arith, mul_mono min_price min_price m n (omega arith) h)) in
      omega (
        arith,
        mul_mono (saturating_mul 64 min_price m / one_in_bips)
            (saturating_mul 64 min_price n / one_in_bips) temp_bytes temp_bytes per_byte
            (omega arith),
      )

  abbrev exponent : ℕ → ℕ → ℕ
  exponent demand inertia = if inertia == 0 then 0 else one_in_bips * demand / inertia

  exponent_mono : (d e inertia : ℕ) → d ≤ e → exponent d inertia ≤ exponent e inertia
  exponent_mono d e inertia h = elim (ℕ_discrete inertia 0) [
    | yes z ↦ ground arith
    | no nz ↦ rw (ne→eq_false inertia 0 nz) (
        div_mono inertia {m = one_in_bips * d} {n = one_in_bips * e} (omega (arith, nz))
          (omega arith))
  ]

  -- More demand never makes the data cheaper.
  pub data_fee_mono :
      (d e inertia : ℕ)
      → d ≤ e
      → data_fee d min_price inertia temp_bytes ≤ data_fee e min_price inertia temp_bytes
  unfolding data_fee
  data_fee_mono d e inertia h =
      price_mono (approx_exp_basis_points (pos (exponent d inertia)) 12 twelve_positive)
        (approx_exp_basis_points (pos (exponent e inertia)) 12 twelve_positive)
        (approx_exp_mono (exponent d inertia) (exponent e inertia) 12 twelve_positive
          (exponent_mono d e inertia h))

  pub data_fee_floor :
      (d inertia : ℕ)
      → min_price < 2 ^ 32
      → temp_bytes < 2 ^ 32
      → min_price * temp_bytes ≤ data_fee d min_price inertia temp_bytes
  unfolding data_fee
  data_fee_floor d inertia hp ht =
      price_floor (approx_exp_basis_points (pos (exponent d inertia)) 12 twelve_positive) hp ht
        (approx_exp_bounds (exponent d inertia) 12 twelve_positive).0

next_demand_le : (d rate last time n : ℕ) → next_demand d rate last time n ≤ d + n
unfolding next_demand
next_demand_le d rate last time n = omega arith

next_demand_ge : (d rate last time n : ℕ) → n < 2 ^ 32 → n ≤ next_demand d rate last time n
unfolding next_demand
next_demand_ge d rate last time n h = omega arith

next_demand_fits : (d rate last time n : ℕ) → next_demand d rate last time n < 2 ^ 32
unfolding next_demand
next_demand_fits d rate last time n = omega arith

module _ (J : ArbJournal) (L : Lawful J) (root : StorageSpace) where
  open J use {State}
  open L use {value, value-seen, value-stored, read_lem, write_lem}

  abbrev programs : ArbosPrograms
  programs = open_programs J root

  abbrev pricer_space : StorageSpace
  pricer_space = open_subspace_with_key J root 3

  abbrev pricer : ProgramDataPricer
  pricer = programs.data_pricer

  -- The words of the pricer fit their types.
  pub record IsPricer (s : State) : Type 0 where
    pub demand_fits : held J L s pricer.demand < 2 ^ 32
    pub rate_fits : held J L s pricer.bytes_per_second < 2 ^ 32
    pub time_fits : held J L s pricer.last_update_time < 2 ^ 64
    pub min_price_fits : held J L s pricer.min_price < 2 ^ 32
    pub inertia_fits : held J L s pricer.inertia < 2 ^ 32

  apart : AreApart J 5 pricer_space
  apart = AreApart-page J 5 pricer_space (omega arith)

  abbrev slot : ℕ → ℕ
  slot i = slot_for_hash J pricer_space i

  abbrev demand_after : ℕ → ℕ → State → ℕ
  demand_after temp_bytes time s =
      next_demand (held J L s pricer.demand) (held J L s pricer.bytes_per_second)
        (held J L s pricer.last_update_time) time temp_bytes

  abbrev fee_of : ℕ → ℕ → State → ℕ
  fee_of temp_bytes time s =
      data_fee (demand_after temp_bytes time s) (held J L s pricer.min_price)
        (held J L s pricer.inertia) temp_bytes

  abbrev after_reads : State → State
  after_reads s = read J L pricer.inertia (
      read J L pricer.min_price (
        read J L pricer.last_update_time
          (read J L pricer.bytes_per_second (read J L pricer.demand s))))

  abbrev after_update : ℕ → ℕ → State → State
  after_update temp_bytes time s =
      written J L pricer.last_update_time time
        (written J L pricer.demand (demand_after temp_bytes time s) (after_reads s))

  -- Reading a field in a state that holds what `s` holds.
  get_same :
      (w : ℕ) (p : StorageSlot) (s s' : State)
      → held J L s' p ≡ held J L s p
      → held J L s p < 2 ^ w
      → get_uint J w p s' ≡ (ok (held J L s p), read J L p s')
  get_same w p s s' e h = get_uint_lem J L w p s' (rw e h) ∙ ap (λ t. (ok t, read J L p s')) e

  update_data_model_run :
      (temp_bytes time : ℕ) (s : State)
      → IsPricer s
      → update_data_model J programs temp_bytes time s
        ≡ (ok (fee_of temp_bytes time s), after_update temp_bytes time s)
  unfolding update_data_model
  update_data_model_run temp_bytes time s p =
      let s1 : State = read J L pricer.demand s in
      let s2 : State = read J L pricer.bytes_per_second s1 in
      let s3 : State = read J L pricer.last_update_time s2 in
      let s4 : State = read J L pricer.min_price s3 in
      simp
        (
          get_uint_lem J L 32 pricer.demand s p.demand_fits,
          get_same 32 pricer.bytes_per_second s s1 (simp value-seen) p.rate_fits,
          get_same 64 pricer.last_update_time s s2 (simp value-seen) p.time_fits,
          get_same 32 pricer.min_price s s3 (simp value-seen) p.min_price_fits,
          get_same 32 pricer.inertia s s4 (simp value-seen) p.inertia_fits,
          set_u32_lem J L,
          set_u64_lem J L,
          ◌>>=◌,
        )
        refl

  -- The word of field `j` after a write to field `i`.
  field-written :
      (i j v : ℕ) (s : State)
      → i < 5
      → j < 5
      → value (L.stored pricer_space.account (slot i) v s) pricer_space.account (slot j)
        ≡ (if i == j then v else value s pricer_space.account (slot j))
  field-written i j v s hi hj =
      simp (value-stored, eq_self, slots_eq J 5 pricer_space apart i j hi hj)

  -- What the fields hold after an update: the demand and the time are new, the others as before.
  after_update_lem :
      (temp_bytes time j : ℕ) (s : State)
      → j < 5
      → value (after_update temp_bytes time s) pricer_space.account (slot j) ≡ (
          if 2 == j
          then time
          else if 0 == j
          then demand_after temp_bytes time s
          else value s pricer_space.account (slot j))
  after_update_lem temp_bytes time j s hj =
      field-written 2 j time
        (written J L pricer.demand (demand_after temp_bytes time s) (after_reads s)) (omega arith)
        hj
      ∙ ap (λ t. if 2 == j then time else t)
          (field-written 0 j (demand_after temp_bytes time s) (after_reads s) (omega arith) hj
            ∙ ap (λ t. if 0 == j then demand_after temp_bytes time s else t) (simp value-seen))

  -- With the words of the pricer in their types, an update returns a fee of at
  -- least the minimum price for each byte, and afterwards the words are in their types, the time is
  -- the given one, and the demand is at least the new bytes and at most these on top of the old.
  pub update_data_model_lem :
      (temp_bytes time : ℕ) (s : State)
      → IsPricer s
      → temp_bytes < 2 ^ 32
      → time < 2 ^ 64
      → let (r, s') = update_data_model J programs temp_bytes time s in
        ((fee : ℕ) × (r ≡ ok fee) × (held J L s pricer.min_price * temp_bytes ≤ fee))
        × IsPricer s'
        × (held J L s' pricer.last_update_time ≡ time)
        × (temp_bytes ≤ held J L s' pricer.demand)
        × (held J L s' pricer.demand ≤ held J L s pricer.demand + temp_bytes)
  update_data_model_lem temp_bytes time s p hn ht = rw (update_data_model_run temp_bytes time s p) (
    (
      fee_of temp_bytes time s,
      refl,
      data_fee_floor (held J L s pricer.min_price) temp_bytes (demand_after temp_bytes time s)
          (held J L s pricer.inertia) p.min_price_fits hn,
    ),
    record {
      demand_fits = rw (after 0 (omega arith)) fits;
      rate_fits = rw (after 1 (omega arith)) p.rate_fits;
      time_fits = rw (after 2 (omega arith)) ht;
      min_price_fits = rw (after 3 (omega arith)) p.min_price_fits;
      inertia_fits = rw (after 4 (omega arith)) p.inertia_fits;
    },
    after 2 (omega arith),
    rw (after 0 (omega arith)) ge,
    rw (after 0 (omega arith)) le,
  )
    where
      after :
          (j : ℕ)
          → j < 5
          → value (after_update temp_bytes time s) pricer_space.account (slot j) ≡ (
              if 2 == j
              then time
              else if 0 == j
              then demand_after temp_bytes time s
              else value s pricer_space.account (slot j))
      after j hj = after_update_lem temp_bytes time j s hj

      fits : demand_after temp_bytes time s < 2 ^ 32
      fits = next_demand_fits _ _ _ time temp_bytes

      ge : temp_bytes ≤ demand_after temp_bytes time s
      ge = next_demand_ge _ _ _ time temp_bytes hn

      le : demand_after temp_bytes time s ≤ held J L s pricer.demand + temp_bytes
      le = next_demand_le _ _ _ time temp_bytes
