-- ===== src/Storage/L2Pricing/Model.antt =====
-- Which gas model is in force: the version and the two lengths decide.
use arb_revm.Base.{Bool-cases, fun_ext, if◌then◌else◌, inl, inr, leb, ltb, ℕ, ◌&&◌, ◌<◌, ◌^◌, ◌≡◌}
use arb_revm.Journal.{ArbJournal, Lawful, ok, M, ◌>>=◌}
use arb_revm.Storage.Slot.Runs.{held, read, get_uint_lem}
use arb_revm.Storage.L2Pricing.{
  L2Pricing, GasModel, legacy, single_gas_constraints, multi_gas_constraints, gas_model,
  gas_constraints_length, multi_gas_constraints_length, gas_constraints_len,
  multi_gas_constraints_len, active_from,
}

abbrev pub model_of : ℕ → ℕ → ℕ → GasModel
model_of arbos_version multi single =
    if leb 60 arbos_version && ltb 0 multi
    then multi_gas_constraints
    else if leb 50 arbos_version && ltb 0 single
    then single_gas_constraints
    else legacy

module _ (J : ArbJournal) (L : Lawful J) (l : L2Pricing) where
  open J use {State}
  open L use {value, balance, value-seen}

  -- Both lengths fit a `u64`, in the words that `f` gives.
  pub record LengthsFit (f : ℕ → ℕ → ℕ) : Type 0 where
    pub single_in_u64 :
        f (gas_constraints_length J l).account (gas_constraints_length J l).slot < 2 ^ 64
    pub multi_in_u64 :
        f (multi_gas_constraints_length J l).account (multi_gas_constraints_length J l).slot
        < 2 ^ 64

  abbrev pub HasLengths : State → Type 0
  HasLengths s = LengthsFit (value s)

  abbrev pub model_in : State → ℕ → GasModel
  model_in s arbos_version =
      model_of arbos_version (held J L s (multi_gas_constraints_length J l))
        (held J L s (gas_constraints_length J l))

  len_lem :
      (s : State)
      → HasLengths s
      → (gas_constraints_len J l s
          ≡ (ok (held J L s (gas_constraints_length J l)), read J L (gas_constraints_length J l) s))
        × (multi_gas_constraints_len J l s ≡ (
          ok (held J L s (multi_gas_constraints_length J l)),
          read J L (multi_gas_constraints_length J l) s,
        ))
  unfolding gas_constraints_len multi_gas_constraints_len
  len_lem s h = (
    get_uint_lem J L 64 (gas_constraints_length J l) s h.single_in_u64,
    get_uint_lem J L 64 (multi_gas_constraints_length J l) s h.multi_in_u64,
  )

  pub gas_constraints_len_lem :
      (s : State)
      → HasLengths s
      → gas_constraints_len J l s
        ≡ (ok (held J L s (gas_constraints_length J l)), read J L (gas_constraints_length J l) s)
  gas_constraints_len_lem s h = (len_lem s h).0

  pub multi_gas_constraints_len_lem :
      (s : State)
      → HasLengths s
      → multi_gas_constraints_len J l s ≡ (
        ok (held J L s (multi_gas_constraints_length J l)),
        read J L (multi_gas_constraints_length J l) s,
      )
  multi_gas_constraints_len_lem s h = (len_lem s h).1

  active_from_lem :
      (version v n : ℕ) (len : M State ℕ) (s s' : State)
      → len s ≡ (ok n, s')
      → active_from J version v len s
        ≡ (ok (leb version v && ltb 0 n), if leb version v then s' else s)
  unfolding active_from
  active_from_lem version v n len s s' e = elim (Bool-cases (leb version v)) [
    | inl new ↦ simp (new, e, ◌>>=◌)
    | inr old ↦ rw old
  ]

  -- The state after the model was chosen: only the lengths were looked at.
  abbrev pub after_multi : ℕ → State → State
  after_multi v s = if leb 60 v then read J L (multi_gas_constraints_length J l) s else s

  pub after_model : ℕ → State → State
  after_model v s =
      let s' = after_multi v s in
      if leb 60 v && ltb 0 (held J L s (multi_gas_constraints_length J l))
      then s'
      else if leb 50 v
      then read J L (gas_constraints_length J l) s'
      else s'

  value-after_multi : (v : ℕ) (s : State) (a k : ℕ) → value (after_multi v s) a k ≡ value s a k
  value-after_multi v s a k = elim (Bool-cases (leb 60 v)) [
    | inl new ↦ rw (new, value-seen)
    | inr old ↦ rw old
  ]

  pub value-after_model : (v : ℕ) (s : State) → value (after_model v s) ≡ value s
  unfolding after_model
  value-after_model v s = fun_ext (λ a. fun_ext (λ k. same a k))
    where
      same : (a k : ℕ) → value (after_model v s) a k ≡ value s a k
      same a k =
          elim (Bool-cases (leb 60 v && ltb 0 (held J L s (multi_gas_constraints_length J l)))) [
            | inl multi ↦ rw multi (value-after_multi v s a k)
            | inr single ↦ rw single (elim (Bool-cases (leb 50 v)) [
              | inl new ↦ rw (new, value-seen) (value-after_multi v s a k)
              | inr old ↦ rw old (value-after_multi v s a k)
            ])
          ]

  pub gas_model_lem :
      (v : ℕ) (s : State) → HasLengths s → gas_model J l v s ≡ (ok (model_in s v), after_model v s)
  unfolding gas_model after_model
  gas_model_lem v s h =
      elim (Bool-cases (leb 60 v && ltb 0 (held J L s (multi_gas_constraints_length J l)))) [
        | inl multi ↦ simp (first, multi, ◌>>=◌)
        | inr single ↦ simp (first, single, second, ◌>>=◌)
      ]
    where
      first : active_from J 60 v (multi_gas_constraints_len J l) s ≡ (
        ok (leb 60 v && ltb 0 (held J L s (multi_gas_constraints_length J l))),
        after_multi v s,
      )
      first =
          active_from_lem 60 v (held J L s (multi_gas_constraints_length J l))
            (multi_gas_constraints_len J l) s (read J L (multi_gas_constraints_length J l) s)
            (multi_gas_constraints_len_lem s h)

      same :
          held J L (after_multi v s) (gas_constraints_length J l)
          ≡ held J L s (gas_constraints_length J l)
      same = value-after_multi v s _ _

      second : active_from J 50 v (gas_constraints_len J l) (after_multi v s) ≡ (
        ok (leb 50 v && ltb 0 (held J L s (gas_constraints_length J l))),
        if leb 50 v
            then read J L (gas_constraints_length J l) (after_multi v s)
            else after_multi v s,
      )
      second =
          active_from_lem 50 v (held J L s (gas_constraints_length J l)) (gas_constraints_len J l)
            (after_multi v s) (read J L (gas_constraints_length J l) (after_multi v s))
            (unfold gas_constraints_len in
              rw (← same) (
                get_uint_lem J L 64 (gas_constraints_length J l) (after_multi v s)
                  (rw same h.single_in_u64)))
