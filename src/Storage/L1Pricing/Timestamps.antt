-- ===== src/Storage/L1Pricing/Timestamps.antt =====
-- The time of a report of a batch lies in the window, or the report is refused.
use arb_revm.Base.{
  Bool, Bool-cases, ap, ℕ_discrete, if◌then◌else◌, ◌==◌, ◌-◌, ◌<◌, inl, inr, ◌≤◌, ◌⊎◌, arith, false,
  leb, ltb, ne→eq_false, refl, true, ℕ, ◌^◌, ◌||◌, ◌∙◌, ◌≡◌, ◌≢◌,
}
use arb_revm.Journal.{Result, ArbJournal, Lawful, ok, err, invalid_timestamp, ◌>>=◌}
use arb_revm.Storage.Space.{slot_for_hash, StorageSlot}
use arb_revm.Storage.AddressSet.{is_member}
use arb_revm.Storage.BatchPosterTable.{BatchPosterTable, open_poster_checked, internal_open}
use arb_revm.Storage.L1Pricing.{L1Pricing}
use arb_revm.Storage.L1Pricing.Payments.{
  available_funds, pool_balance, l1_pricer_funds_pool_address,
}
use arb_revm.Storage.L1Pricing.Update.{
  update_for_batch_poster_spending, window_start, update_in_window,
}
use arb_revm.Storage.Slot.{get_i256, u256_twos_complement_to_i256}
use arb_revm.Storage.Slot.Runs.{held, read, get_uint_lem, get_u256_lem}

-- What the code's test lets through.
in_window :
    (last update_time current_time : ℕ)
    → (ltb current_time update_time || ltb update_time (window_start last update_time)) ≡ false
    → (update_time ≤ current_time) × ((last ≡ 0) ⊎ (last ≤ update_time))
in_window last update_time current_time inside = ground arith

out_of_window :
    (last update_time current_time : ℕ)
    → (ltb current_time update_time || ltb update_time (window_start last update_time)) ≡ true
    → (current_time < update_time) ⊎ ((last ≢ 0) × (update_time < last))
out_of_window last update_time current_time outside = elim (ℕ_discrete last 0) [
  | yes z ↦ inl (ground arith)
  | no nz ↦ elim (Bool-cases (ltb current_time update_time)) [
    | inl late ↦ inl (ground arith)
    | inr on_time ↦ inr (nz, ground arith)
  ]
]

window_start_lem :
    (last update_time : ℕ)
    → window_start last update_time ≡ (if last == 0 then update_time - 1 else last)
window_start_lem last update_time = ground arith

module _ (J : ArbJournal) (L : Lawful J) where
  open J use {State}
  open L use {
    value, balance, looked, value-seen, value-looked, read_lem, balance_lem, balance-seen,
    balance-looked,
  }

  -- The word of a poster in the map of the posters.
  abbrev poster_word : BatchPosterTable → ℕ → State → ℕ
  poster_word t poster s =
      value s t.poster_address_set.by_address.account
        (slot_for_hash J t.poster_address_set.by_address poster)

  abbrev poster_seen : BatchPosterTable → ℕ → State → State
  poster_seen t poster s =
      L.seen t.poster_address_set.by_address.account
        (slot_for_hash J t.poster_address_set.by_address poster) s

  open_known :
      (t : BatchPosterTable) (poster : ℕ) (create : Bool) (s : State)
      → poster_word t poster s ≢ 0
      → open_poster_checked J t poster create s
        ≡ (ok (internal_open J t poster), poster_seen t poster s)
  unfolding open_poster_checked is_member
  open_known t poster create s known =
      simp (read_lem, ne→eq_false (poster_word t poster s) 0 known, ◌>>=◌)

  get_i256_lem :
      (p : StorageSlot) (s : State)
      → get_i256 J p s ≡ (ok (u256_twos_complement_to_i256 (held J L s p)), read J L p s)
  unfolding get_i256
  get_i256_lem p s = simp (read_lem, ◌>>=◌)

  -- What the available funds read, which moves no word.
  abbrev funds_seen : L1Pricing → Bool → State → State
  funds_seen p true s = read J L p.l1_fees_available s
  funds_seen p false s = looked l1_pricer_funds_pool_address s

  abbrev funds_of : L1Pricing → Bool → State → ℕ
  funds_of p true s = held J L s p.l1_fees_available
  funds_of p false s = balance s l1_pricer_funds_pool_address

  available_funds_lem :
      (p : L1Pricing) (use_fees : Bool) (s : State)
      → available_funds J p use_fees s ≡ (ok (funds_of p use_fees s), funds_seen p use_fees s)
  unfolding available_funds pool_balance
  available_funds_lem p true s = get_u256_lem J L p.l1_fees_available s
  available_funds_lem p false s = balance_lem l1_pricer_funds_pool_address s

  value-funds_seen :
      (p : L1Pricing) (use_fees : Bool) (s : State) (a k : ℕ)
      → value (funds_seen p use_fees s) a k ≡ value s a k
  value-funds_seen p true s a k = value-seen _ _ s a k
  value-funds_seen p false s a k = value-looked _ s a k

  -- The code's own test, on the words of the state.
  refused :
      (p : L1Pricing) (version update_time current_time poster wei base_fee : ℕ) (s : State)
      (a k : ℕ)
      → poster_word p.batch_poster_table poster s ≢ 0
      → held J L s p.last_update_time < 2 ^ 64
      → (ltb current_time update_time
          || ltb update_time (window_start (held J L s p.last_update_time) update_time))
        ≡ true
      → let (r, s') =
          update_for_batch_poster_spending J p version update_time current_time poster wei base_fee
            s in
        (r ≡ err invalid_timestamp) × (value s' a k ≡ value s a k)
  unfolding update_for_batch_poster_spending
  refused p version update_time current_time poster wei base_fee s a k known small outside =
      let s1 : State = poster_seen p.batch_poster_table poster s in
      let s2 : State = read J L p.funds_due_for_rewards s1 in
      let s3 : State = funds_seen p (leb 10 version) s2 in
      let time_there : held J L s3 p.last_update_time ≡ held J L s p.last_update_time =
        value-funds_seen p (leb 10 version) s2 _ _ ∙ value-seen _ _ s1 _ _ ∙ value-seen _ _ s _ _ in
      simp
        (
          open_known p.batch_poster_table poster true s known,
          get_i256_lem p.funds_due_for_rewards s1,
          available_funds_lem p (leb 10 version) s2,
          get_uint_lem J L 64 p.last_update_time s3 (omega (arith, time_there)),
          time_there,
          outside,
          value-funds_seen,
          value-seen,
          ◌>>=◌,
        )
        (refl, refl)

  -- The readings before the test.
  abbrev asked : L1Pricing → ℕ → ℕ → State → State
  asked p version poster s = read J L p.last_update_time (
      funds_seen p (leb 10 version)
        (read J L p.funds_due_for_rewards (poster_seen p.batch_poster_table poster s)))

  funds_of-seen :
      (p : L1Pricing) (use_fees : Bool) (poster : ℕ) (s : State)
      → funds_of p use_fees
          (read J L p.funds_due_for_rewards (poster_seen p.batch_poster_table poster s))
        ≡ funds_of p use_fees s
  funds_of-seen p true poster s = simp value-seen
  funds_of-seen p false poster s = simp balance-seen

  -- The update within a window that starts at a time.
  abbrev pub updated : L1Pricing → ℕ → ℕ → ℕ → ℕ → ℕ → ℕ → ℕ → State → Result (Unit {0}) × State
  updated p version start update_time current_time poster wei base_fee s =
      update_in_window J p (internal_open J p.batch_poster_table poster) version
        (u256_twos_complement_to_i256 (held J L s p.funds_due_for_rewards))
        (funds_of p (leb 10 version) s) start update_time current_time wei base_fee
        (asked p version poster s)

  carried_out :
      (p : L1Pricing) (version update_time current_time poster wei base_fee : ℕ) (s : State)
      → poster_word p.batch_poster_table poster s ≢ 0
      → held J L s p.last_update_time < 2 ^ 64
      → (ltb current_time update_time
          || ltb update_time (window_start (held J L s p.last_update_time) update_time))
        ≡ false
      → update_for_batch_poster_spending J p version update_time current_time poster wei base_fee s
        ≡ updated p version
            (window_start (held J L s p.last_update_time) update_time)
            update_time
            current_time
            poster
            wei
            base_fee
            s
  unfolding update_for_batch_poster_spending
  carried_out p version update_time current_time poster wei base_fee s known small inside =
      let s1 : State = poster_seen p.batch_poster_table poster s in
      let s2 : State = read J L p.funds_due_for_rewards s1 in
      let s3 : State = funds_seen p (leb 10 version) s2 in
      let time_there : held J L s3 p.last_update_time ≡ held J L s p.last_update_time =
        value-funds_seen p (leb 10 version) s2 _ _ ∙ value-seen _ _ s1 _ _ ∙ value-seen _ _ s _ _ in
      let rewards_there : held J L s1 p.funds_due_for_rewards ≡ held J L s p.funds_due_for_rewards =
        value-seen _ _ s _ _ in
      simp
        (
          open_known p.batch_poster_table poster true s known,
          get_i256_lem p.funds_due_for_rewards s1,
          rewards_there,
          available_funds_lem p (leb 10 version) s2,
          funds_of-seen p (leb 10 version) poster s,
          get_uint_lem J L 64 p.last_update_time s3 (omega (arith, time_there)),
          time_there,
          inside,
          ◌>>=◌,
        )
        refl

  -- A report for a known poster, where the time of the last update fits a `u64`, at every version. If its
  -- time is at most the current time and, unless there was no update yet, at least that of the last
  -- one, the update is carried out within a window that starts at the last one, or just before the
  -- report if there was none. Otherwise it is refused as an invalid timestamp, and no word changes.
  pub update_for_batch_poster_spending-time :
      (p : L1Pricing) (version update_time current_time poster wei base_fee : ℕ) (s : State)
      → poster_word p.batch_poster_table poster s ≢ 0
      → held J L s p.last_update_time < 2 ^ 64
      → let last = held J L s p.last_update_time in
        let run =
          update_for_batch_poster_spending J p version update_time current_time poster wei base_fee
            s in
        ((update_time ≤ current_time)
          × ((last ≡ 0) ⊎ (last ≤ update_time))
          × (run
              ≡ updated p version
                  (if last == 0 then update_time - 1 else last)
                  update_time
                  current_time
                  poster
                  wei
                  base_fee
                  s))
        ⊎ (((current_time < update_time) ⊎ ((last ≢ 0) × (update_time < last)))
            × (run.0 ≡ err invalid_timestamp)
            × ((a k : ℕ) → value run.1 a k ≡ value s a k))
  update_for_batch_poster_spending-time p version update_time current_time poster wei base_fee s
        known small =
      let last : ℕ = held J L s p.last_update_time in
      elim (Bool-cases
        (ltb current_time update_time || ltb update_time (window_start last update_time))) [
          | inl outside ↦ inr (
            out_of_window last update_time current_time outside,
            (refused p version update_time current_time poster wei base_fee s 0 0 known small
                outside).0,
            λ a k.
                (refused p version update_time current_time poster wei base_fee s a k known small
                  outside).1,
          )
          | inr inside ↦
              let (in_time, after_last) = in_window last update_time current_time inside in
              inl (
                in_time,
                after_last,
                carried_out p version update_time current_time poster wei base_fee s known small
                      inside
                    ∙ ap
                        (λ start.
                          updated p version start update_time current_time poster wei base_fee s)
                        (window_start_lem last update_time),
              )
        ]
