-- ===== src/Storage/SendMerkle/Ends.antt =====
-- How the loop of `append` ends: the levels, the events and the stored hash, round by round.
use arb_revm.Base.{
  List, ap, arith, eq_self, if◌then◌else◌, refl, subst, suc, ℕ, ℕ_discrete, ◌+◌, ◌-◌, ◌<◌, ◌==◌,
  ◌∙◌, ◌∷◌, ◌≡◌, ◌≢◌, ◌≤◌,
}
use arb_revm.Storage.SendMerkle.Steps.{cell}
use arb_revm.Journal.{ArbJournal, Lawful, ok, Result}
use arb_revm.Storage.Space.{StorageSpace, slot_for_hash}
use arb_revm.Storage.SendMerkle.{SendMerkleUpdateEvent, append_loop}
use arb_revm.Storage.Space.Apart.{AreApart, slots_eq, AreApart-page}
use arb_revm.Storage.SendMerkle.Steps.{
  loop_last, joined, carried, carry_hash, carry_events, carry_hash-same, carry_events-same,
  seen_cell, accumulator, put_cell, loop_carry, loop_empty,
}

module _ (J : ArbJournal) (L : Lawful J) (sp : StorageSpace) where
  open J use {State}
  open L use {value, value-seen, value-stored, value-hashed, read_lem, write_lem, keccak_lem}

  abbrev pub at_cell : State → ℕ → ℕ
  at_cell s j = value s sp.account (cell J L sp j)

  abbrev pub at_size : State → ℕ
  at_size s = value s sp.account (slot_for_hash J sp 0)

  -- How the loop ends from a level on, with a hash so far: it stops at a level of its own, the first
  -- that is empty or the first beyond the old ones. The levels that it passed were full and are empty;
  -- there is one event for each, with the next level, the number of the leaf and the hash of the carry;
  -- the level of the stop holds the hash of all carries, or the hash so far if there is none. The
  -- levels beyond are as before, and the size is the given one.
  pub record Appended (count level so_far num_leaves size : ℕ)
      (run : Result (List SendMerkleUpdateEvent) × State) (s : State) : Type 0 where
    pub stop : ℕ
    pub carries : ℕ
    pub one_each : level + carries ≡ stop
    pub returned : run.0 ≡ ok (carry_events J (at_cell s) num_leaves carries level so_far)
    pub to_count : stop ≤ count
    pub free : stop < count → at_cell s stop ≡ 0
    pub passed : (j : ℕ) → level ≤ j → j < stop → (at_cell s j ≢ 0) × (at_cell run.1 j ≡ 0)
    pub stored_there : at_cell run.1 stop ≡ carry_hash J (at_cell s) carries level so_far
    pub below_kept : (j : ℕ) → j < level → at_cell run.1 j ≡ at_cell s j
    pub above_kept : (j : ℕ) → stop < j → j ≤ 64 → at_cell run.1 j ≡ at_cell s j
    pub size_there : at_size run.1 ≡ size

  pub apart : AreApart J 67 sp
  apart = AreApart-page J 67 sp (omega arith)

  cell-put :
      (i j v : ℕ) (s : State)
      → i ≤ 64
      → j ≤ 64
      → at_cell (put_cell J L sp i v s) j ≡ (if i == j then v else at_cell s j)
  cell-put i j v s hi hj =
      simp
        (value-stored, eq_self, slots_eq J 67 sp apart (2 + i) (2 + j) (omega arith) (omega arith))
        (ground arith)

  size-put : (i v : ℕ) (s : State) → i ≤ 64 → at_size (put_cell J L sp i v s) ≡ at_size s
  size-put i v s hi =
      simp (value-stored, eq_self, slots_eq J 67 sp apart (2 + i) 0 (omega arith) (omega arith))
        (ground arith)

  abbrev pub Ends : ℕ → ℕ → ℕ → ℕ → ℕ → State → Type 0
  Ends count new_size fuel level so_far s =
      Appended count level so_far (new_size - 1) (at_size s)
        (append_loop J (accumulator J L sp) count new_size fuel level so_far s) s

  pub Ends-last :
      (new_size fuel level so_far : ℕ) (s : State)
      → level ≤ 64
      → Ends level new_size (suc fuel) level so_far s
  unfolding carry_hash carry_events
  Ends-last new_size fuel level so_far s h =
      rw (loop_last J L sp new_size fuel level so_far s h) (record {
        stop = level;
        carries = 0;
        one_each = omega arith;
        returned = refl;
        to_count = omega arith;
        stored_there = ground (arith, cell-put level level so_far s h h);
        free = λ q. absurd (omega arith);
        passed = λ j p q. absurd (omega arith);
        below_kept = λ j p. ground (arith, cell-put level j so_far s h (omega arith));
        above_kept = λ j p q. ground (arith, cell-put level j so_far s h q);
        size_there = size-put level so_far s h;
      })

  pub Ends-empty :
      (count new_size fuel level so_far : ℕ) (s : State)
      → level < count
      → count ≤ 64
      → at_cell s level ≡ 0
      → Ends count new_size (suc fuel) level so_far s
  unfolding carry_hash carry_events
  Ends-empty count new_size fuel level so_far s h k e =
      let seen : State = seen_cell J L sp level s in
      let same : (j : ℕ) → at_cell seen j ≡ at_cell s j = λ j. value-seen _ _ s _ _ in
      rw (loop_empty J L sp count new_size fuel level so_far s h k e) (record {
        stop = level;
        carries = 0;
        one_each = omega arith;
        returned = refl;
        to_count = omega arith;
        stored_there = ground (arith, cell-put level level so_far seen (omega arith) (omega arith));
        free = λ q. e;
        passed = λ j p q. absurd (omega arith);
        below_kept =
            λ j p. ground (arith, cell-put level j so_far seen (omega arith) (omega arith), same j);
        above_kept = λ j p q. ground (arith, cell-put level j so_far seen (omega arith) q, same j);
        size_there = size-put level so_far seen (omega arith) ∙ value-seen _ _ s _ _;
      })

  carried-cell :
      (level so_far j : ℕ) (s : State)
      → level ≤ 64
      → j ≤ 64
      → at_cell (carried J L sp level so_far s) j ≡ (if level == j then 0 else at_cell s j)
  carried-cell level so_far j s h k =
      cell-put level j 0 _ h k
      ∙ ap (λ t. if level == j then 0 else t) (simp (value-hashed, value-seen))

  pub Ends-carry :
      (count new_size fuel level so_far : ℕ) (s : State)
      → level < count
      → count ≤ 64
      → at_cell s level ≢ 0
      → Ends count new_size fuel
          (level + 1)
          (joined J L sp level so_far s)
          (carried J L sp level so_far s)
      → Ends count new_size (suc fuel) level so_far s
  unfolding carry_hash carry_events
  Ends-carry count new_size fuel level so_far s h k nz rest =
      let s1 : State = carried J L sp level so_far s in
      let hash : ℕ = joined J L sp level so_far s in
      let s' : State =
        (append_loop J (accumulator J L sp) count new_size fuel (level + 1) hash s1).1 in
      let cells : (j : ℕ) → j ≤ 64 → at_cell s1 j ≡ (if level == j then 0 else at_cell s j) =
        λ j q. carried-cell level so_far j s (omega arith) q in
      let same : (j : ℕ)
          → level + 1 ≤ j
          → j < level + 1 + rest.carries
          → at_cell s1 j ≡ at_cell s j =
        λ j p q. ground (arith, cells j (omega (arith, rest.to_count, rest.one_each))) in
      rw
        (loop_carry J L sp count new_size fuel level so_far s s'
          (carry_events J (at_cell s1) (new_size - 1) rest.carries (level + 1) hash) h k nz
          (ap (λ r. (r, s')) rest.returned))
        (record {
          stop = rest.stop;
          carries = suc rest.carries;
          one_each = omega (arith, rest.one_each);
          returned =
              ap
                (λ t. ok (record { level = level + 1; num_leaves = new_size - 1; hash = hash } ∷ t))
                (carry_events-same J (at_cell s1) (at_cell s) (new_size - 1) rest.carries
                  (level + 1) hash same);
          to_count = rest.to_count;
          stored_there =
              rest.stored_there
              ∙ carry_hash-same J (at_cell s1) (at_cell s) rest.carries (level + 1) hash same;
          free = λ q.
              ground
                (arith, rest.free q, rest.one_each, cells rest.stop (omega (arith, rest.to_count)));
          passed = λ j p q. elim (ℕ_discrete level j) [
            | yes e ↦ (
              subst (λ t. at_cell s t ≢ 0) e nz,
              ground (
                arith,
                rest.below_kept j (omega arith),
                cells j (omega (arith, rest.to_count)),
                e,
              ),
            )
            | no ne ↦
                let after = rest.passed j (omega (arith, ne)) q in
                (
                  λ z. after.0 (ground (arith, cells j (omega (arith, rest.to_count)), z, ne)),
                  after.1,
                )
          ];
          below_kept =
              λ j p. ground (arith, rest.below_kept j (omega arith), cells j (omega arith));
          above_kept = λ j p q. ground (arith, rest.above_kept j p q, rest.one_each, cells j q);
          size_there =
              rest.size_there ∙ size-put level 0 _ (omega arith) ∙ simp (value-hashed, value-seen);
        })
