-- ===== src/Storage/SendMerkle/Carry.antt =====
-- Appending a leaf ends, with a hash that is carried at most once over each level.
use arb_revm.Base.{
  List, ap, arith, eq_self, ne→eq_false, saturating_add, subst, suc, sym, u64_max, zero, ℕ,
  ℕ_discrete, ◌+◌, ◌-◌, ◌<◌, ◌∙◌, ◌≡◌, ◌≤◌,
}
use arb_revm.Base.Bytes.{be_bytes}
use arb_revm.Journal.{ArbJournal, Lawful, ok, ◌>>=◌, Result}
use arb_revm.Storage.Space.{StorageSpace}
use arb_revm.Storage.SendMerkle
use arb_revm.Storage.SendMerkle.{
  SendMerkleUpdateEvent, bit_length, SendMerkle, partial_count_for_size, open_send_merkle,
  append_loop, append,
}
use arb_revm.Storage.Slot.Runs.{written, read, get_uint_lem, set_u64_lem}
use arb_revm.Storage.SendMerkle.Steps.{
  joined, carried, carry_hash-same, carry_events-same, accumulator, partial_count_le,
}
use arb_revm.Storage.SendMerkle.Ends.{
  at_cell, at_size, Appended, Ends, Ends-last, Ends-empty, Ends-carry, apart,
}

module _ (J : ArbJournal) (L : Lawful J) (sp : StorageSpace) where
  open J use {State}
  open L use {value, value-seen, value-stored, value-hashed, read_lem, write_lem, keccak_lem}

  append_loop-Ends :
      (count new_size fuel level so_far : ℕ) (s : State)
      → level ≤ count
      → count ≤ 64
      → count < level + fuel
      → Ends J L sp count new_size fuel level so_far s
  append_loop-Ends count new_size zero level so_far s h k f = absurd (omega arith)
  append_loop-Ends count new_size (suc fuel) level so_far s h k f = elim (ℕ_discrete level count) [
    | yes e ↦
        subst (λ c. Ends J L sp c new_size (suc fuel) level so_far s) e
          (Ends-last J L sp new_size fuel level so_far s (omega arith))
    | no ne ↦ elim (ℕ_discrete (at_cell J L sp s level) 0) [
      | yes z ↦ Ends-empty J L sp count new_size fuel level so_far s (omega arith) k z
      | no nz ↦ Ends-carry J L sp count new_size fuel level so_far s (omega arith) k nz (
          append_loop-Ends count new_size fuel (level + 1) (joined J L sp level so_far s)
            (carried J L sp level so_far s) (omega arith) k (omega arith))
    ]
  ]

  Appended-same :
      (count so_far num_leaves size : ℕ) (run : Result (List SendMerkleUpdateEvent) × State)
      (s s1 : State)
      → count ≤ 64
      → ((j : ℕ) → j ≤ 64 → at_cell J L sp s1 j ≡ at_cell J L sp s j)
      → Appended J L sp count 0 so_far num_leaves size run s1
      → Appended J L sp count 0 so_far num_leaves size run s
  Appended-same count so_far num_leaves size run s s1 k same ends =
      let within : (j : ℕ)
          → 0 ≤ j
          → j < 0 + ends.carries
          → at_cell J L sp s1 j ≡ at_cell J L sp s j =
        λ j p q. same j (omega (arith, ends.to_count, ends.one_each)) in
      record {
        stop = ends.stop;
        carries = ends.carries;
        one_each = ends.one_each;
        returned =
            ends.returned
            ∙ ap ok (
                carry_events-same J (at_cell J L sp s1) (at_cell J L sp s) num_leaves ends.carries 0
                  so_far within);
        to_count = ends.to_count;
        stored_there =
            ends.stored_there
            ∙ carry_hash-same J (at_cell J L sp s1) (at_cell J L sp s) ends.carries 0 so_far within;
        free = λ q. sym (same ends.stop (omega (arith, ends.to_count))) ∙ ends.free q;
        passed = λ j p q. (
          λ z. (ends.passed j p q).0 (same j (omega (arith, ends.to_count)) ∙ z),
          (ends.passed j p q).1,
        );
        below_kept = λ j p. absurd (omega arith);
        above_kept = λ j p q. ends.above_kept j p q ∙ same j q;
        size_there = ends.size_there;
      }

  -- Appending a leaf to an accumulator whose size is below the last `u64` ends within the fuel and
  -- returns, and carries like adding one to a binary number. From level 0 on it passes the full levels,
  -- up to the first that is empty or the first beyond the old ones, and empties them, with one event for
  -- each: its hash is that of the level's word and the hash so far, which starts as the leaf's. The level
  -- where it stops holds the last of these hashes, the levels beyond are as before, and the size is one
  -- more.
  pub append_lem :
      (item_hash : ℕ) (s : State)
      → at_size J L sp s < u64_max
      → Appended J L sp
          (partial_count_for_size (at_size J L sp s))
          0
          (J.keccak256 (be_bytes 32 item_hash))
          (at_size J L sp s)
          (at_size J L sp s + 1)
          (append J (accumulator J L sp) item_hash s)
          s
  unfolding append SendMerkle.size SendMerkle.set_size
  append_lem item_hash s h =
      let n : ℕ = at_size J L sp s in
      let s1 : State =
        written J L (accumulator J L sp).size_slot (n + 1)
          (read J L (accumulator J L sp).size_slot s) in
      let count : ℕ = partial_count_for_size n in
      let leaf : ℕ = J.keccak256 (be_bytes 32 item_hash) in
      let run : Result (List SendMerkleUpdateEvent) × State =
        append_loop J (accumulator J L sp) count (n + 1) 65 0 leaf s1 in
      let less_one : n + 1 - 1 ≡ n = omega arith in
      let size_there : at_size J L sp s1 ≡ n + 1 = simp (value-stored, eq_self) in
      let ends : Ends J L sp count (n + 1) 65 0 leaf s1 =
        append_loop-Ends count (n + 1) 65 0 leaf s1 (omega arith) (partial_count_le n)
          (omega (arith, partial_count_le n)) in
      simp
        (
          get_uint_lem J L 64 (accumulator J L sp).size_slot s (omega arith),
          set_u64_lem J L,
          next n h,
          ◌>>=◌,
        )
        (Appended-same count leaf n (n + 1) run s s1 (partial_count_le n)
          (λ j k. simp (
            value-stored,
            eq_self,
            ne→eq_false _ _
                (λ e. zero_apart j (apart J L sp 0 (2 + j) (omega arith) (omega arith) e)),
            value-seen,
          ))
          (subst (λ m. Appended J L sp count 0 leaf m (n + 1) run s1) less_one
            (subst (λ z. Appended J L sp count 0 leaf (n + 1 - 1) z run s1) size_there ends)))
    where
      next : (n : ℕ) → n < u64_max → saturating_add 64 n 1 ≡ n + 1
      next n h = omega arith

      zero_apart : (j : ℕ) → 0 ≡ 2 + j → ⊥
      zero_apart j e = absurd (omega arith)
