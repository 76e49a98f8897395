-- ===== src/Storage/BlockHashes/Ring.antt =====
-- What recording a block changes in the ring, and what it keeps.
use arb_revm.Base.{
  ap, arith, dec_lt, eq_self, false, if◌then◌else◌, leb, ltb, lt→ltb, ne→eq_false, refl,
  saturating_add, u64_max, ℕ, ℕ_discrete, ◌%◌, ◌+◌, ◌-◌, ◌<◌, ◌==◌, ◌^◌, ◌||◌, ◌∙◌, ◌≡◌, ◌≢◌, ◌≤◌,
}
use arb_revm.Journal.{ArbJournal, Lawful, ok, ◌>>=◌}
use arb_revm.Storage.Space.{StorageSpace, slot_for_hash, storage_backed, StorageSlot}
use arb_revm.Storage.Space.Apart.{AreApart}
use arb_revm.Storage.BlockHashes.{
  open_block_hashes, ring_index, set_block_hash, fill_hash, block_hash, l1_block_number,
  record_new_l1_block, set_l1_block_number,
}
use arb_revm.Storage.Slot.Runs.{written, get_uint_lem, read}
use arb_revm.Storage.Slot.{set_u64}
use arb_revm.Storage.BlockHashes.Gap.{cell, cell-stored, Filled, fill_gap_lem}

module _ (J : ArbJournal) (L : Lawful J) (sp : StorageSpace) (apart : AreApart J 257 sp) where
  open J use {State}
  open L use {value, read_lem, write_lem, value-seen, value-stored}

  -- The word under a key of the ring's space.
  abbrev pub word_at : State → ℕ → ℕ
  word_at s i = cell J L sp apart s i

  abbrev cursor_slot : StorageSlot
  cursor_slot = storage_backed J sp 0

  -- A block number in the window has the word of its index as its hash.
  pub block_hash_lem :
      (b : ℕ) (s : State)
      → word_at s 0 < 2 ^ 64
      → b + 256 < 2 ^ 64
      → b < word_at s 0
      → word_at s 0 ≤ b + 256
      → (block_hash J (open_block_hashes J sp) b s).0 ≡ ok (word_at s (ring_index b))
  unfolding block_hash l1_block_number
  block_hash_lem b s cursor small old new =
      simp (get_uint_lem J L 64 cursor_slot s cursor, inside, read_lem, value-seen, ◌>>=◌)
    where
      inside : (leb (word_at s 0) b || ltb ((b + 256) % 2 ^ 64) (word_at s 0)) ≡ false
      inside = ground arith

  -- What recording a block at or past the cursor leaves behind.
  pub record Recorded (v h number : ℕ) (s s' : State) : Type 0 where
    pub cursor_moved : word_at s' 0 ≡ number + 1
    pub recorded : word_at s' (ring_index number) ≡ h
    pub synthetic :
        (b : ℕ)
        → word_at s 0 < b
        → b < number
        → number < b + 256
        → word_at s' (ring_index b) ≡ fill_hash J v h b
    pub kept :
        (b : ℕ)
        → b ≤ word_at s 0
        → b < number
        → number < b + 256
        → word_at s' (ring_index b) ≡ word_at s (ring_index b)

  -- The last two writes, of the block's own hash and of the cursor.
  finish :
      (v h number start : ℕ) (s s1 : State)
      → number < u64_max
      → word_at s 0 ≤ start
      → number ≤ start + 256
      → (start ≢ word_at s 0 → start + 256 ≡ number)
      → Filled J L sp apart v h number start (number - start) s s1
      → Recorded v h number s (
          written J L cursor_slot
            (number + 1)
            (L.stored sp.account (slot_for_hash J sp (ring_index number)) h s1))
  finish v h number start s s1 small low room cut filled = record {
    cursor_moved = at_last 0 (omega arith) ∙ ground arith;
    recorded = at_last (ring_index number) (omega arith) ∙ ground arith;
    synthetic = λ b past before near.
        at_last (ring_index b) (omega arith)
        ∙ ground (
          arith,
          apart_before b before near,
          filled.filled_in b (after_start b past near) before near (omega arith),
        );
    kept = λ b past before near.
        at_last (ring_index b) (omega arith)
        ∙ ground (arith, apart_before b before near, filled.kept b (omega arith) near);
  }
    where
      at_last :
          (j : ℕ)
          → j < 257
          → word_at
              (written J L cursor_slot
                (number + 1)
                (L.stored sp.account (slot_for_hash J sp (ring_index number)) h s1))
              j
            ≡ (if 0 == j then number + 1 else if ring_index number == j then h else word_at s1 j)
      at_last j hj =
          cell-stored J L sp apart 0 j (number + 1)
            (L.stored sp.account (slot_for_hash J sp (ring_index number)) h s1) (omega arith) hj
          ∙ rw (cell-stored J L sp apart (ring_index number) j h s1 (omega arith) hj)

      apart_before : (b : ℕ) → b < number → number < b + 256 → ring_index number ≢ ring_index b
      apart_before b before near same = omega arith

      after_start : (b : ℕ) → word_at s 0 < b → number < b + 256 → start < b
      after_start b past near = elim (ℕ_discrete start (word_at s 0)) [
        | yes same ↦ omega arith
        | no other ↦ omega (arith, cut other)
      ]

  Recorded-seen :
      (v h number : ℕ) (s s' : State)
      → Recorded v h number (L.seen sp.account (slot_for_hash J sp 0) s) s'
      → Recorded v h number s s'
  Recorded-seen v h number s s' r = record {
    cursor_moved = r.cursor_moved;
    recorded = r.recorded;
    synthetic = λ b past before near. r.synthetic b (rw same_cursor past) before near;
    kept = λ b past before near.
        r.kept b (rw same_cursor past) before near
        ∙ value-seen sp.account (slot_for_hash J sp 0) s sp.account
            (slot_for_hash J sp (ring_index b));
  }
    where
      same_cursor : word_at (L.seen sp.account (slot_for_hash J sp 0) s) 0 ≡ word_at s 0
      same_cursor = value-seen sp.account (slot_for_hash J sp 0) s sp.account (slot_for_hash J sp 0)

  -- Recording an L1 block whose number is at or past the cursor succeeds. It moves the cursor to
  -- the next number and keeps the block's hash; the blocks of the window after the old cursor have
  -- their synthetic hashes, and those up to the old cursor keep their words.
  pub record_new_l1_block_lem :
      (v h number : ℕ) (s : State)
      → word_at s 0 ≤ number
      → number < u64_max
      → let (r, s') = record_new_l1_block J (open_block_hashes J sp) number h v s in
        (r ≡ ok tt) × Recorded v h number s s'
  unfolding record_new_l1_block l1_block_number set_block_hash set_l1_block_number set_u64
  record_new_l1_block_lem v h number s low small =
      let start : ℕ =
        if ltb (saturating_add 64 (word_at s 0) 256) number then number - 256 else word_at s 0 in
      let s0 : State = read J L cursor_slot s in
      let filled = fill_gap_lem J L sp apart v h number (number - start) start s0 small in
      simp
        (get_uint_lem J L 64 cursor_slot s (omega arith), known, filled.0, write_lem, exact, ◌>>=◌)
        (
          refl,
          Recorded-seen v h number s _ (
              finish v h number start s0 _ small (ground (arith, same_cursor)) (ground arith)
                (ground (arith, same_cursor)) filled.1),
        )
    where
      known : ltb number (word_at s 0) ≡ false
      known = ground arith

      exact : saturating_add 64 number 1 ≡ number + 1
      exact = ground arith

      same_cursor : word_at (read J L cursor_slot s) 0 ≡ word_at s 0
      same_cursor = value-seen sp.account (slot_for_hash J sp 0) s sp.account (slot_for_hash J sp 0)

  -- After an L1 block at or past the cursor was recorded, whose number is below the last numbers
  -- of a `u64`, `block_hash` gives for each block of the last 256: the new block its own hash,
  -- the blocks between the old cursor and it their synthetic hashes, and the blocks up to the old
  -- cursor the words that stood in their places.
  pub block_hash-record_new_l1_block :
      (v h number b : ℕ) (s : State)
      → word_at s 0 ≤ number
      → number + 257 < 2 ^ 64
      → b ≤ number
      → number < b + 256
      → (block_hash J
          (open_block_hashes J sp)
          b
          (record_new_l1_block J (open_block_hashes J sp) number h v s).1).0
        ≡ ok (
            if b == number
            then h
            else if ltb (word_at s 0) b
            then fill_hash J v h b
            else word_at s (ring_index b))
  block_hash-record_new_l1_block v h number b s low small old near =
      let s' : State = (record_new_l1_block J (open_block_hashes J sp) number h v s).1 in
      let after : Recorded v h number s s' =
        (record_new_l1_block_lem v h number s low (omega arith)).1 in
      block_hash_lem b s' (omega (arith, after.cursor_moved)) (omega arith)
        (omega (arith, after.cursor_moved)) (omega (arith, after.cursor_moved))
      ∙ elim (ℕ_discrete b number) [
        | yes same ↦ rw (same, eq_self number) (ap ok after.recorded)
        | no other ↦ elim (dec_lt (word_at s 0) b) [
          | yes past ↦
              rw (ne→eq_false b number other, lt→ltb _ _ past)
                (ap ok (after.synthetic b past (omega arith) near))
          | no before ↦
              rw (ne→eq_false b number other, not_before before)
                (ap ok (after.kept b (omega arith) (omega arith) near))
        ]
      ]
    where
      not_before : ¬ (word_at s 0 < b) → ltb (word_at s 0) b ≡ false
      not_before before = ground arith
