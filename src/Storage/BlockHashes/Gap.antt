-- ===== src/Storage/BlockHashes/Gap.antt =====
-- What the loop over skipped blocks writes to the ring.
use arb_revm.Base.{
  Bool-cases, arith, eq_self, if◌then◌else◌, inl, inr, ltb, refl, saturating_add, suc, u64_max,
  zero, ℕ, ℕ_discrete, ◌+◌, ◌<◌, ◌==◌, ◌∙◌, ◌≡◌, ◌≢◌, ◌≤◌,
}
use arb_revm.Journal.{ArbJournal, Lawful, ok, ◌>>=◌}
use arb_revm.Storage.Space.{StorageSpace, slot_for_hash}
use arb_revm.Storage.Space.Apart.{AreApart, slots_eq}
use arb_revm.Storage.BlockHashes.{
  open_block_hashes, ring_index, set_block_hash, fill_hash, fill_gap,
}

module _ (J : ArbJournal) (L : Lawful J) (sp : StorageSpace) (apart : AreApart J 257 sp) where
  open J use {State}
  open L use {value, read_lem, write_lem, value-seen, value-stored}

  abbrev pub cell : State → ℕ → ℕ
  cell s i = value s sp.account (slot_for_hash J sp i)

  pub cell-stored :
      (i j v : ℕ) (s : State)
      → i < 257
      → j < 257
      → cell (L.stored sp.account (slot_for_hash J sp i) v s) j ≡ (if i == j then v else cell s j)
  cell-stored i j v s hi hj = simp (value-stored, eq_self, slots_eq J 257 sp apart i j hi hj)

  module _ (v h number : ℕ) where
    -- What filling has done: the cursor and the blocks of the last 256 up to `next` keep their
    -- words, and with fuel for all rounds the blocks between have their synthetic hashes.
    pub record Filled (next fuel : ℕ) (s s' : State) : Type 0 where
      pub cursor_same : cell s' 0 ≡ cell s 0
      pub kept :
          (b : ℕ) → b ≤ next → number < b + 256 → cell s' (ring_index b) ≡ cell s (ring_index b)
      pub filled_in :
          (b : ℕ)
          → next < b
          → b < number
          → number < b + 256
          → number ≤ next + fuel
          → cell s' (ring_index b) ≡ fill_hash J v h b

    -- A round writes the next block's word, which is none of those that are kept.
    Filled-step :
        (n next fuel f : ℕ) (s s' : State)
        → n ≡ next + 1
        → n < number
        → f ≡ fill_hash J v h n
        → Filled n fuel (L.stored sp.account (slot_for_hash J sp (ring_index n)) f s) s'
        → Filled next (suc fuel) s s'
    Filled-step n next fuel f s s' e lt fe filled = record {
      cursor_same =
          filled.cursor_same
          ∙ ground (arith, cell-stored (ring_index n) 0 f s (omega arith) (omega arith));
      kept = λ b low room.
          filled.kept b (omega arith) room
          ∙ ground (
            arith,
            cell-stored (ring_index n) (ring_index b) f s (omega arith) (omega arith),
            apart_in_window b low room,
          );
      filled_in = λ b low high room enough. elim (ℕ_discrete b n) [
        | yes here ↦ rw here (
            filled.kept n (omega arith) (omega arith)
            ∙ ground
                (arith, cell-stored (ring_index n) (ring_index n) f s (omega arith) (omega arith)))
        | no later ↦ filled.filled_in b (omega arith) high room (omega arith)
      ];
    }
      where
        apart_in_window : (b : ℕ) → b ≤ next → number < b + 256 → ring_index n ≢ ring_index b
        apart_in_window b low room same = omega arith

    pub fill_gap_lem :
        (fuel next : ℕ) (s : State)
        → number < u64_max
        → let (r, s') = fill_gap J (open_block_hashes J sp) v h number fuel next s in
          (r ≡ ok tt) × Filled next fuel s s'
    unfolding fill_gap set_block_hash
    fill_gap_lem zero next s small = (
      refl,
      record {
        cursor_same = refl;
        kept = λ b low room. refl;
        filled_in = λ b low high room enough. absurd (omega arith);
      },
    )
    fill_gap_lem (suc fuel) next s small =
        let n : ℕ = saturating_add 64 next 1 in
        let f : ℕ = fill_hash J v h n in
        let s1 : State = L.stored sp.account (slot_for_hash J sp (ring_index n)) f s in
        let rest = fill_gap_lem fuel n s1 small in
        elim (Bool-cases (ltb n number)) [
          | inr done ↦ rw done (
            refl,
            record {
              cursor_same = refl;
              kept = λ b low room. refl;
              filled_in = λ b low high room enough. absurd (ground arith);
            },
          )
          | inl more ↦
              simp (more, write_lem, ◌>>=◌)
                (
                  rest.0,
                  Filled-step n next fuel f s
                      (fill_gap J (open_block_hashes J sp) v h number fuel n s1).1 (ground arith)
                      (ground arith) refl rest.1,
                )
        ]
