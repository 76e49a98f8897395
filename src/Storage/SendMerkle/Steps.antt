-- ===== src/Storage/SendMerkle/Steps.antt =====
-- One round of the loop of `append`, in each of its cases.
use arb_revm.Base.{
  List, [], ap, arith, eq_self, ne→eq_false, refl, saturating_add, suc, zero, ℕ, ◌++◌, ◌+◌, ◌-◌,
  ◌/◌, ◌<◌, ◌∷◌, ◌≡◌, ◌≢◌, ◌≤◌,
}
use arb_revm.Base.Bytes.{be_bytes}
use arb_revm.Journal.{ArbJournal, Lawful, ok, ◌>>=◌}
use arb_revm.Storage.Space.{StorageSpace, slot_for_hash}
use arb_revm.Storage.SendMerkle
use arb_revm.Storage.SendMerkle.{
  SendMerkleUpdateEvent, bit_length, SendMerkle, partial_count_for_size, open_send_merkle,
  append_loop, append,
}

pub bit_length_le : (bits v : ℕ) → bit_length bits v ≤ bits
unfolding bit_length
bit_length_le zero v = omega arith
bit_length_le (suc bits) v = ground (arith, bit_length_le bits (v / 2))

pub partial_count_le : (v : ℕ) → partial_count_for_size v ≤ 64
unfolding partial_count_for_size
partial_count_le v = ground (arith, bit_length_le 64 v)

-- The hash that so many carries from a level on make of a hash, each the hash of the level's word and
-- the hash so far, and the events that report them.
module _ (J : ArbJournal) (cells : ℕ → ℕ) where
  unfoldable pub carry_hash : ℕ → ℕ → ℕ → ℕ
  carry_hash zero level so_far = so_far
  carry_hash (suc carries) level so_far =
      carry_hash carries (level + 1) (J.keccak256 (be_bytes 32 (cells level) ++ be_bytes 32 so_far))

  unfoldable pub carry_events : ℕ → ℕ → ℕ → ℕ → List SendMerkleUpdateEvent
  carry_events num_leaves zero level so_far = []
  carry_events num_leaves (suc carries) level so_far =
      let hash = J.keccak256 (be_bytes 32 (cells level) ++ be_bytes 32 so_far) in
      record { level = level + 1; num_leaves = num_leaves; hash = hash }
      ∷ carry_events num_leaves carries (level + 1) hash

-- The carries depend on the levels that they pass only.
module _ (J : ArbJournal) (cells others : ℕ → ℕ) where
  pub carry_hash-same :
      (carries level so_far : ℕ)
      → ((j : ℕ) → level ≤ j → j < level + carries → cells j ≡ others j)
      → carry_hash J cells carries level so_far ≡ carry_hash J others carries level so_far
  unfolding carry_hash
  carry_hash-same zero level so_far same = refl
  carry_hash-same (suc carries) level so_far same = rw (same level (omega arith) (omega arith)) (
      carry_hash-same carries (level + 1)
        (J.keccak256 (be_bytes 32 (others level) ++ be_bytes 32 so_far))
        (λ j p q. same j (omega arith) (omega arith)))

  pub carry_events-same :
      (num_leaves carries level so_far : ℕ)
      → ((j : ℕ) → level ≤ j → j < level + carries → cells j ≡ others j)
      → carry_events J cells num_leaves carries level so_far
        ≡ carry_events J others num_leaves carries level so_far
  unfolding carry_events
  carry_events-same num_leaves zero level so_far same = refl
  carry_events-same num_leaves (suc carries) level so_far same =
      let hash = J.keccak256 (be_bytes 32 (others level) ++ be_bytes 32 so_far) in
      rw (same level (omega arith) (omega arith)) (
        ap (λ t. record { level = level + 1; num_leaves = num_leaves; hash = hash } ∷ t)
          (carry_events-same num_leaves carries (level + 1) hash
            (λ j p q. same j (omega arith) (omega arith))))

module _ (J : ArbJournal) (L : Lawful J) (sp : StorageSpace) where
  open J use {State}
  open L use {value, value-seen, value-stored, value-hashed, read_lem, write_lem, keccak_lem}

  abbrev pub accumulator : SendMerkle
  accumulator = open_send_merkle J sp

  abbrev pub cell : ℕ → ℕ
  cell level = slot_for_hash J sp (2 + level)

  abbrev pub seen_cell : ℕ → State → State
  seen_cell level s = L.seen sp.account (cell level) s

  abbrev pub put_cell : ℕ → ℕ → State → State
  put_cell level v s = L.stored sp.account (cell level) v s

  partial_slot : (level : ℕ) → level ≤ 64 → saturating_add 64 2 level ≡ 2 + level
  partial_slot level h = omega arith

  partial_lem :
      (level : ℕ) (s : State)
      → level ≤ 64
      → SendMerkle.partial J accumulator level s
        ≡ (ok (value s sp.account (cell level)), seen_cell level s)
  unfolding SendMerkle.partial
  partial_lem level s h = rw (partial_slot level h) (read_lem sp.account (cell level) s)

  set_partial_lem :
      (level v : ℕ) (s : State)
      → level ≤ 64
      → SendMerkle.set_partial J accumulator level v s ≡ (ok tt, put_cell level v s)
  unfolding SendMerkle.set_partial
  set_partial_lem level v s h = rw (partial_slot level h) (write_lem sp.account (cell level) v s)

  -- The hash of a full level and the hash so far.
  abbrev pub joined : ℕ → ℕ → State → ℕ
  joined level so_far s =
      J.keccak256 (be_bytes 32 (value s sp.account (cell level)) ++ be_bytes 32 so_far)

  abbrev pub carried : ℕ → ℕ → State → State
  carried level so_far s = put_cell level 0 (
      L.hashed (be_bytes 32 (value s sp.account (cell level)) ++ be_bytes 32 so_far)
        (seen_cell level s))

  pub loop_last :
      (new_size fuel level so_far : ℕ) (s : State)
      → level ≤ 64
      → append_loop J accumulator level new_size (suc fuel) level so_far s
        ≡ (ok [], put_cell level so_far s)
  unfolding append_loop
  loop_last new_size fuel level so_far s h =
      simp (eq_self, set_partial_lem level so_far s h, ◌>>=◌) refl

  pub loop_empty :
      (count new_size fuel level so_far : ℕ) (s : State)
      → level < count
      → count ≤ 64
      → value s sp.account (cell level) ≡ 0
      → append_loop J accumulator count new_size (suc fuel) level so_far s
        ≡ (ok [], put_cell level so_far (seen_cell level s))
  unfolding append_loop
  loop_empty count new_size fuel level so_far s h k e =
      simp
        (
          ne→eq_false level count (λ (q : level ≡ count). omega arith),
          partial_lem level s (omega arith),
          e,
          set_partial_lem level so_far (seen_cell level s) (omega arith),
          ◌>>=◌,
        )
        refl

  pub loop_carry :
      (count new_size fuel level so_far : ℕ) (s s' : State) (events : List SendMerkleUpdateEvent)
      → level < count
      → count ≤ 64
      → value s sp.account (cell level) ≢ 0
      → append_loop J accumulator count new_size fuel
          (level + 1)
          (joined level so_far s)
          (carried level so_far s)
        ≡ (ok events, s')
      → append_loop J accumulator count new_size (suc fuel) level so_far s ≡ (
        ok (
            record { level = level + 1; num_leaves = new_size - 1; hash = joined level so_far s }
            ∷ events),
        s',
      )
  unfolding append_loop
  loop_carry count new_size fuel level so_far s s' events h k nz rest =
      simp
        (
          ne→eq_false level count (λ (q : level ≡ count). omega arith),
          partial_lem level s (omega arith),
          ne→eq_false (value s sp.account (cell level)) 0 nz,
          keccak_lem,
          set_partial_lem level 0 _ (omega arith),
          next,
          rest,
          ◌>>=◌,
        )
        refl
    where
      next : saturating_add 64 level 1 ≡ level + 1
      next = omega arith
