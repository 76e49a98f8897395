-- ===== src/Storage/SendMerkle.antt =====
-- `SendMerkle` of crates/arb-revm/src/storage/send_merkle.rs: the accumulator of the messages sent to
-- L1, as a number of leaves and one hash for each full subtree that awaits its sibling.
pub mod Steps
pub mod Ends
pub mod Carry
use arb_revm.Base.{
  Bool, Bool-cases, List, Option, Option-cases, [], ap, append-nil, append_assoc, ap₂, arith,
  bit_and, bit_or, bit_xor, checked_add, checked_mul, checked_sub, dec_le, dec_lt, drop, eq_self,
  eq_true→eq, false, fun_ext, if◌then◌else◌, inl, inr, leb, length, length-append, le→leb, le→ltb,
  ltb, ltb→lt, lt→ltb, map_option, min, ne→eq_false, none, not, refl, replicate, saturating_add,
  saturating_mul, some, subst, suc, sym, take, true, u256_max, u64_max, unwrap_or, zero, ℕ,
  ℕ_discrete, ◌%◌, ◌&&◌, ◌*◌, ◌++◌, ◌+◌, ◌-◌, ◌/◌, ◌<◌, ◌==◌, ◌^◌, ◌||◌, ◌↔◌, ◌∎, ◌∙◌, ◌∷◌, ◌≡◌,
  ◌≡⟨◌⟩◌, ◌≢◌, ◌≤◌, ◌⊎◌,
}
use arb_revm.Base.Bytes.{be_bytes}
use arb_revm.Journal.{ArbJournal, M, pure, raise, panic, ◌>>=◌, ◌>>◌}
use arb_revm.Storage.Space
use arb_revm.Storage.Space.{StorageSpace, StorageSlot, storage_backed}
use arb_revm.Storage.Slot.{get_u64, set_u64}

pub record SendMerkle : Type 0 where
  pub storage : StorageSpace
  pub size_slot : StorageSlot

pub record SendMerkleUpdateEvent : Type 0 where
  pub level : ℕ
  pub num_leaves : ℕ
  pub hash : ℕ

-- `64 - size.leading_zeros()`, with the bits that are left.
unfoldable pub bit_length : ℕ → ℕ → ℕ
bit_length zero v = 0
bit_length (suc bits) v = let rest = bit_length bits (v / 2) in if v == 0 then 0 else suc rest

unfoldable pub partial_count_for_size : ℕ → ℕ
partial_count_for_size size = if size == 0 then 0 else bit_length 64 size

module _ (J : ArbJournal) where
  open J use {State, keccak256, keccak}

  abbrev pub open_send_merkle : StorageSpace → SendMerkle
  open_send_merkle storage = record { storage = storage; size_slot = storage_backed J storage 0 }

  unfoldable pub size : SendMerkle → M State ℕ
  size t = get_u64 J t.size_slot

  unfoldable pub set_size : SendMerkle → ℕ → M State (Unit {0})
  set_size t v = set_u64 J t.size_slot v

  unfoldable pub partial : SendMerkle → ℕ → M State ℕ
  partial t level = Space.get J t.storage (saturating_add 64 2 level)

  unfoldable pub set_partial : SendMerkle → ℕ → ℕ → M State (Unit {0})
  set_partial t level value = Space.set J t.storage (saturating_add 64 2 level) value

  -- The loop of `append`: a full level is emptied and its hash carried on, like a digit of a binary
  -- counter. Out of fuel, it fails.
  unfoldable pub append_loop : SendMerkle → ℕ → ℕ → ℕ → ℕ → ℕ → M State (List SendMerkleUpdateEvent)
  append_loop t old_partial_count new_size zero level so_far = raise panic
  append_loop t old_partial_count new_size (suc fuel) level so_far =
      if level == old_partial_count then (set_partial t level so_far >> pure []) else (do
        this_level ← partial t level
        if this_level == 0 then (set_partial t level so_far >> pure []) else (do
          combined ← keccak (be_bytes 32 this_level ++ be_bytes 32 so_far)
          set_partial t level 0
          let event : SendMerkleUpdateEvent = record {
            level = saturating_add 64 level 1;
            num_leaves = new_size - 1;
            hash = combined;
          }
          events ←
              append_loop t old_partial_count new_size fuel (saturating_add 64 level 1) combined
          pure (event ∷ events)))

  -- One round for each level, and one more.
  unfoldable pub append : SendMerkle → ℕ → M State (List SendMerkleUpdateEvent)
  append t item_hash = do
    old_size ← size t
    let new_size = saturating_add 64 old_size 1
    set_size t new_size
    append_loop t (partial_count_for_size old_size) new_size 65 0
        (keccak256 (be_bytes 32 item_hash))

  unfoldable pub keccak_concat : ℕ → ℕ → ℕ
  keccak_concat left right = keccak256 (be_bytes 32 left ++ be_bytes 32 right)

  -- The loop `while capacity_in_hash < capacity`, on fuel.
  unfoldable pub fill_up : ℕ → ℕ → ℕ → ℕ → ℕ
  fill_up zero capacity capacity_in_hash hash = hash
  fill_up (suc fuel) capacity capacity_in_hash hash =
      let filled =
        fill_up fuel capacity (saturating_mul 64 capacity_in_hash 2) (keccak_concat hash 0) in
      if ltb capacity_in_hash capacity then filled else hash

  -- One level's hash joins the hash so far.
  unfoldable pub join_partial : ℕ → ℕ → Option ℕ → ℕ → Option ℕ × ℕ
  join_partial leaf capacity none capacity_in_hash = (some leaf, capacity)
  join_partial leaf capacity (some hash) capacity_in_hash = (
    some (keccak_concat leaf (fill_up 64 capacity capacity_in_hash hash)),
    saturating_mul 64 capacity 2,
  )

  -- The loop of `root` over the levels from `level` on, with the rounds left.
  unfoldable pub root_loop : SendMerkle → ℕ → ℕ → ℕ → Option ℕ × ℕ → M State (Option ℕ)
  root_loop t zero level capacity (hash, capacity_in_hash) = pure hash
  root_loop t (suc rounds) level capacity (hash, capacity_in_hash) = do
    leaf ← partial t level
    root_loop t rounds (level + 1) (saturating_mul 64 capacity 2) (
        if leaf == 0
        then (hash, capacity_in_hash)
        else join_partial leaf capacity hash capacity_in_hash)

  unfoldable pub root : SendMerkle → M State ℕ
  root t = do
    leaves ← size t
    if leaves == 0 then pure 0 else (do
      hash ← root_loop t (partial_count_for_size leaves) 0 1 (none, 0)
      pure (unwrap_or hash 0))

  unfoldable pub read_partials : SendMerkle → ℕ → ℕ → M State (List ℕ)
  read_partials t zero level = pure []
  read_partials t (suc rounds) level = do
    leaf ← partial t level
    rest ← read_partials t rounds (level + 1)
    pure (leaf ∷ rest)

  unfoldable pub state_for_export : SendMerkle → M State (ℕ × ℕ × List ℕ)
  state_for_export t = do
    leaves ← size t
    hash ← root t
    partials ← read_partials t (partial_count_for_size leaves) 0
    pure (leaves, hash, partials)
