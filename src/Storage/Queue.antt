-- ===== src/Storage/Queue.antt =====
-- `StorageQueue` of crates/arb-revm/src/storage/queue.rs: a FIFO of words between two pointers.
pub mod Steps
pub mod Windows
pub mod Fifo
use arb_revm.Base.{
  ℕ, ◌+◌, ◌-◌, Bool, true, false, not, ◌&&◌, ◌==◌, if◌then◌else◌, saturating_add, Option, none,
  some,
}
use arb_revm.Journal.{ArbJournal, M, pure, ◌>>=◌, ◌>>◌}
use arb_revm.Storage.Space.{StorageSpace, StorageSlot, storage_backed}
use arb_revm.Storage.Space
use arb_revm.Storage.Slot.{get_u64, set_u64}

abbrev pub next_put_offset : ℕ
next_put_offset = 0

abbrev pub next_get_offset : ℕ
next_get_offset = 1

abbrev pub queue_initial_offset : ℕ
queue_initial_offset = 2

pub record StorageQueue : Type 0 where
  pub storage : StorageSpace
  pub next_put : StorageSlot
  pub next_get : StorageSlot

module _ (J : ArbJournal) where
  open J use {State}

  -- `StorageQueue::open`.
  abbrev pub open_queue : StorageSpace → StorageQueue
  open_queue sp = record {
    storage = sp;
    next_put = storage_backed J sp next_put_offset;
    next_get = storage_backed J sp next_get_offset;
  }

  unfoldable pub initialize : StorageQueue → M State (Unit {0})
  initialize q = do
    set_u64 J q.next_put queue_initial_offset
    set_u64 J q.next_get queue_initial_offset

  -- A queue that was never written has both pointers at 0.
  unfoldable pub ensure_initialized : StorageQueue → M State (Unit {0})
  unfolding initialize
  ensure_initialized q = do
    put ← get_u64 J q.next_put
    get ← get_u64 J q.next_get
    if (put == 0) && (get == 0) then initialize q else pure tt

  unfoldable pub is_empty : StorageQueue → M State Bool
  is_empty q = do put ← get_u64 J q.next_put; get ← get_u64 J q.next_get; pure (put == get)

  unfoldable pub size : StorageQueue → M State ℕ
  size q = do put ← get_u64 J q.next_put; get ← get_u64 J q.next_get; pure (put - get)

  unfoldable pub get_entry : StorageQueue → ℕ → M State ℕ
  get_entry q offset = Space.get J q.storage offset

  unfoldable pub set_entry : StorageQueue → ℕ → ℕ → M State (Unit {0})
  set_entry q offset v = Space.set J q.storage offset v

  unfoldable pub peek_first : StorageQueue → M State (Option ℕ)
  unfolding get_entry
  peek_first q = do next ← get_u64 J q.next_get; entry ← get_entry q next; pure (some entry)

  unfoldable pub peek : StorageQueue → M State (Option ℕ)
  unfolding is_empty peek_first
  peek q = do empty ← is_empty q; if empty then pure none else peek_first q

  unfoldable pub take_first : StorageQueue → M State (Option ℕ)
  unfolding get_entry set_entry
  take_first q = do
    current ← get_u64 J q.next_get
    set_u64 J q.next_get (saturating_add 64 current 1)
    entry ← get_entry q current
    set_entry q current 0
    pure (some entry)

  -- `StorageQueue::get`.
  unfoldable pub get : StorageQueue → M State (Option ℕ)
  unfolding is_empty take_first
  get q = do empty ← is_empty q; if empty then pure none else take_first q

  unfoldable pub put : StorageQueue → ℕ → M State (Unit {0})
  unfolding set_entry
  put q v = do
    current ← get_u64 J q.next_put
    set_u64 J q.next_put (saturating_add 64 current 1)
    set_entry q current v

  unfoldable pub start_over : StorageQueue → M State Bool
  start_over q = do
    set_u64 J q.next_get queue_initial_offset
    set_u64 J q.next_put queue_initial_offset
    pure true

  -- An empty queue starts over at its first entry.
  unfoldable pub shift : StorageQueue → M State Bool
  unfolding is_empty start_over
  shift q = do empty ← is_empty q; if not empty then pure false else start_over q
