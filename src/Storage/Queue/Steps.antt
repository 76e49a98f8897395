-- ===== src/Storage/Queue/Steps.antt =====
-- The words of the queue's space after each operation, key by key.
use arb_revm.Base.{
  arith, eq_self, if◌then◌else◌, min, ne→eq_false, none, some, u64_max, ℕ, ◌+◌, ◌<◌, ◌==◌, ◌^◌, ◌≡◌,
  ◌≢◌, ◌≤◌,
}
use arb_revm.Journal.{ArbJournal, Lawful, ok, ◌>>=◌}
use arb_revm.Storage.Space.{StorageSpace, slot_for_hash}
use arb_revm.Storage.Space.Apart.{AreApart, slots_eq}
use arb_revm.Storage.Slot.Runs.{get_uint_lem, set_u64_lem, read}
use arb_revm.Storage.Queue.{
  open_queue, put, get, peek, is_empty, set_entry, get_entry, take_first, peek_first,
}

module _ (J : ArbJournal) (L : Lawful J) (sp : StorageSpace) where
  open J use {State}
  open L use {value, read_lem, write_lem, value-seen, value-stored}

  -- The word at a key of the queue's space.
  abbrev pub cell : State → ℕ → ℕ
  cell s i = value s sp.account (slot_for_hash J sp i)

  -- The state after the two pointers were read.
  abbrev pub peeked : State → State
  peeked s = read J L (open_queue J sp).next_get (read J L (open_queue J sp).next_put s)

  cell-peeked : (s : State) (i : ℕ) → cell (peeked s) i ≡ cell s i
  cell-peeked s i = simp value-seen

  module _ (apart : AreApart J (2 ^ 64) sp) (s : State) (put_in : cell s 0 < 2 ^ 64)
      (get_in : cell s 1 < 2 ^ 64) where
    pub put_ok : (v : ℕ) → (put J (open_queue J sp) v s).0 ≡ ok tt
    unfolding put set_entry
    put_ok v =
        simp (
          get_uint_lem J L 64 (open_queue J sp).next_put s put_in,
          set_u64_lem J L,
          write_lem,
          ◌>>=◌,
        )

    pub cell-put :
        (v i : ℕ)
        → i < 2 ^ 64
        → cell (put J (open_queue J sp) v s).1 i
          ≡ (if cell s 0 == i then v else if 0 == i then min (cell s 0 + 1) u64_max else cell s i)
    unfolding put set_entry
    cell-put v i hi = simp (
      get_uint_lem J L 64 (open_queue J sp).next_put s put_in,
      set_u64_lem J L,
      write_lem,
      value-stored,
      value-seen,
      eq_self,
      slots_eq J (2 ^ 64) sp apart (cell s 0) i put_in hi,
      slots_eq J (2 ^ 64) sp apart 0 i (omega arith) hi,
      ◌>>=◌,
    )

    pub is_empty_lem : is_empty J (open_queue J sp) s ≡ (ok (cell s 0 == cell s 1), peeked s)
    unfolding is_empty
    is_empty_lem = simp (
      get_uint_lem J L 64 (open_queue J sp).next_put s put_in,
      get_uint_lem J L 64 (open_queue J sp).next_get (read J L (open_queue J sp).next_put s)
          (rw (value-seen) get_in),
      value-seen,
      ◌>>=◌,
    )

    pub get_empty : cell s 0 ≡ cell s 1 → get J (open_queue J sp) s ≡ (ok none, peeked s)
    unfolding get
    get_empty e = simp (is_empty_lem, e, eq_self, ◌>>=◌)

    module _ (some_left : cell s 0 ≢ cell s 1) (past_pointers : 2 ≤ cell s 1) where
      pub get-some : (get J (open_queue J sp) s).0 ≡ ok (some (cell s (cell s 1)))
      unfolding get take_first get_entry set_entry
      get-some = simp (
        is_empty_lem,
        ne→eq_false (cell s 0) (cell s 1) some_left,
        get_uint_lem J L 64 (open_queue J sp).next_get (peeked s) (rw (cell-peeked s 1) get_in),
        cell-peeked,
        set_u64_lem J L,
        write_lem,
        read_lem,
        value-stored,
        value-seen,
        eq_self,
        slots_eq J (2 ^ 64) sp apart 1 (cell s 1) (omega arith) get_in,
        ne→eq_false 1 (cell s 1) (omega arith),
        ◌>>=◌,
      )

      pub cell-get :
          (i : ℕ)
          → i < 2 ^ 64
          → cell (get J (open_queue J sp) s).1 i
            ≡ (if cell s 1 == i then 0 else if 1 == i then min (cell s 1 + 1) u64_max else cell s i)
      unfolding get take_first get_entry set_entry
      cell-get i hi = simp (
        is_empty_lem,
        ne→eq_false (cell s 0) (cell s 1) some_left,
        get_uint_lem J L 64 (open_queue J sp).next_get (peeked s) (rw (cell-peeked s 1) get_in),
        cell-peeked,
        set_u64_lem J L,
        write_lem,
        read_lem,
        value-stored,
        value-seen,
        eq_self,
        slots_eq J (2 ^ 64) sp apart (cell s 1) i get_in hi,
        slots_eq J (2 ^ 64) sp apart 1 i (omega arith) hi,
        ◌>>=◌,
      )

      pub peek-some : (peek J (open_queue J sp) s).0 ≡ ok (some (cell s (cell s 1)))
      unfolding peek peek_first get_entry
      peek-some = simp (
        is_empty_lem,
        ne→eq_false (cell s 0) (cell s 1) some_left,
        get_uint_lem J L 64 (open_queue J sp).next_get (peeked s) (rw (cell-peeked s 1) get_in),
        cell-peeked,
        read_lem,
        value-seen,
        ◌>>=◌,
      )
