-- ===== src/Storage/Queue/Fifo.antt =====
-- A queue whose pointers are in order behaves as the list of the entries between them.
pub mod Calls
use arb_revm.Base.{
  Bool, Bool-cases, List, Option, Option-cases, [], ap, append-nil, append_assoc, ap₂, arith,
  bit_and, bit_or, bit_xor, checked_add, checked_mul, checked_sub, drop, eq_self, eq_true→eq, false,
  fun_ext, if◌then◌else◌, inl, inr, leb, length, length-append, le→leb, le→ltb, ltb, ltb→lt, lt→ltb,
  min, ne→eq_false, none, not, refl, replicate, saturating_add, saturating_mul, some, subst, suc,
  sym, take, true, u256_max, u64_max, unwrap_or, zero, ℕ, ◌%◌, ◌&&◌, ◌*◌, ◌++◌, ◌+◌, ◌-◌, ◌/◌, ◌<◌,
  ◌==◌, ◌^◌, ◌||◌, ◌↔◌, ◌∎, ◌∙◌, ◌∷◌, ◌≡◌, ◌≡⟨◌⟩◌, ◌≢◌, ◌≤◌, ◌⊎◌,
}
use arb_revm.Journal.{ArbJournal, Lawful, ok}
use arb_revm.Storage.Space.{StorageSpace}
use arb_revm.Storage.Space.Apart.{AreApart}
use arb_revm.Storage.Queue.{open_queue, put, get, peek}
use arb_revm.Storage.Queue.Steps.{cell, put_ok, cell-put, get-some, cell-get, peek-some}
use arb_revm.Storage.Queue.Windows.{between, InOrder, between-put, between-get}

module _ (J : ArbJournal) (L : Lawful J) (sp : StorageSpace) where
  open J use {State}

  -- The entries, oldest first.
  abbrev pub contents : State → List ℕ
  contents s = between (cell J L sp s)

  -- The pointers stand past their own slots, in order, and have room to move.
  abbrev pub IsQueue : State → Type 0
  IsQueue s = InOrder (cell J L sp s)

  module _ (apart : AreApart J (2 ^ 64) sp) (s : State) (q : IsQueue s) where
    -- `put` succeeds and appends its value to the entries.
    pub put_refines :
        (v : ℕ)
        → ((put J (open_queue J sp) v s).0 ≡ ok tt)
          × (contents (put J (open_queue J sp) v s).1 ≡ contents s ++ (v ∷ []))
    put_refines v = (
      put_ok J L sp apart s (omega arith) (omega arith) v,
      between-put (cell J L sp s) (cell J L sp (put J (open_queue J sp) v s).1) v q
          (cell-put J L sp apart s (omega arith) (omega arith) v),
    )

    -- With room left, the pointers stay in order after `put`.
    pub put-IsQueue :
        (v : ℕ) → cell J L sp s 0 + 1 < u64_max → IsQueue (put J (open_queue J sp) v s).1
    put-IsQueue v room = record {
      past_pointers = omega (arith, e1);
      in_order = omega (arith, e0, e1);
      in_u64 = omega (arith, e0);
    }
      where
        e0 : cell J L sp (put J (open_queue J sp) v s).1 0 ≡ cell J L sp s 0 + 1
        e0 = ground (arith, cell-put J L sp apart s (omega arith) (omega arith) v 0)

        e1 : cell J L sp (put J (open_queue J sp) v s).1 1 ≡ cell J L sp s 1
        e1 = ground (arith, cell-put J L sp apart s (omega arith) (omega arith) v 1)

    -- `get` returns the oldest entry and leaves the others.
    pub get_refines :
        cell J L sp s 0 ≢ cell J L sp s 1
        → (x : ℕ) × ((get J (open_queue J sp) s).0 ≡ ok (some x))
          × ((peek J (open_queue J sp) s).0 ≡ ok (some x))
          × (contents s ≡ x ∷ contents (get J (open_queue J sp) s).1)
    get_refines ne = (
      cell J L sp s (cell J L sp s 1),
      get-some J L sp apart s (omega arith) (omega arith) ne (omega arith),
      peek-some J L sp apart s (omega arith) (omega arith) ne (omega arith),
      between-get (cell J L sp s) (cell J L sp (get J (open_queue J sp) s).1) q ne
          (cell-get J L sp apart s (omega arith) (omega arith) ne (omega arith)),
    )

    pub get-IsQueue : cell J L sp s 0 ≢ cell J L sp s 1 → IsQueue (get J (open_queue J sp) s).1
    get-IsQueue ne = record {
      past_pointers = omega (arith, e1);
      in_order = omega (arith, e0, e1);
      in_u64 = omega (arith, e0);
    }
      where
        e0 : cell J L sp (get J (open_queue J sp) s).1 0 ≡ cell J L sp s 0
        e0 = ground (arith, cell-get J L sp apart s (omega arith) (omega arith) ne (omega arith) 0)

        e1 : cell J L sp (get J (open_queue J sp) s).1 1 ≡ cell J L sp s 1 + 1
        e1 = ground (arith, cell-get J L sp apart s (omega arith) (omega arith) ne (omega arith) 1)
