-- ===== src/Storage/AddressTable/RoundTrip.antt =====
-- Looking an address up after it was registered.
use arb_revm.Base.{
  List, arith, false, leb, lt→ltb, ne→eq_false, some, u64_max, ℕ, ◌%◌, ◌+◌, ◌-◌, ◌<◌, ◌^◌, ◌∙◌, ◌≡◌,
  ◌≢◌,
}
use arb_revm.Journal.{ArbJournal, Lawful, ok, ◌>>=◌}
use arb_revm.Storage.Space.{storage_backed}
use arb_revm.Storage.Space.Apart.{AreApart, AreDisjoint}
use arb_revm.Storage.AddressTable.{register, lookup, lookup_index}
use arb_revm.Storage.AddressTable.Registration.{table, place, index_word, register_new}
use arb_revm.Storage.Slot.Runs.{get_uint_lem}

module _ (J : ArbJournal) (L : Lawful J) (account : ℕ) (list_key map_key : List ℕ) where
  open J use {State}
  open L use {value, value-seen, value-stored, read_lem, write_lem}

  abbrev index_of : State → ℕ → ℕ
  index_of s a = index_word J L account list_key map_key s a

  abbrev at_place : State → ℕ → ℕ
  at_place s i = place J L account list_key map_key s i

  lookup_lem :
      (a : ℕ) (s : State)
      → index_of s a ≢ 0
      → index_of s a < 2 ^ 64
      → (lookup J (table J L account list_key map_key) a s).0 ≡ ok (some (index_of s a - 1))
  unfolding lookup
  lookup_lem a s some_index small =
      simp (read_lem, ne→eq_false _ 0 some_index, lt→ltb _ _ small, ◌>>=◌)

  lookup_index_lem :
      (i : ℕ) (s : State)
      → i < at_place s 0
      → at_place s 0 < 2 ^ 64
      → (lookup_index J (table J L account list_key map_key) i s).0
        ≡ ok (some (at_place s (i + 1) % 2 ^ 160))
  unfolding lookup_index
  lookup_index_lem i s below small = simp (
    get_uint_lem J L 64 (storage_backed J _ 0) s small,
    read_lem,
    value-seen,
    inside,
    next,
    ◌>>=◌,
  )
    where
      inside : leb (at_place s 0) i ≡ false
      inside = ground arith

      next : (i + 1) % 2 ^ 64 ≡ i + 1
      next = omega arith

  module _ (list_apart : AreApart J (2 ^ 64) (record { key = list_key; account = account }))
      (map_apart : AreApart J (2 ^ 160) (record { key = map_key; account = account }))
      (disjoint : AreDisjoint J
        (2 ^ 64)
        (record { key = list_key; account = account })
        (2 ^ 160)
        (record { key = map_key; account = account })) where
    -- After an address was registered that the table did not have, in a table with room for it
    -- whose slots are apart, a lookup finds the index that it got, the old length, and the index
    -- finds the address.
    pub lookup-register :
        (a : ℕ) (s : State)
        → a < 2 ^ 160
        → at_place s 0 < u64_max
        → index_of s a ≡ 0
        → let s' = (register J (table J L account list_key map_key) a s).1 in
          ((register J (table J L account list_key map_key) a s).0 ≡ ok (at_place s 0))
          × ((lookup J (table J L account list_key map_key) a s').0 ≡ ok (some (at_place s 0)))
          × ((lookup_index J (table J L account list_key map_key) (at_place s 0) s').0
              ≡ ok (some a))
    lookup-register a s ha small new =
        let (done, size, listed, mapped, others, places) =
          register_new J L account list_key map_key list_apart map_apart disjoint a s ha small
            new in
        let s' : State = (register J (table J L account list_key map_key) a s).1 in
        (
          done,
          lookup_lem a s' (λ none_yet. omega arith) (omega arith) ∙ ground arith,
          lookup_index_lem (at_place s 0) s' (omega arith) (omega arith) ∙ ground arith,
        )
