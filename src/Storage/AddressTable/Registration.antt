-- ===== src/Storage/AddressTable/Registration.antt =====
-- Registering an address: the index that it gets is the one that a lookup finds.
use arb_revm.Base.{
  List, arith, eq_self, false, if◌then◌else◌, ne→eq_false, refl, sym, u64_max, ℕ, ◌%◌, ◌+◌, ◌<◌,
  ◌==◌, ◌^◌, ◌∙◌, ◌≡◌, ◌≢◌,
}
use arb_revm.Journal.{ArbJournal, Lawful, ok, ◌>>=◌}
use arb_revm.Storage.Space.{StorageSpace, slot_for_hash, storage_backed}
use arb_revm.Storage.Space.Apart.{AreApart, AreDisjoint, slots_eq}
use arb_revm.Storage.AddressTable.{AddressTable, register}
use arb_revm.Storage.Slot.Runs.{get_uint_lem}
use arb_revm.Storage.Slot.{set_u64}

module _ (J : ArbJournal) (L : Lawful J) (account : ℕ) (list_key map_key : List ℕ) where
  open J use {State}
  open L use {value, value-seen, value-stored, read_lem, write_lem}

  -- The table's list and its map, two spaces of one account.
  abbrev list_space : StorageSpace
  list_space = record { key = list_key; account = account }

  abbrev map_space : StorageSpace
  map_space = record { key = map_key; account = account }

  abbrev pub table : AddressTable
  table = record {
    backing_storage = list_space;
    by_address = map_space;
    num_items = storage_backed J list_space 0;
  }

  -- The word of the list at a place, and that of the map for an address.
  abbrev pub place : State → ℕ → ℕ
  place s i = value s account (slot_for_hash J list_space i)

  abbrev pub index_word : State → ℕ → ℕ
  index_word s a = value s account (slot_for_hash J map_space a)

  module _ (list_apart : AreApart J (2 ^ 64) list_space)
      (map_apart : AreApart J (2 ^ 160) map_space)
      (disjoint : AreDisjoint J (2 ^ 64) list_space (2 ^ 160) map_space) where
    abbrev after : ℕ → ℕ → State → State
    after n a s = L.stored account (slot_for_hash J list_space 0) n (
        L.stored account (slot_for_hash J map_space a) n (
          L.stored account (slot_for_hash J list_space n) a (
            L.seen account (slot_for_hash J list_space 0)
              (L.seen account (slot_for_hash J map_space a) s))))

    -- No slot of the list is one of the map.
    list_map_eq :
        (i b : ℕ)
        → i < 2 ^ 64
        → b < 2 ^ 160
        → (slot_for_hash J list_space i == slot_for_hash J map_space b) ≡ false
    list_map_eq i b hi hb = ne→eq_false _ _ (disjoint i b hi hb)

    map_list_eq :
        (b i : ℕ)
        → i < 2 ^ 64
        → b < 2 ^ 160
        → (slot_for_hash J map_space b == slot_for_hash J list_space i) ≡ false
    map_list_eq b i hi hb = ne→eq_false _ _ (λ e. disjoint i b hi hb (sym e))

    place-after :
        (n a : ℕ) (s : State) (i : ℕ)
        → n < 2 ^ 64
        → i < 2 ^ 64
        → a < 2 ^ 160
        → place (after n a s) i ≡ (if 0 == i then n else if n == i then a else place s i)
    place-after n a s i hn hi ha = simp (
      value-stored,
      value-seen,
      eq_self,
      map_list_eq a i hi ha,
      slots_eq J (2 ^ 64) list_space list_apart 0 i (omega arith) hi,
      slots_eq J (2 ^ 64) list_space list_apart n i hn hi,
    )

    index-after :
        (n a : ℕ) (s : State) (b : ℕ)
        → n < 2 ^ 64
        → a < 2 ^ 160
        → b < 2 ^ 160
        → index_word (after n a s) b ≡ (if a == b then n else index_word s b)
    index-after n a s b hn ha hb = simp (
      value-stored,
      value-seen,
      eq_self,
      list_map_eq 0 b (omega arith) hb,
      list_map_eq n b hn hb,
      slots_eq J (2 ^ 160) map_space map_apart a b ha hb,
    )

    -- An address that is new gets the next index: the run succeeds with the old length, the length
    -- grows by one, the list has the address at its place and the map sends it to that place; the
    -- other addresses of the map and the other places of the list keep their words.
    pub register_new :
        (a : ℕ) (s : State)
        → a < 2 ^ 160
        → place s 0 < u64_max
        → index_word s a ≡ 0
        → let (r, s') = register J table a s in
          (r ≡ ok (place s 0))
          × (place s' 0 ≡ place s 0 + 1)
          × (place s' (place s 0 + 1) ≡ a)
          × (index_word s' a ≡ place s 0 + 1)
          × ((b : ℕ) → b < 2 ^ 160 → b ≢ a → index_word s' b ≡ index_word s b)
          × ((i : ℕ) → i < 2 ^ 64 → i ≢ 0 → i ≢ place s 0 + 1 → place s' i ≡ place s i)
    unfolding register set_u64
    register_new a s ha small new =
        simp
          (
            read_lem,
            write_lem,
            new,
            value-seen,
            get_uint_lem J L 64 (storage_backed J list_space 0)
                (L.seen account (slot_for_hash J map_space a) s) (omega (arith, seen_size)),
            next,
            last,
            ◌>>=◌,
          )
          (
            refl,
            place-after (place s 0 + 1) a s 0 (omega arith) (omega arith) ha ∙ ground arith,
            place-after (place s 0 + 1) a s (place s 0 + 1) (omega arith) (omega arith) ha
                ∙ ground arith,
            index-after (place s 0 + 1) a s a (omega arith) ha ha ∙ ground arith,
            λ b hb other.
                index-after (place s 0 + 1) a s b (omega arith) ha hb ∙ ground (arith, other),
            λ i hi list_used map_used.
                place-after (place s 0 + 1) a s i (omega arith) hi ha
                ∙ ground (arith, list_used, map_used),
          )
      where
        seen_size : place (L.seen account (slot_for_hash J map_space a) s) 0 ≡ place s 0
        seen_size =
            value-seen account (slot_for_hash J map_space a) s account
              (slot_for_hash J list_space 0)

        next : (place s 0 + 1) % 2 ^ 64 ≡ place s 0 + 1
        next = omega arith

        last : (place s 0 + 1 + u64_max) % 2 ^ 64 ≡ place s 0
        last = omega arith
