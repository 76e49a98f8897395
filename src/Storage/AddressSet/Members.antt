-- ===== src/Storage/AddressSet/Members.antt =====
-- Membership of an address set after an address joins or leaves.
use arb_revm.Base.{
  Bool-cases, List, ap, arith, eq_self, false, inl, inr, ne→eq_false, not, refl, saturating_add,
  true, ℕ, ℕ_discrete, ◌-◌, ◌<◌, ◌==◌, ◌^◌, ◌∙◌, ◌≡◌, ◌≢◌,
}
use arb_revm.Journal.{ArbJournal, Lawful, ok, ◌>>=◌, ◌>>◌}
use arb_revm.Storage.Space.{StorageSpace, slot_for_hash, storage_backed}
use arb_revm.Storage.Space.Apart.{AreDisjoint}
use arb_revm.Storage.AddressSet.{AddressSet, is_member, add, fill_place, remove}
use arb_revm.Storage.Slot.Runs.{get_uint_lem, set_u64_lem}

module _ (J : ArbJournal) (L : Lawful J) (account : ℕ) (list_key map_key : List ℕ) where
  open J use {State}
  open L use {value, value-seen, value-stored, read_lem, write_lem}

  abbrev list_space : StorageSpace
  list_space = record { key = list_key; account = account }

  abbrev map_space : StorageSpace
  map_space = record { key = map_key; account = account }

  abbrev pub address_set : AddressSet
  address_set = record {
    backing = list_space;
    size = storage_backed J list_space 0;
    by_address = map_space;
  }

  abbrev pub size_of : State → ℕ
  size_of s = value s account (slot_for_hash J list_space 0)

  abbrev pub position : State → ℕ → ℕ
  position s a = value s account (slot_for_hash J map_space a)

  abbrev seen_in_map : ℕ → State → State
  seen_in_map a s = L.seen account (slot_for_hash J map_space a) s

  is_member_run :
      (a : ℕ) (s : State)
      → is_member J address_set a s ≡ (ok (not (position s a == 0)), seen_in_map a s)
  unfolding is_member
  is_member_run a s = simp (read_lem, ◌>>=◌)

  is_member_lem :
      (a : ℕ) (s : State) → (is_member J address_set a s).0 ≡ ok (not (position s a == 0))
  is_member_lem a s = ap (λ t. t.0) (is_member_run a s)

  module _ (disjoint : AreDisjoint J (2 ^ 64) list_space (2 ^ 160) map_space) where
    list_map_eq :
        (i b : ℕ)
        → i < 2 ^ 64
        → b < 2 ^ 160
        → (slot_for_hash J list_space i == slot_for_hash J map_space b) ≡ false
    list_map_eq i b hi hb = ne→eq_false _ _ (disjoint i b hi hb)

    -- What adding a new address does.
    add_new :
        (a : ℕ) (s : State)
        → position s a ≡ 0
        → size_of s < 2 ^ 64
        → add J address_set a s ≡ (
          ok tt,
          L.stored account (slot_for_hash J list_space 0) (saturating_add 64 (size_of s) 1) (
              L.stored account (slot_for_hash J list_space (saturating_add 64 (size_of s) 1)) a (
                L.stored account
                  (slot_for_hash J map_space a)
                  (saturating_add 64 (size_of s) 1)
                  (L.seen account (slot_for_hash J list_space 0) (seen_in_map a s)))),
        )
    unfolding add
    add_new a s new small = simp (
      is_member_run a s,
      new,
      write_lem,
      set_u64_lem J L,
      value-seen,
      get_uint_lem J L 64 (storage_backed J list_space 0) (seen_in_map a s) (rw value-seen small),
      ◌>>=◌,
    )

    add_known :
        (a : ℕ) (s : State) → position s a ≢ 0 → add J address_set a s ≡ (ok tt, seen_in_map a s)
    unfolding add
    add_known a s known = simp (is_member_run a s, ne→eq_false (position s a) 0 known, ◌>>=◌)

    -- An address that was added is a member, whether or not it was one before, if the size fits a
    -- `u64` and the map shares no slot with the list.
    pub is_member-add :
        (a : ℕ) (s : State)
        → a < 2 ^ 160
        → size_of s < 2 ^ 64
        → ((add J address_set a >> is_member J address_set a) s).0 ≡ ok true
    is_member-add a s ha small =
        let next : ℕ = saturating_add 64 (size_of s) 1 in
        elim (ℕ_discrete (position s a) 0) [
          | yes new ↦
              simp (add_new a s new small, ◌>>=◌)
                (is_member_lem a _
                  ∙ simp
                      (
                        value-stored,
                        eq_self,
                        list_map_eq 0 a (omega arith) ha,
                        list_map_eq next a (omega arith) ha,
                      )
                      (ground arith))
          | no known ↦
              simp (add_known a s known, ◌>>=◌)
                (is_member_lem a (seen_in_map a s)
                  ∙ simp (value-seen, ne→eq_false (position s a) 0 known))
        ]

    -- Filling the place that gets free succeeds.
    fill_place_ok :
        (p n : ℕ) (s : State) → (out : State) × (fill_place J address_set p n s ≡ (ok tt, out))
    unfolding fill_place
    fill_place_ok p n s = elim (Bool-cases (p == n)) [
      | inl last ↦ (s, rw last refl)
      | inr inner ↦ (
        L.stored account (slot_for_hash J list_space p)
            (value s account (slot_for_hash J list_space n))
            (L.stored account
              (slot_for_hash J map_space (value s account (slot_for_hash J list_space n))) p
              (L.seen account (slot_for_hash J list_space n) s)),
        rw inner (simp (read_lem, write_lem, ◌>>=◌)),
      )
    ]

    remove_known :
        (a : ℕ) (s : State)
        → position s a ≢ 0
        → size_of s < 2 ^ 64
        → (out : State) × (remove J address_set a s ≡ (
          ok tt,
          L.stored account (slot_for_hash J list_space 0) (size_of s - 1) (
              L.stored account
                (slot_for_hash J list_space (size_of s))
                0
                (L.stored account (slot_for_hash J map_space a) 0 out)),
        ))
    unfolding remove
    remove_known a s known small =
        let s1 : State = L.seen account (slot_for_hash J list_space 0) (seen_in_map a s) in
        let (out, filled) = fill_place_ok (position s a) (size_of s) s1 in
        (
          out,
          simp (
            read_lem,
            ne→eq_false (position s a) 0 known,
            write_lem,
            set_u64_lem J L,
            get_uint_lem J L 64 (storage_backed J list_space 0) (seen_in_map a s)
                (rw value-seen small),
            value-seen,
            filled,
            ◌>>=◌,
          ),
        )

    -- An address that was removed is no member, whether or not it was one before, if the size
    -- fits a `u64` and the map shares no slot with the list.
    pub is_member-remove :
        (a : ℕ) (s : State)
        → a < 2 ^ 160
        → size_of s < 2 ^ 64
        → ((remove J address_set a >> is_member J address_set a) s).0 ≡ ok false
    unfolding remove
    is_member-remove a s ha small = elim (ℕ_discrete (position s a) 0) [
      | yes absent ↦
          simp (read_lem account (slot_for_hash J map_space a) s, absent, ◌>>=◌)
            (is_member_lem a (seen_in_map a s) ∙ simp (value-seen, absent))
      | no known ↦
          let (out, run) = remove_known a s known small in
          simp (run, ◌>>=◌)
            (is_member_lem a _
              ∙ simp (
                value-stored,
                eq_self,
                list_map_eq 0 a (omega arith) ha,
                list_map_eq (size_of s) a (omega arith) ha,
              ))
    ]
