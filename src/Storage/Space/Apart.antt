-- ===== src/Storage/Space/Apart.antt =====
-- Spaces whose keys have slots of their own. The keys of one page have them whatever the hash.
use arb_revm.Base.{
  Bool-cases, ap, arith, eq_self, eq_true→eq, inl, inr, ne→eq_false, ℕ, ◌%◌, ◌<◌, ◌==◌, ◌≡◌, ◌≢◌,
  ◌≤◌,
}
use arb_revm.Journal.{ArbJournal}
use arb_revm.Storage.Space.{StorageSpace, slot_for_hash}

module _ (J : ArbJournal) where
  open J use {State, keccak256}

  -- The keys below `n` have slots of their own.
  abbrev pub AreApart : ℕ → StorageSpace → Type 0
  AreApart n sp = (i j : ℕ) → i < n → j < n → slot_for_hash J sp i ≡ slot_for_hash J sp j → i ≡ j

  -- Keys below `n` in the one space and below `m` in the other share no slot.
  abbrev pub AreDisjoint : ℕ → StorageSpace → ℕ → StorageSpace → Type 0
  AreDisjoint n sp m tp = (i j : ℕ) → i < n → j < m → slot_for_hash J sp i ≢ slot_for_hash J tp j

  -- A slot keeps the last byte of its key, whatever the hash: the keys of a page are apart.
  pub slot_for_hash-last_byte : (sp : StorageSpace) (h : ℕ) → slot_for_hash J sp h % 256 ≡ h % 256
  unfolding slot_for_hash
  slot_for_hash-last_byte sp h = omega arith

  pub AreApart-page : (n : ℕ) (sp : StorageSpace) → n ≤ 256 → AreApart n sp
  AreApart-page n sp h i j hi hj e =
      omega (arith, slot_for_hash-last_byte sp i, slot_for_hash-last_byte sp j, ap (λ t. t % 256) e)

  module _ (n : ℕ) (sp : StorageSpace) (apart : AreApart n sp) where
    -- Comparing slots is comparing keys.
    pub slots_eq :
        (i j : ℕ) → i < n → j < n → (slot_for_hash J sp i == slot_for_hash J sp j) ≡ (i == j)
    slots_eq i j hi hj = elim (Bool-cases (i == j)) [
      | inl e ↦ rw (eq_true→eq i j e, eq_self j) (eq_self (slot_for_hash J sp j))
      | inr e ↦ rw e (
          ne→eq_false _ _ (λ (p : slot_for_hash J sp i ≡ slot_for_hash J sp j).
            ground (arith, apart i j hi hj p)))
    ]
