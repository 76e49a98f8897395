-- ===== src/Transactions/Upgrade/Unsupported.antt =====
-- An upgrade past the last version that the program knows does not succeed.
use arb_revm.Base.{Bool, arith, dec_lt, suc, zero, ℕ, ◌+◌, ◌-◌, ◌<◌, ◌≡◌, ◌≢◌}
use arb_revm.Journal.{ArbJournal, M, Result, ok, err, unsupported, ◌>>◌}
use arb_revm.Storage.ArbosState.{ArbosState}
use arb_revm.Transactions.{Platform}
use arb_revm.Transactions.Upgrade.{
  migrate, upgrade_loop, upgrade_arbos_version, install_precompiles_introduced_at, ignore,
}
use arb_revm.Storage.Slot.{set_u64}

module _ (J : ArbJournal) (P : Platform J) (a : ArbosState) (first_time : Bool) where
  open J use {State}

  migrate_unknown :
      (v : ℕ) (s : State) → 61 < v → migrate J P a first_time v s ≡ (err unsupported, s)
  unfolding migrate
  migrate_unknown v s h = ground arith

  -- What follows a step fails if it fails after every step.
  after_fails :
      (m k : M State (Unit {0}))
      → ((s : State) → (k s).0 ≢ ok tt)
      → (s : State) → ((m >> k) s).0 ≢ ok tt
  after_fails m k h s = go (m s)
    where
      go :
          (r : Result (Unit {0}) × State)
          → (elim r.0 as (λ x. Result (Unit {0}) × State) [ ok b ↦ k r.1 | err x ↦ (err x, r.1) ]).0
            ≢ ok tt
      go (ok b, s') e = h s' e
      go (err x, s') e = absurd (ground arith)

  upgrade_loop_fails :
      (rounds v : ℕ) (s : State)
      → 61 < v + rounds
      → 0 < rounds
      → (upgrade_loop J P a first_time rounds v s).0 ≢ ok tt
  unfolding upgrade_loop
  upgrade_loop_fails zero v s h k e = absurd (omega arith)
  upgrade_loop_fails (suc rounds) v s h k e = elim (dec_lt 60 v) [
    | yes last ↦ ground (arith, migrate_unknown (v + 1) s (omega arith))
    | no more ↦
        let install = install_precompiles_introduced_at J P (v + 1) in
        let store = ignore (set_u64 J a.arbos_version (v + 1)) in
        let rest = upgrade_loop J P a first_time rounds (v + 1) in
        after_fails (migrate J P a first_time (v + 1)) (install >> (store >> rest))
          (after_fails install (store >> rest) (
            after_fails store rest
              (λ s'. upgrade_loop_fails rounds (v + 1) s' (omega arith) (omega arith))))
          s e
  ]

  -- Whatever the journal does, an upgrade to a version after 61 from an older one never succeeds.
  pub upgrade_arbos_version_unsupported :
      (current_version target_version : ℕ) (s : State)
      → 61 < target_version
      → current_version < target_version
      → (upgrade_arbos_version J P a current_version target_version first_time s).0 ≢ ok tt
  unfolding upgrade_arbos_version
  upgrade_arbos_version_unsupported current_version target_version s h k =
      upgrade_loop_fails (target_version - current_version) current_version s (omega arith)
        (omega arith)
