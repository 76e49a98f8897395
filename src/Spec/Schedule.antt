-- ===== src/Spec/Schedule.antt =====
-- The version that the spec of an ArbOS version number has, and its hardfork.
use arb_revm.Base.{arith, if◌then◌else◌, ltb, ℕ, ◌≡◌, ◌≤◌}
use arb_revm.Spec.{
  ArbSpecId, SpecId, arbos_version, into_eth_spec, from_arbos_version, early_version, later_version,
  stylus_version, london, shanghai, cancun, prague, osaka,
}

-- The hardfork of a version number, from the ranges of Nitro's schedule.
abbrev pub eth_spec_of : ℕ → SpecId
eth_spec_of v =
    if ltb v 11
    then london
    else if ltb v 20
    then shanghai
    else if ltb v 40
    then cancun
    else if ltb v 50
    then prague
    else osaka

-- For a version number from 1 on, the spec that is chosen is not after the number, and no spec that
-- is not after the number is later.
pub from_arbos_version-latest :
    (v : ℕ) (spec : ArbSpecId)
    → 1 ≤ v
    → arbos_version spec ≤ v
    → (arbos_version (from_arbos_version v) ≤ v)
      × (arbos_version spec ≤ arbos_version (from_arbos_version v))
unfolding arbos_version from_arbos_version early_version later_version stylus_version
from_arbos_version-latest v spec h low = (ground arith, ground arith)

-- A version number has the hardfork of its range, whether or not a spec has that number.
pub into_eth_spec-from_arbos_version :
    (v : ℕ) → into_eth_spec (from_arbos_version v) ≡ eth_spec_of v
unfolding into_eth_spec arbos_version from_arbos_version early_version later_version stylus_version
into_eth_spec-from_arbos_version v = ground arith
