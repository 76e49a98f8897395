-- ===== src/Spec.antt =====
-- `ArbSpecId` of crates/arb-revm/src/spec.rs: which rules an ArbOS version has.
pub mod Schedule
use arb_revm.Base.{Bool, if◌then◌else◌, leb, ltb, ℕ, ◌==◌}

-- The variants in the source's order; revm's `SpecId` is known by the hardforks that are used.
pub data ArbSpecId : Type 0 where
  arbos_1 arbos_2 arbos_3 arbos_4 arbos_5 arbos_6 arbos_7 arbos_8 arbos_9 arbos_10 : ArbSpecId
  arbos_11 arbos_20 arbos_30 arbos_31 arbos_32 arbos_40 arbos_41 : ArbSpecId
  arbos_50 arbos_51 arbos_60 arbos_61 : ArbSpecId

pub data SpecId : Type 0 where
  london shanghai cancun prague osaka : SpecId

unfoldable pub arbos_version : ArbSpecId → ℕ
arbos_version arbos_1 = 1
arbos_version arbos_2 = 2
arbos_version arbos_3 = 3
arbos_version arbos_4 = 4
arbos_version arbos_5 = 5
arbos_version arbos_6 = 6
arbos_version arbos_7 = 7
arbos_version arbos_8 = 8
arbos_version arbos_9 = 9
arbos_version arbos_10 = 10
arbos_version arbos_11 = 11
arbos_version arbos_20 = 20
arbos_version arbos_30 = 30
arbos_version arbos_31 = 31
arbos_version arbos_32 = 32
arbos_version arbos_40 = 40
arbos_version arbos_41 = 41
arbos_version arbos_50 = 50
arbos_version arbos_51 = 51
arbos_version arbos_60 = 60
arbos_version arbos_61 = 61

unfoldable pub into_eth_spec : ArbSpecId → SpecId
into_eth_spec spec =
    let v = arbos_version spec in
    if leb 50 v
    then osaka
    else if leb 40 v
    then prague
    else if leb 20 v
    then cancun
    else if leb 11 v
    then shanghai
    else london

-- The arms of the match that give one version each, from 30 and from 40 on.
unfoldable pub stylus_version : ℕ → ArbSpecId
stylus_version version =
    if version == 30 then arbos_30 else if version == 31 then arbos_31 else arbos_32

unfoldable pub later_version : ℕ → ArbSpecId
later_version version =
    if version == 40
    then arbos_40
    else if ltb version 50
    then arbos_41
    else if version == 50
    then arbos_50
    else if ltb version 60
    then arbos_51
    else if version == 60
    then arbos_60
    else arbos_61

unfoldable pub early_version : ℕ → ArbSpecId
early_version version =
    if leb version 1
    then arbos_1
    else if version == 2
    then arbos_2
    else if version == 3
    then arbos_3
    else if version == 4
    then arbos_4
    else if version == 5
    then arbos_5
    else if version == 6
    then arbos_6
    else if version == 7
    then arbos_7
    else if version == 8
    then arbos_8
    else if version == 9
    then arbos_9
    else arbos_10

unfoldable pub from_arbos_version : ℕ → ArbSpecId
from_arbos_version version =
    if leb version 10
    then early_version version
    else if ltb version 20
    then arbos_11
    else if ltb version 30
    then arbos_20
    else if ltb version 40
    then stylus_version version
    else later_version version

unfoldable pub is_enabled_in : ArbSpecId → ArbSpecId → Bool
is_enabled_in spec other = leb (arbos_version other) (arbos_version spec)
