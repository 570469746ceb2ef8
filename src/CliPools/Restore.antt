-- ===== src/CliPools/Restore.antt =====
-- `mergeRestoredCliPools` of src/utils/cli-pools/restore.ts: definitions from a backup over the local
-- ones.
pub mod Merge
use quota_shift.Prelude.{
  ℕ, String, ◌≡◌, refl, Bool, true, false, ◌&&◌, Option, none, some, List, [], ◌∷◌, map, all,
  length, contains, unique, lookup, insert, lookup-insert, keys, values, if◌then◌else◌, arith, ◌==◌,
  eq_iff, All, Distinct, contains-keys-insert, eq_refl,
}
use quota_shift.Js.{Value}
use quota_shift.CliPools.{CliProvider, agy, codex, CliRotationPool}
use quota_shift.CliPools.Normalize.{normalize_cli_rotation_pools}
use quota_shift.CliPools.Normalize.Invariant.{ids}

-- The ids of the accounts after their own restore, and where each imported id went.
pub record RestoredAccounts : Type 0 where
  pub agy : List String
  pub codex : List String
  pub agy_id_map : List (String × String)
  pub codex_id_map : List (String × String)

pub known_ids : RestoredAccounts → CliProvider → List String
known_ids accounts CliProvider.agy = accounts.agy
known_ids accounts CliProvider.codex = accounts.codex

id_map : RestoredAccounts → CliProvider → List (String × String)
id_map accounts CliProvider.agy = accounts.agy_id_map
id_map accounts CliProvider.codex = accounts.codex_id_map

-- `idMap.get(id) ?? id`
mapped : List (String × String) → String → String
mapped m id = elim (lookup id m) [ none ↦ id | some new_id ↦ new_id ]

unfoldable pub restored_pool : RestoredAccounts → CliRotationPool → CliRotationPool
unfolding mapped id_map known_ids
restored_pool accounts pool =
    let account_ids = unique (map (mapped (id_map accounts pool.provider)) pool.account_ids) in
    record pool {
      account_ids = account_ids;
      auto_switch = false;
      enabled = pool.enabled && all (contains (known_ids accounts pool.provider)) account_ids;
    }

by_id : List CliRotationPool → List (String × CliRotationPool) → List (String × CliRotationPool)
by_id [] m = m
by_id (p ∷ ps) m = by_id ps (insert p.id p m)

merge_from :
    RestoredAccounts
    → List CliRotationPool
    → List (String × CliRotationPool)
    → List (String × CliRotationPool)
merge_from accounts [] m = m
merge_from accounts (p ∷ ps) m = merge_from accounts ps (insert p.id (restored_pool accounts p) m)

pub record Merged : Type 0 where
  pub pools : List CliRotationPool
  pub imported_count : ℕ

-- `poolsById` after the loop
pub merged_map :
    (String → String)
    → Value
    → List CliRotationPool
    → RestoredAccounts
    → List (String × CliRotationPool)
unfolding by_id merge_from restored_pool mapped id_map known_ids
merged_map lower imported current accounts =
    merge_from accounts (normalize_cli_rotation_pools lower imported none) (by_id current [])

pub merge_restored_cli_pools :
    (String → String) → Value → List CliRotationPool → RestoredAccounts → Merged
unfolding merged_map
merge_restored_cli_pools lower imported current accounts = record {
  pools = values (merged_map lower imported current accounts);
  imported_count = length (normalize_cli_rotation_pools lower imported none);
}
