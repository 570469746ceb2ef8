-- ===== src/PoolsV2/Mutation.antt =====
-- `applyPoolMutation` of src/utils/codex/pools/codex-pools-v2.ts: changes of the registry under an
-- expected revision.
pub mod Registry
pub mod Toggle
use quota_shift.Prelude.{
  ℕ, ◌+◌, String, Bool, true, false, not, Option, none, some, List, [], ◌∷◌, map, if◌then◌else◌,
  eqb, ◌==◌, find,
}
use quota_shift.Js.{Value}
use quota_shift.PoolsV2.{CodexModelPool, KnownAccount}
use quota_shift.PoolsV2.Normalize.{normalize_pools}
use quota_shift.PoolsV2.Validate.{PoolError, validate_enabled_pool_names}

pub record PoolRegistryState : Type 0 where
  pub revision : ℕ
  pub pools : List CodexModelPool

-- The number is `expectedRevision`; `unsupported` is any other kind, from an untyped caller.
pub data PoolRegistryMutation : Type 0 where
  replace : ℕ → Value → PoolRegistryMutation
  set_enabled : ℕ → String → Bool → PoolRegistryMutation
  unsupported : ℕ → PoolRegistryMutation

abbrev pub expected_revision : PoolRegistryMutation → ℕ
expected_revision (replace r _) = r
expected_revision (set_enabled r _ _) = r
expected_revision (unsupported r) = r

pub data MutationError : Type 0 where
  revision_mismatch : ℕ → ℕ → MutationError
  pool_not_found : String → MutationError
  unsupported_kind : MutationError
  invalid : PoolError → MutationError

pub record PoolMutationResult : Type 0 where
  pub success : Bool
  pub revision : ℕ
  pub pools : List CodexModelPool
  pub error : Option MutationError

pub data Candidate : Type 0 where
  candidate : List CodexModelPool → Candidate
  refuse : MutationError → Candidate

with_enabled : String → Bool → CodexModelPool → CodexModelPool
with_enabled id enabled pool = if pool.id == id then record pool { enabled = enabled } else pool

module _ (lower : String → String) where
  candidate_pools : PoolRegistryState → PoolRegistryMutation → Candidate
  candidate_pools current (replace _ pools) = candidate (normalize_pools lower pools)
  candidate_pools current (set_enabled _ id enabled) =
      elim (find (λ (p : CodexModelPool). p.id == id) current.pools) [
        | none ↦ refuse (pool_not_found id)
        | some _ ↦ candidate (map (with_enabled id enabled) current.pools)
      ]
  candidate_pools current (unsupported _) = refuse unsupported_kind

  failure : PoolRegistryState → MutationError → PoolMutationResult
  failure current e = record {
    success = false;
    revision = current.revision;
    pools = current.pools;
    error = some e;
  }

  commit : Option (List KnownAccount) → PoolRegistryState → Candidate → PoolMutationResult
  unfolding failure
  commit known current (refuse e) = failure current e
  commit known current (candidate pools) = elim (validate_enabled_pool_names lower known pools) [
    | some e ↦ failure current (invalid e)
    | none ↦ record { success = true; revision = current.revision + 1; pools = pools; error = none }
  ]

  unfoldable pub apply_pool_mutation :
      PoolRegistryState → PoolRegistryMutation → Option (List KnownAccount) → PoolMutationResult
  unfolding candidate_pools commit with_enabled
  apply_pool_mutation current mutation known =
      if not (eqb (expected_revision mutation) current.revision)
      then failure current (revision_mismatch (expected_revision mutation) current.revision)
      else commit known current (candidate_pools current mutation)

-- What the owner of the registry keeps after a mutation.
abbrev pub state_after : PoolMutationResult → PoolRegistryState
state_after r = record { revision = r.revision; pools = r.pools }
