-- ===== src/PoolsV2/Manager.antt =====
-- `useCodexModelPoolsV2` of src/hooks/codex/useCodexModelPoolsV2.ts: the pools that the app holds and
-- what it has saved. The React state is the field `model_pools`; `saved` is the last list given to
-- `saveCodexModelPoolsV2`; a toast is kept as the error that it shows.
pub mod Consistency
use quota_shift.Prelude.{
  ℕ, String, Bool, true, false, ◌&&◌, not, Option, none, some, List, [], ◌∷◌, ◌++◌, map, contains,
  filter, length, if◌then◌else◌, eqb, ltb, any,
}
use quota_shift.PoolsV2.{CodexModelPool, AuthMode, siwc, openai_api_key, KnownAccount}
use quota_shift.PoolsV2.Validate.{PoolError, validate_enabled_pool_names}

pub record Manager : Type 0 where
  pub model_pools : List CodexModelPool
  pub saved : List CodexModelPool
  pub toasts : List PoolError

-- `updateModelPoolsV2`; the flag is its result.
unfoldable pub update_model_pools :
    (String → String) → List KnownAccount → List CodexModelPool → Manager → Manager × Bool
update_model_pools lower accounts next m =
    elim (validate_enabled_pool_names lower (some accounts) next) [
      | some e ↦ (record m { toasts = m.toasts ++ e ∷ [] }, false)
      | none ↦ (record m { model_pools = next; saved = next }, true)
    ]

-- The members of an API-key pool that are still known accounts.
known_members : List KnownAccount → CodexModelPool → List String
known_members accounts pool = filter (contains (map (λ a. a.id) accounts)) pool.member_account_ids

is_siwc : AuthMode → Bool
is_siwc siwc = true
is_siwc openai_api_key = false

-- The mapping of the effect keeps this pool (`return pool`).
keeps_pool : List KnownAccount → CodexModelPool → Bool
keeps_pool accounts pool =
    if is_siwc pool.auth_mode
    then true
    else eqb (length (known_members accounts pool)) (length pool.member_account_ids)

reconcile_pool : List KnownAccount → CodexModelPool → CodexModelPool
reconcile_pool accounts pool =
    let members = known_members accounts pool in
    if keeps_pool accounts pool then pool else record pool {
      member_account_ids = members;
      enabled = pool.enabled && ltb 0 (length members);
    }

-- The effect that runs when the accounts change. Where every pool is kept, state and storage are left
-- alone.
unfoldable pub reconcile_accounts : List KnownAccount → Manager → Manager
unfolding reconcile_pool keeps_pool known_members is_siwc
reconcile_accounts accounts m =
    let next = map (reconcile_pool accounts) m.model_pools in
    if any (λ p. not (keeps_pool accounts p)) m.model_pools
    then record m { model_pools = next; saved = next }
    else m

-- What can happen to the manager: the user edits the pools, or the accounts change.
pub data ManagerEvent : Type 0 where
  update : List CodexModelPool → ManagerEvent
  accounts_changed : List KnownAccount → ManagerEvent

pub record Session : Type 0 where
  pub accounts : List KnownAccount
  pub manager : Manager

-- The hook closes over the accounts of its last render.
unfoldable pub handle : (String → String) → Session → ManagerEvent → Session
handle lower s (update next) = record s {
  manager = (update_model_pools lower s.accounts next s.manager).0;
}
handle lower s (accounts_changed accounts) = record {
  accounts = accounts;
  manager = reconcile_accounts accounts s.manager;
}
