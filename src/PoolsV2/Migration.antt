-- ===== src/PoolsV2/Migration.antt =====
-- `migrateCodexPoolsV1` of src/utils/codex/pools/codex-pools-v2-migration.ts.
pub mod Safety
use quota_shift.Prelude.{
  ℕ, String, Bool, true, false, not, ◌&&◌, ◌||◌, Option, none, some, List, [], ◌∷◌, ◌++◌, contains,
  if◌then◌else◌, ◌==◌, is_nil,
}
use quota_shift.Js.{
  Value, get, is_object, is_text, trimmed_text, array_or_empty, texts_of, is_empty, trim,
}
use quota_shift.PoolsV2.{
  CodexModelPool, cache_aware, AuthMode, siwc, openai_api_key, SelectionMode, manual, discovered,
  KnownAccount,
}
use quota_shift.PoolsV2.Members.{deduplicate_strings, infer_auth_mode, InferredMode}

-- A diagnostic carries the name and the id of its pool.
pub data Diagnostic : Type 0 where
  ambiguous_modes : String → String → Diagnostic
  needs_authorization : String → String → Diagnostic

pub record MigrationResult : Type 0 where
  pub pools : List CodexModelPool
  pub diagnostics : List Diagnostic

-- `Boolean(activePoolId && id === activePoolId.trim())`
is_target_active : Option String → String → Bool
is_target_active none id = false
is_target_active (some active) id = not (is_empty active) && id == trim active

needs_siwc : AuthMode → Bool
needs_siwc siwc = true
needs_siwc openai_api_key = false

members_of : Value → List String
members_of raw = deduplicate_strings (texts_of (array_or_empty (get raw "accountIds")))

diagnostics_of : String → String → InferredMode → List Diagnostic
diagnostics_of name id inferred =
    (if inferred.ambiguous then ambiguous_modes name id ∷ [] else [])
    ++ (if needs_siwc inferred.mode then needs_authorization name id ∷ [] else [])

skipped : List String → Value → Bool
skipped seen raw =
    not (is_object raw)
    || is_empty (trimmed_text (get raw "id"))
    || is_empty (trimmed_text (get raw "name"))
    || is_empty (trimmed_text (get raw "model"))
    || contains seen (trimmed_text (get raw "id"))

module _ (active : Option String) (known : Option (List KnownAccount)) where
  migrate_pool : Value → CodexModelPool
  migrate_pool raw =
      let id = trimmed_text (get raw "id") in
      let model = trimmed_text (get raw "model") in
      let account_ids = members_of raw in
      let inferred = infer_auth_mode account_ids known in
      record {
        id = id;
        display_name = trimmed_text (get raw "name");
        public_model_name = model;
        upstream_model_id = model;
        enabled =
            is_target_active active id
            && not inferred.ambiguous
            && not (needs_siwc inferred.mode)
            && not (is_nil account_ids);
        member_account_ids = account_ids;
        model_selection_mode =
            if is_text (get raw "modelSelectionMode") "discovered" then discovered else manual;
        routing_policy = cache_aware;
        auth_mode = inferred.mode;
        max_context_window_tokens = none;
        thinking_budget_tokens = none;
        reasoning_effort = none;
      }

  migrate_from : List String → List Value → MigrationResult
  migrate_from seen [] = record { pools = []; diagnostics = [] }
  migrate_from seen (raw ∷ rest) =
      let later = migrate_from seen rest in
      let id = trimmed_text (get raw "id") in
      let added = migrate_from (id ∷ seen) rest in
      let pool = migrate_pool raw in
      if skipped seen raw then later else record {
        pools = pool ∷ added.pools;
        diagnostics =
            diagnostics_of pool.display_name id (infer_auth_mode (members_of raw) known)
            ++ added.diagnostics;
      }

unfoldable pub migrate_codex_pools_v1 :
    Value → Option String → Option (List KnownAccount) → MigrationResult
unfolding migrate_from migrate_pool skipped diagnostics_of members_of needs_siwc is_target_active
migrate_codex_pools_v1 raw active known = migrate_from active known [] (array_or_empty raw)
