-- ===== src/Examples/PoolsV2.antt =====
-- Registries of model pools at concrete inputs.
use quota_shift.Prelude.{
  ◌+◌, ◌≤◌, String, ◌≡◌, refl, true, false, none, some, List, [], ◌∷◌, contains, All, Distinct,
  length, lookup, ◌↔◌, subst, unique,
}
use quota_shift.Js.{
  Value, bool, num, str, arr, obj, no_items, element, no_fields, field, ratio, get, is_object,
  trimmed_text, array_or_empty, texts_of, is_true, is_text, trim, is_finite, at_least, round_nat,
}
use quota_shift.PoolsV2.{CodexModelPool, KnownAccount, cache_aware, openai_api_key, high, manual}
use quota_shift.PoolsV2.Limits.{get_default_model_limits, effort_for_thinking_budget}
use quota_shift.PoolsV2.Members.{infer_auth_mode, deduplicate_strings}
use quota_shift.PoolsV2.Normalize.{normalize_pools, pools_value}
use quota_shift.PoolsV2.Normalize.Invariant.{normalize_pools-IsNormal, IsNormal, ids}
use quota_shift.PoolsV2.Normalize.Roundtrip.{normalize_pools-pools_value}
use quota_shift.PoolsV2.Validate.{matches_alias, validate_enabled_pool_names}
use quota_shift.PoolsV2.Validate.Spec.{IsAccepted, validate_iff}
use quota_shift.PoolsV2.Mutation.{
  PoolRegistryState, PoolRegistryMutation, replace, set_enabled, apply_pool_mutation, state_after,
  revision_mismatch,
}
use quota_shift.PoolsV2.Mutation.Registry.{
  IsAtomic, apply-IsAtomic, second_writer_fails, run_mutations, run_mutations-IsAccepted,
}
use quota_shift.PoolsV2.Mutation.Toggle.{disable-success}
use quota_shift.PoolsV2.Migration.{migrate_codex_pools_v1}
use quota_shift.PoolsV2.Migration.Safety.{IsRoutable, enabled_pools, migrate-IsRoutable}
use quota_shift.PoolsV2.Manager.{
  Session, handle, update, accounts_changed, update_model_pools, reconcile_accounts,
}
use quota_shift.PoolsV2.Manager.Consistency.{IsConsistent, here, next, Reach-IsConsistent}

-- The inputs are in lower case already.
abbrev lower : String → String
lower s = s

abbrev candidate : Value
candidate = obj (
    field "id" (str " p1 ") (
      field "publicModelName" (str "fast/gpt") (
        field "upstreamModelId" (str "gpt-4.1-mini") (
          field "enabled" (bool true) (
            field "memberAccountIds"
              (arr
                (element (str "a") (element (str " a") (element (num (ratio false 1 0)) no_items))))
              (field "authMode" (str "openai-api-key")
                (field "thinkingBudgetTokens" (num (ratio false 33001 1)) no_fields)))))))

abbrev fast : CodexModelPool
fast = record {
  id = "p1";
  display_name = "p1";
  public_model_name = "fast/gpt";
  upstream_model_id = "gpt-4.1-mini";
  enabled = true;
  member_account_ids = "a" ∷ [];
  model_selection_mode = manual;
  routing_policy = cache_aware;
  auth_mode = openai_api_key;
  max_context_window_tokens = some 1000000;
  thinking_budget_tokens = some 16501;
  reasoning_effort = some high;
}

normalize_run :
    normalize_pools lower (arr (element candidate (element candidate no_items))) ≡ fast ∷ []
unfolding normalize_pools get trimmed_text is_object array_or_empty texts_of is_true is_text trim
    is_finite at_least round_nat get_default_model_limits effort_for_thinking_budget
    deduplicate_strings contains
normalize_run = refl

abbrev known : List KnownAccount
known =
    record { id = "a"; auth_mode = some "apiKey" }
    ∷ record { id = "b"; auth_mode = some "siwc" }
    ∷ []

abbrev registry : PoolRegistryState
registry = record { revision = 7; pools = fast ∷ [] }

fast-accepted : validate_enabled_pool_names lower (some known) (fast ∷ []) ≡ none
unfolding validate_enabled_pool_names matches_alias contains lookup
fast-accepted = refl

fast-IsAccepted : IsAccepted lower (some known) (fast ∷ [])
fast-IsAccepted = (validate_iff lower (some known) (fast ∷ [])).0 fast-accepted

disabled :
    (apply_pool_mutation lower registry (set_enabled 7 "p1" false) (some known)).success ≡ true
unfolding apply_pool_mutation validate_enabled_pool_names matches_alias contains lookup
disabled = refl

validate_iff_example :
    (validate_enabled_pool_names lower (some known) (fast ∷ fast ∷ []) ≡ none)
    ↔ IsAccepted lower (some known) (fast ∷ fast ∷ [])
validate_iff_example = validate_iff lower (some known) (fast ∷ fast ∷ [])

apply-IsAtomic_example :
    IsAtomic lower (some known) registry (
      apply_pool_mutation lower registry
        (replace 7 (arr (element candidate no_items)))
        (some known))
apply-IsAtomic_example =
    apply-IsAtomic lower (some known) registry (replace 7 (arr (element candidate no_items)))

second_writer_fails_example :
    (let t =
        state_after (apply_pool_mutation lower registry (set_enabled 7 "p1" false) (some known)) in
      let r = apply_pool_mutation lower t (set_enabled 7 "p1" true) (some known) in
      (r.success ≡ false) × (state_after r ≡ t) × (r.error ≡ some (revision_mismatch 7 t.revision)))
second_writer_fails_example =
    second_writer_fails lower (some known) registry (set_enabled 7 "p1" false)
      (set_enabled 7 "p1" true) refl disabled

abbrev edits : List PoolRegistryMutation
edits =
    set_enabled 7 "p1" false
    ∷ replace 8 (arr (element candidate no_items))
    ∷ set_enabled 3 "p1" true
    ∷ []

run_mutations-IsAccepted_example :
    (let t = run_mutations lower (some known) registry edits in
      IsAccepted lower (some known) t.pools × (7 ≤ t.revision) × (t.revision ≤ 7 + length edits))
run_mutations-IsAccepted_example =
    run_mutations-IsAccepted lower (some known) registry edits fast-IsAccepted

disable-success_example :
    (apply_pool_mutation lower registry (set_enabled 7 "p1" false) (some known)).success ≡ true
unfolding contains
disable-success_example = disable-success lower (some known) registry "p1" fast-IsAccepted refl

normalize_pools-IsNormal_example :
    All IsNormal (normalize_pools lower (arr (element candidate (element candidate no_items))))
    × Distinct (ids (normalize_pools lower (arr (element candidate (element candidate no_items)))))
normalize_pools-IsNormal_example =
    normalize_pools-IsNormal lower (arr (element candidate (element candidate no_items)))

normal : All IsNormal (fast ∷ []) × Distinct (ids (fast ∷ []))
normal =
    subst (λ ps. All IsNormal ps × Distinct (ids ps)) normalize_run normalize_pools-IsNormal_example

normalize_pools-pools_value_example : normalize_pools lower (pools_value (fast ∷ [])) ≡ fast ∷ []
normalize_pools-pools_value_example =
    normalize_pools-pools_value lower (fast ∷ []) normal.0 normal.1

abbrev session : Session
session = record {
  accounts = known;
  manager = record { model_pools = fast ∷ []; saved = fast ∷ []; toasts = [] };
}

abbrev session_events : Session
session_events =
    handle lower (handle lower session (update (fast ∷ fast ∷ []))) (accounts_changed [])

Reach-IsConsistent_example : IsConsistent lower session_events
Reach-IsConsistent_example =
    Reach-IsConsistent {lower = lower} {s = session}
      (record { accepted = fast-IsAccepted; stored = refl })
      (next (next here (update (fast ∷ fast ∷ []))) (accounts_changed []))

-- Losing its last member switches a pool off.
member_lost :
    session_events.manager.model_pools
    ≡ record fast { enabled = false; member_account_ids = [] } ∷ []
unfolding handle update_model_pools reconcile_accounts validate_enabled_pool_names matches_alias
    contains lookup
member_lost = refl

abbrev old_pool : Value
old_pool = obj (
    field "id" (str "p1") (
      field "name" (str "Fast") (
        field "model" (str "gpt-5")
          (field "accountIds" (arr (element (str "a") no_items)) no_fields))))

abbrev old_pools : Value
old_pools = arr (element old_pool (element old_pool no_items))

migrate-IsRoutable_example :
    All
      (IsRoutable (some "p1 ") (some known))
      (enabled_pools (migrate_codex_pools_v1 old_pools (some "p1 ") (some known)).pools)
migrate-IsRoutable_example = migrate-IsRoutable old_pools (some "p1 ") (some known)

migrated :
    length (enabled_pools (migrate_codex_pools_v1 old_pools (some "p1 ") (some known)).pools) ≡ 1
unfolding migrate_codex_pools_v1 get trimmed_text is_object array_or_empty texts_of is_text trim
    deduplicate_strings contains infer_auth_mode unique
migrated = refl
