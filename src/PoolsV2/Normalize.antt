-- ===== src/PoolsV2/Normalize.antt =====
-- `normalizeCodexModelPoolsV2` of src/utils/codex/pools/codex-pools-v2.ts: pools out of values of
-- unknown shape. `lower` stands for `toLowerCase`.
pub mod Invariant
pub mod Roundtrip
use quota_shift.Prelude.{
  ℕ, String, Bool, true, false, not, ◌&&◌, ◌||◌, Option, none, some, List, [], ◌∷◌, map, contains,
  if◌then◌else◌,
}
use quota_shift.Js.{
  Value, undefined, null, bool, num, str, arr, obj, no_fields, field, items, get, is_object,
  is_text, is_true, trimmed_text, array_or_empty, texts_of, is_empty, trim, is_finite, at_least,
  round_nat, of_nat, elems,
}
use quota_shift.PoolsV2.{
  CodexModelPool, RoutingPolicy, cache_aware, balanced, priority, AuthMode, siwc, openai_api_key,
  ReasoningEffort, minimal, low, medium, high, xhigh, SelectionMode, manual, discovered,
}
use quota_shift.PoolsV2.Limits.{
  default_budget_for_effort, effort_for_thinking_budget, get_default_model_limits,
}
use quota_shift.PoolsV2.Members.{deduplicate_strings}

or_else : String → String → String
or_else s t = if is_empty s then t else s

-- `(typeof v === "string" ? v.trim() : fallback) || fallback`
text_or : Value → String → String
unfolding or_else
text_or (str s) fallback = or_else (trim s) fallback
text_or _ fallback = fallback

selection_mode_of : Value → SelectionMode
selection_mode_of v = if is_text v "discovered" then discovered else manual

routing_policy_of : Value → RoutingPolicy
routing_policy_of v =
    if is_text v "balanced"
    then balanced
    else if is_text v "priority"
    then priority
    else cache_aware

auth_mode_of : Value → AuthMode
auth_mode_of v = if is_text v "openai-api-key" then openai_api_key else siwc

-- A finite number of at least `least`, rounded.
count_of : Value → ℕ → Option ℕ
count_of (num x) least = if is_finite x && at_least x least then some (round_nat x) else none
count_of _ least = none

-- `VALID_EFFORTS.has(v)`
effort_of : Value → Option ReasoningEffort
effort_of v =
    if is_text v "minimal"
    then some minimal
    else if is_text v "low"
    then some low
    else if is_text v "medium"
    then some medium
    else if is_text v "high"
    then some high
    else if is_text v "xhigh"
    then some xhigh
    else none

resolve_effort : Option ReasoningEffort → Option ℕ → ReasoningEffort → ReasoningEffort
resolve_effort (some e) budget fallback = e
resolve_effort none (some b) fallback = effort_for_thinking_budget b
resolve_effort none none fallback = fallback

count_or : Option ℕ → ℕ → ℕ
count_or none n = n
count_or (some m) n = m

-- The loop's guard: no object, no id, or an id that was seen.
skipped : List String → Value → Bool
skipped seen item =
    let id = trimmed_text (get item "id") in not (is_object item) || is_empty id || contains seen id

module _ (lower : String → String) where
  -- The body of the loop, past its guard.
  pool_of : String → Value → CodexModelPool
  pool_of id candidate =
      let public_name = trimmed_text (get candidate "publicModelName") in
      let upstream = text_or (get candidate "upstreamModelId") public_name in
      let defaults = get_default_model_limits lower upstream in
      let raw_budget = count_of (get candidate "thinkingBudgetTokens") 256 in
      let effort =
        resolve_effort (effort_of (get candidate "reasoningEffort")) raw_budget
          defaults.reasoning_effort in
      record {
        id = id;
        display_name = text_or (get candidate "displayName") id;
        public_model_name = public_name;
        upstream_model_id = upstream;
        enabled = is_true (get candidate "enabled");
        member_account_ids =
            deduplicate_strings (texts_of (array_or_empty (get candidate "memberAccountIds")));
        model_selection_mode = selection_mode_of (get candidate "modelSelectionMode");
        routing_policy = routing_policy_of (get candidate "routingPolicy");
        auth_mode = auth_mode_of (get candidate "authMode");
        max_context_window_tokens = some (
            count_or (count_of (get candidate "maxContextWindowTokens") 1024)
              defaults.max_context_window_tokens);
        thinking_budget_tokens = some (count_or raw_budget (default_budget_for_effort effort));
        reasoning_effort = some effort;
      }

  normalize_from : List String → List Value → List CodexModelPool
  normalize_from seen [] = []
  normalize_from seen (item ∷ rest) =
      let id = trimmed_text (get item "id") in
      let later = normalize_from seen rest in
      let added = normalize_from (id ∷ seen) rest in
      if skipped seen item then later else pool_of id item ∷ added

  unfoldable pub normalize_pools : Value → List CodexModelPool
  unfolding normalize_from pool_of skipped text_or selection_mode_of routing_policy_of auth_mode_of
      count_of effort_of resolve_effort count_or
  normalize_pools raw = normalize_from [] (array_or_empty raw)

-- A pool as the JavaScript object that it is.
effort_text : ReasoningEffort → String
effort_text minimal = "minimal"
effort_text low = "low"
effort_text medium = "medium"
effort_text high = "high"
effort_text xhigh = "xhigh"

policy_text : RoutingPolicy → String
policy_text cache_aware = "cache-aware"
policy_text balanced = "balanced"
policy_text priority = "priority"

auth_text : AuthMode → String
auth_text siwc = "siwc"
auth_text openai_api_key = "openai-api-key"

selection_text : SelectionMode → String
selection_text manual = "manual"
selection_text discovered = "discovered"

count_value : Option ℕ → Value
count_value none = undefined
count_value (some n) = num (of_nat n)

effort_value : Option ReasoningEffort → Value
unfolding effort_text
effort_value none = undefined
effort_value (some e) = str (effort_text e)

pub to_value : CodexModelPool → Value
to_value p = obj (
    field "id" (str p.id) (
      field "displayName" (str p.display_name) (
        field "publicModelName" (str p.public_model_name) (
          field "upstreamModelId" (str p.upstream_model_id) (
            field "enabled" (bool p.enabled) (
              field "memberAccountIds" (arr (items (map str p.member_account_ids))) (
                field "modelSelectionMode" (str (selection_text p.model_selection_mode)) (
                  field "routingPolicy" (str (policy_text p.routing_policy)) (
                    field "authMode" (str (auth_text p.auth_mode)) (
                      field "maxContextWindowTokens" (count_value p.max_context_window_tokens) (
                        field "thinkingBudgetTokens" (count_value p.thinking_budget_tokens) (
                          field "reasoningEffort" (effort_value p.reasoning_effort)
                            no_fields))))))))))))

unfoldable pub pools_value : List CodexModelPool → Value
unfolding to_value effort_value count_value policy_text auth_text selection_text
pools_value pools = arr (items (map to_value pools))
