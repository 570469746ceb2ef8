-- ===== src/PoolsV2/Normalize/Roundtrip.antt =====
-- Well-formed pools pass through `normalizeCodexModelPoolsV2` unchanged.
use quota_shift.Prelude.{
  ap₂, ◌≢◌, Bool-cases, inl, inr, ℕ, String, ◌≡◌, refl, sym, ◌∙◌, true, false, Option, none, some,
  List, [], ◌∷◌, map, contains, Distinct, Fresh, Fresh-iff, Avoids-nil, All, arith,
}
use quota_shift.Js.{
  elems, Value, str, get, trimmed_text, is_empty, trim, is_object, array_or_empty, texts_of, items,
  elems-items, texts_of-map-str, round_nat-of_nat, at_least-of_nat, is_text, is_true, is_finite,
}
use quota_shift.PoolsV2.{
  CodexModelPool, RoutingPolicy, cache_aware, balanced, priority, AuthMode, siwc, openai_api_key,
  ReasoningEffort, minimal, low, medium, high, xhigh, SelectionMode, manual, discovered,
}
use quota_shift.PoolsV2.Limits.{get_default_model_limits, default_budget_for_effort}
use quota_shift.PoolsV2.Members.{
  IsTrimmedName, deduplicate_strings, deduplicate_strings_of_Distinct,
}
use quota_shift.PoolsV2.Normalize.{
  or_else, text_or, count_of, count_or, count_value, pool_of, skipped, normalize_from,
  normalize_pools, to_value, pools_value, effort_of, effort_value, routing_policy_of, policy_text,
  auth_mode_of, auth_text, selection_mode_of, selection_text, resolve_effort,
}
use quota_shift.PoolsV2.Normalize.Invariant.{IsNormal, HasCount, ids, normalize_pools-IsNormal}

effort_of-effort_value : (e : Option ReasoningEffort) → effort_of (effort_value e) ≡ e
unfolding effort_of effort_value is_text
effort_of-effort_value none = refl
effort_of-effort_value (some minimal) = refl
effort_of-effort_value (some low) = refl
effort_of-effort_value (some medium) = refl
effort_of-effort_value (some high) = refl
effort_of-effort_value (some xhigh) = refl

routing_policy_of-policy_text : (p : RoutingPolicy) → routing_policy_of (str (policy_text p)) ≡ p
unfolding routing_policy_of policy_text is_text
routing_policy_of-policy_text cache_aware = refl
routing_policy_of-policy_text balanced = refl
routing_policy_of-policy_text priority = refl

auth_mode_of-auth_text : (m : AuthMode) → auth_mode_of (str (auth_text m)) ≡ m
unfolding auth_mode_of auth_text is_text
auth_mode_of-auth_text siwc = refl
auth_mode_of-auth_text openai_api_key = refl

selection_mode_of-selection_text :
    (m : SelectionMode) → selection_mode_of (str (selection_text m)) ≡ m
unfolding selection_mode_of selection_text is_text
selection_mode_of-selection_text manual = refl
selection_mode_of-selection_text discovered = refl

count_of-count_value :
    (least : ℕ) (o : Option ℕ) → HasCount least o → count_of (count_value o) least ≡ o
unfolding count_of count_value is_finite
count_of-count_value least none h = absurd h
count_of-count_value least (some n) h = ground (arith, at_least-of_nat n least, round_nat-of_nat n)

restore_count :
    (least fallback : ℕ) (o : Option ℕ)
    → HasCount least o
    → some (count_or (count_of (count_value o) least) fallback) ≡ o
unfolding count_or
restore_count least fallback none h = absurd h
restore_count least fallback (some n) h = rw (count_of-count_value least (some n) h)

restore_effort :
    (e : Option ReasoningEffort)
    → e ≢ none
    → (budget : Option ℕ) (fallback : ReasoningEffort)
    → some (resolve_effort (effort_of (effort_value e)) budget fallback) ≡ e
unfolding resolve_effort
restore_effort none h budget fallback = absurd (h refl)
restore_effort (some e) h budget fallback = rw (effort_of-effort_value (some e))

restore_text : (s t : String) → trim s ≡ s → is_empty s ≡ false → text_or (str s) t ≡ s
unfolding text_or or_else
restore_text s t e f = rw (e, f)

empty_text : (s : String) → is_empty s ≡ true → s ≡ ""
empty_text String.[] h = refl
empty_text (String.◌∷◌ c s) h = cc

restore_upstream :
    (s t : String) → trim s ≡ s → (is_empty s ≡ true → is_empty t ≡ true) → text_or (str s) t ≡ s
restore_upstream s t e f = elim (Bool-cases (is_empty s)) [
  | inl empty ↦
      unfold text_or or_else in rw (e, empty) (empty_text t (f empty) ∙ sym (empty_text s empty))
  | inr full ↦ restore_text s t e full
]

restore_members :
    (xs : List String)
    → All IsTrimmedName xs
    → Distinct xs
    → deduplicate_strings (texts_of (elems (items (map str xs)))) ≡ xs
restore_members xs h d = rw (elems-items, texts_of-map-str) (deduplicate_strings_of_Distinct xs h d)

pool_of-to_value :
    (lower : String → String) (p : CodexModelPool)
    → IsNormal p
    → pool_of lower p.id (to_value p) ≡ p
unfolding pool_of to_value get trimmed_text is_true array_or_empty
pool_of-to_value lower p h =
    let upstream = text_or (str p.upstream_model_id) (trim p.public_model_name) in
    let defaults = get_default_model_limits lower upstream in
    let budget = count_of (count_value p.thinking_budget_tokens) 256 in
    let effort =
      resolve_effort (effort_of (effort_value p.reasoning_effort)) budget
        defaults.reasoning_effort in
    λ i. record {
      id = p.id;
      display_name =
          restore_text p.display_name p.id h.display_name.trimmed h.display_name.filled i;
      public_model_name = h.public_name i;
      upstream_model_id =
          restore_upstream p.upstream_model_id (trim p.public_model_name) h.upstream
            (rw h.public_name h.upstream_given) i;
      enabled = p.enabled;
      member_account_ids = restore_members p.member_account_ids h.members h.members_once i;
      model_selection_mode = selection_mode_of-selection_text p.model_selection_mode i;
      routing_policy = routing_policy_of-policy_text p.routing_policy i;
      auth_mode = auth_mode_of-auth_text p.auth_mode i;
      max_context_window_tokens =
          restore_count 1024 defaults.max_context_window_tokens p.max_context_window_tokens
            h.context i;
      thinking_budget_tokens =
          restore_count 256 (default_budget_for_effort effort) p.thinking_budget_tokens h.budget i;
      reasoning_effort =
          restore_effort p.reasoning_effort h.effort budget defaults.reasoning_effort i;
    }

not_skipped :
    (seen : List String) (p : CodexModelPool)
    → IsNormal p
    → contains seen p.id ≡ false
    → skipped seen (to_value p) ≡ false
unfolding skipped to_value get trimmed_text is_object
not_skipped seen p h new = rw (h.id.trimmed, h.id.filled, new)

id-to_value : (p : CodexModelPool) → IsNormal p → trimmed_text (get (to_value p) "id") ≡ p.id
unfolding to_value get trimmed_text
id-to_value p h = h.id.trimmed

normalize_from-to_value :
    (lower : String → String) (seen : List String) (ps : List CodexModelPool)
    → All IsNormal ps
    → Fresh seen (ids ps)
    → normalize_from lower seen (map to_value ps) ≡ ps
unfolding normalize_from
normalize_from-to_value lower seen [] h d = refl
normalize_from-to_value lower seen (p ∷ ps) h d =
    rw (not_skipped seen p h.0 d.0, id-to_value p h.0)
      (ap₂ (λ q qs. q ∷ qs) (pool_of-to_value lower p h.0)
        (normalize_from-to_value lower (p.id ∷ seen) ps h.1 d.1))

-- Well-formed pools with distinct ids, handed over as JavaScript objects, come back as they are.
pub normalize_pools-pools_value :
    (lower : String → String) (ps : List CodexModelPool)
    → All IsNormal ps
    → Distinct (ids ps)
    → normalize_pools lower (pools_value ps) ≡ ps
normalize_pools-pools_value lower ps h d =
    unfold normalize_pools pools_value array_or_empty in
    rw elems-items
      (normalize_from-to_value lower [] ps h ((Fresh-iff [] (ids ps)).1 (Avoids-nil (ids ps), d)))

-- Normalising what `normalizeCodexModelPoolsV2` returned changes nothing, whatever came in first.
pub normalize_pools_idempotent :
    (lower : String → String) (raw : Value)
    → normalize_pools lower (pools_value (normalize_pools lower raw)) ≡ normalize_pools lower raw
normalize_pools_idempotent lower raw =
    let (normal, distinct) = normalize_pools-IsNormal lower raw in
    normalize_pools-pools_value lower _ normal distinct
