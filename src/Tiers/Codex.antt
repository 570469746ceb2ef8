-- ===== src/Tiers/Codex.antt =====
-- src/utils/codex/codex-tier-summary.ts. `toLowerCase` and base64 decoding (`atob`, then `TextDecoder`,
-- as `deobfuscate` of src/utils/auth/auth.ts calls them; `none` where they throw) are parameters.
use text.Mathlib.Text.{starts_with}
use quota_shift.Prelude.{
  String, refl, Bool, true, false, ◌||◌, Option, none, some, List, [], ◌∷◌, map, lookup,
  if◌then◌else◌,
}
use quota_shift.Js.{is_empty, trim}
use quota_shift.Tiers.{TierSummary, summary_of}
use quota_shift.Tiers.Text.{includes, has_word}
use quota_shift.Tiers.Counting.{Once, AddsUp, summary-AddsUp}

pub data CodexTier : Type 0 where
  free go plus pro business enterprise edu api : CodexTier

abbrev pub codex_tiers : List CodexTier
codex_tiers = free ∷ go ∷ plus ∷ pro ∷ business ∷ enterprise ∷ edu ∷ api ∷ []

-- The fields of `CodexAccount` that the summary reads.
pub record CodexAccount : Type 0 where
  pub id : String
  pub api_key : String
  pub last_plan : Option String

pub record CodexCacheEntry : Type 0 where
  pub is_oauth : Option Bool
  pub plan_name : Option String

unfoldable pub same_tier : CodexTier → CodexTier → Bool
same_tier free free = true
same_tier go go = true
same_tier plus plus = true
same_tier pro pro = true
same_tier business business = true
same_tier enterprise enterprise = true
same_tier edu edu = true
same_tier api api = true
same_tier _ _ = false

module _ (lower : String → String) (decode : String → Option String) where
  deobfuscate : String → String
  deobfuscate value = elim (decode value) [ none ↦ value | some text ↦ text ]

  saved_oauth : Option CodexCacheEntry → Option Bool
  saved_oauth none = none
  saved_oauth (some entry) = entry.is_oauth

  unfoldable pub is_codex_account_oauth : CodexAccount → Option CodexCacheEntry → Bool
  unfolding deobfuscate saved_oauth
  is_codex_account_oauth account entry = elim (saved_oauth entry) [
    | some b ↦ b
    | none ↦
        if is_empty account.api_key then false else starts_with (deobfuscate account.api_key) "{"
  ]

  classify_text : String → CodexTier → CodexTier
  classify_text text otherwise =
      if includes text "pay" || includes text "api" || includes text "usage" || includes text "tier"
      then api
      else if includes text "business" || includes text "team"
      then business
      else if includes text "enterprise"
      then enterprise
      else if includes text "education" || has_word text "edu"
      then edu
      else if includes text "pro"
      then pro
      else if includes text "plus"
      then plus
      else if has_word text "go"
      then go
      else if includes text "free"
      then free
      else otherwise

  fallback_tier : Option Bool → CodexTier
  fallback_tier (some false) = api
  fallback_tier _ = free

  unfoldable pub classify_codex_tier : Option String → Option Bool → CodexTier
  unfolding classify_text fallback_tier
  classify_codex_tier none is_oauth = fallback_tier is_oauth
  classify_codex_tier (some raw) is_oauth =
      if is_empty raw
      then fallback_tier is_oauth
      else classify_text (trim (lower raw)) (fallback_tier is_oauth)

  plan_of : CodexAccount → Option CodexCacheEntry → Option String
  plan_of account none = account.last_plan
  plan_of account (some entry) = elim entry.plan_name [ none ↦ account.last_plan | some p ↦ some p ]

  unfoldable pub tier_of : List (String × CodexCacheEntry) → CodexAccount → CodexTier
  unfolding plan_of
  tier_of usage_cache account =
      let entry = lookup account.id usage_cache in
      classify_codex_tier (plan_of account entry) (some (is_codex_account_oauth account entry))

  unfoldable pub compute_codex_tier_summary :
      List CodexAccount → List (String × CodexCacheEntry) → TierSummary CodexTier
  compute_codex_tier_summary accounts usage_cache =
      summary_of same_tier codex_tiers (map (tier_of usage_cache) accounts)

  once : (tier : CodexTier) → Once same_tier codex_tiers tier
  unfolding same_tier
  once free = refl
  once go = refl
  once plus = refl
  once pro = refl
  once business = refl
  once enterprise = refl
  once edu = refl
  once api = refl

  -- The summary of Codex accounts counts, for each tier, the accounts of that tier; its badges show
  -- positive counts only, and these add up to the total, the number of the accounts.
  pub codex_summary-AddsUp :
      (accounts : List CodexAccount) (usage_cache : List (String × CodexCacheEntry))
      → AddsUp same_tier
          (map (tier_of usage_cache) accounts)
          (compute_codex_tier_summary accounts usage_cache)
  unfolding compute_codex_tier_summary
  codex_summary-AddsUp accounts usage_cache =
      summary-AddsUp same_tier codex_tiers (map (tier_of usage_cache) accounts) once
