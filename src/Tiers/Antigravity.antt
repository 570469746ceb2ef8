-- ===== src/Tiers/Antigravity.antt =====
-- src/utils/antigravity/quota/antigravity-tier-summary.ts. `toLowerCase` is a parameter.
use quota_shift.Prelude.{
  String, refl, Bool, true, false, ◌||◌, Option, none, some, List, [], ◌∷◌, map, lookup,
  if◌then◌else◌,
}
use quota_shift.Js.{is_empty, trim}
use quota_shift.Tiers.{TierSummary, summary_of}
use quota_shift.Tiers.Text.{includes}
use quota_shift.Tiers.Counting.{Once, AddsUp, summary-AddsUp}

pub data AntigravityTier : Type 0 where
  free plus pro ultra : AntigravityTier

abbrev pub antigravity_tiers : List AntigravityTier
antigravity_tiers = free ∷ plus ∷ pro ∷ ultra ∷ []

-- The fields of `AntigravityAccount` that the summary reads.
pub record AntigravityAccount : Type 0 where
  pub id : String
  pub last_plan : Option String

unfoldable pub same_tier : AntigravityTier → AntigravityTier → Bool
same_tier free free = true
same_tier plus plus = true
same_tier pro pro = true
same_tier ultra ultra = true
same_tier _ _ = false

module _ (lower : String → String) where
  classify_text : String → AntigravityTier
  classify_text text =
      if includes text "ultra"
      then ultra
      else if includes text "pro" || includes text "advanced"
      then pro
      else if includes text "plus"
          || includes text "paid"
          || includes text "standard"
          || includes text "legacy"
      then plus
      else free

  unfoldable pub classify_antigravity_tier : Option String → AntigravityTier
  unfolding classify_text
  classify_antigravity_tier none = free
  classify_antigravity_tier (some raw) =
      if is_empty raw then free else classify_text (trim (lower raw))

  -- A cache entry is its plan tier.
  plan_of : AntigravityAccount → Option (Option String) → Option String
  plan_of account (some (some plan)) = some plan
  plan_of account _ = account.last_plan

  unfoldable pub tier_of : List (String × Option String) → AntigravityAccount → AntigravityTier
  unfolding plan_of
  tier_of usage_cache account =
      classify_antigravity_tier (plan_of account (lookup account.id usage_cache))

  unfoldable pub compute_antigravity_tier_summary :
      List AntigravityAccount → List (String × Option String) → TierSummary AntigravityTier
  compute_antigravity_tier_summary accounts usage_cache =
      summary_of same_tier antigravity_tiers (map (tier_of usage_cache) accounts)

  once : (tier : AntigravityTier) → Once same_tier antigravity_tiers tier
  unfolding same_tier
  once free = refl
  once plus = refl
  once pro = refl
  once ultra = refl

  -- The summary of Antigravity accounts counts, for each tier, the accounts of that tier; its badges
  -- show positive counts only, and these add up to the total, the number of the accounts.
  pub antigravity_summary-AddsUp :
      (accounts : List AntigravityAccount) (usage_cache : List (String × Option String))
      → AddsUp same_tier
          (map (tier_of usage_cache) accounts)
          (compute_antigravity_tier_summary accounts usage_cache)
  unfolding compute_antigravity_tier_summary
  antigravity_summary-AddsUp accounts usage_cache =
      summary-AddsUp same_tier antigravity_tiers (map (tier_of usage_cache) accounts) once
