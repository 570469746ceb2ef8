-- ===== src/Tiers/Claude.antt =====
-- src/utils/claude/claude-tier-summary.ts. `toLowerCase` is a parameter.
use quota_shift.Prelude.{
  String, refl, Bool, true, false, ◌||◌, Option, none, some, List, [], ◌∷◌, map, if◌then◌else◌,
}
use quota_shift.Js.{is_empty, trim}
use quota_shift.Tiers.{TierSummary, summary_of}
use quota_shift.Tiers.Text.{includes}
use quota_shift.Tiers.Counting.{Once, AddsUp, summary-AddsUp}

pub data ClaudeTier : Type 0 where
  free pro max team enterprise other : ClaudeTier

abbrev pub claude_tiers : List ClaudeTier
claude_tiers = free ∷ pro ∷ max ∷ team ∷ enterprise ∷ other ∷ []

-- The fields of a status's account that the summary reads.
pub record ClaudeAccount : Type 0 where
  pub subscription_type : Option String
  pub rate_limit_tier : Option String

unfoldable pub same_tier : ClaudeTier → ClaudeTier → Bool
same_tier free free = true
same_tier pro pro = true
same_tier max max = true
same_tier team team = true
same_tier enterprise enterprise = true
same_tier other other = true
same_tier _ _ = false

module _ (lower : String → String) where
  classify_text : String → ClaudeTier
  classify_text text =
      if is_empty text
      then other
      else if includes text "max"
      then max
      else if includes text "enterprise" || includes text "edu" || includes text "education"
      then enterprise
      else if includes text "team" || includes text "business"
      then team
      else if includes text "pro"
      then pro
      else if includes text "free"
      then free
      else other

  unfoldable pub classify_claude_tier : Option String → ClaudeTier
  unfolding classify_text
  classify_claude_tier none = classify_text ""
  classify_claude_tier (some raw) = classify_text (lower (trim raw))

  unfoldable pub tier_of : ClaudeAccount → ClaudeTier
  tier_of account = elim account.subscription_type [
    | some raw ↦ classify_claude_tier (some raw)
    | none ↦ classify_claude_tier account.rate_limit_tier
  ]

  unfoldable pub compute_claude_tier_summary : List ClaudeAccount → TierSummary ClaudeTier
  compute_claude_tier_summary statuses = summary_of same_tier claude_tiers (map tier_of statuses)

  once : (tier : ClaudeTier) → Once same_tier claude_tiers tier
  unfolding same_tier
  once free = refl
  once pro = refl
  once max = refl
  once team = refl
  once enterprise = refl
  once other = refl

  -- The summary of Claude accounts counts, for each tier, the accounts of that tier; its badges show
  -- positive counts only, and these add up to the total, the number of the accounts.
  pub claude_summary-AddsUp :
      (statuses : List ClaudeAccount)
      → AddsUp same_tier (map tier_of statuses) (compute_claude_tier_summary statuses)
  unfolding compute_claude_tier_summary
  claude_summary-AddsUp statuses = summary-AddsUp same_tier claude_tiers (map tier_of statuses) once
