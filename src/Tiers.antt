-- ===== src/Tiers.antt =====
-- The tier summaries of src/utils/codex/codex-tier-summary.ts,
-- src/utils/antigravity/quota/antigravity-tier-summary.ts and src/utils/claude/claude-tier-summary.ts:
-- the counting that the three share. `Record<Tier, number>` is a function of the tier.
pub mod Text
pub mod Counting
pub mod Codex
pub mod Antigravity
pub mod Claude
use quota_shift.Prelude.{ℕ, ◌+◌, Bool, List, [], ◌∷◌, map, filter, length, ltb, if◌then◌else◌}

pub record TierBadgeItem {ℓ} (T : Type ℓ) : Type ℓ where
  pub tier : T
  pub count : ℕ

pub record TierSummary {ℓ} (T : Type ℓ) : Type ℓ where
  pub total : ℕ
  pub counts : T → ℕ
  pub badges : List (TierBadgeItem T)

module _ {ℓ} {T : Type ℓ} (same : T → T → Bool) where
  -- `counts[tier]++`
  unfoldable pub increment : T → (T → ℕ) → T → ℕ
  increment tier counts t = if same tier t then counts t + 1 else counts t

  -- The loop over the accounts, by their tiers.
  unfoldable pub count_from : (T → ℕ) → List T → T → ℕ
  unfolding increment
  count_from counts [] = counts
  count_from counts (tier ∷ tiers) = count_from (increment tier counts) tiers

unfoldable pub badges_of {ℓ} : {T : Type ℓ} → List T → (T → ℕ) → List (TierBadgeItem T)
badges_of tiers counts =
    map (λ t. record { tier = t; count = counts t }) (filter (λ t. ltb 0 (counts t)) tiers)

unfoldable pub summary_of {ℓ} : {T : Type ℓ} → (T → T → Bool) → List T → List T → TierSummary T
unfolding count_from badges_of
summary_of same all_tiers tiers =
    let counts = count_from same (λ _. 0) tiers in
    record { total = length tiers; counts = counts; badges = badges_of all_tiers counts }
