-- ===== src/Tiers/Counting.antt =====
-- The counts of a summary add up.
use quota_shift.Prelude.{
  ℕ, ◌+◌, ◌<◌, ◌≡◌, refl, Bool, List, [], ◌∷◌, filter, length, All, if◌then◌else◌, arith, ◌∙◌,
}
use quota_shift.Tiers.{TierBadgeItem, TierSummary, increment, count_from, badges_of, summary_of}

module _ {ℓ} {T : Type ℓ} where
  abbrev pub sum : (T → ℕ) → List T → ℕ
  sum counts [] = 0
  sum counts (t ∷ ts) = counts t + sum counts ts

  abbrev pub badge_sum : List (TierBadgeItem T) → ℕ
  badge_sum [] = 0
  badge_sum (b ∷ bs) = b.count + badge_sum bs

  -- The tier is listed exactly once.
  abbrev pub Once : (T → T → Bool) → List T → T → Type 0
  Once same all_tiers tier = sum (λ t. if same tier t then 1 else 0) all_tiers ≡ 1

  -- Each count is the number of the given tiers that are this one; the badges show positive counts
  -- only, and these add up to the total, the number of the given tiers.
  pub record AddsUp (same : T → T → Bool) (tiers : List T) (s : TierSummary T) : Type ℓ where
    pub exact : (t : T) → s.counts t ≡ length (filter (λ tier. same tier t) tiers)
    pub complete : s.total ≡ length tiers
    pub shown : All (λ (b : TierBadgeItem T). 0 < b.count) s.badges
    pub whole : badge_sum s.badges ≡ s.total

module _ {ℓ} {T : Type ℓ} (same : T → T → Bool) (all_tiers : List T) where
  sum-increment :
      (tier : T) (counts : T → ℕ) (ts : List T)
      → sum (increment same tier counts) ts
        ≡ sum (λ t. if same tier t then 1 else 0) ts + sum counts ts
  unfolding increment
  sum-increment tier counts [] = refl
  sum-increment tier counts (t ∷ ts) = ground (arith, sum-increment tier counts ts)

  sum-count_from :
      (tiers : List T) (counts : T → ℕ)
      → ((tier : T) → Once same all_tiers tier)
      → sum (count_from same counts tiers) all_tiers ≡ length tiers + sum counts all_tiers
  unfolding count_from
  sum-count_from [] counts once = omega arith
  sum-count_from (tier ∷ tiers) counts once = omega (
    arith,
    sum-count_from tiers (increment same tier counts) once,
    sum-increment tier counts all_tiers,
    once tier,
  )

  count_from-filter :
      (tiers : List T) (counts : T → ℕ) (t : T)
      → count_from same counts tiers t ≡ counts t + length (filter (λ tier. same tier t) tiers)
  unfolding count_from increment
  count_from-filter [] counts t = omega arith
  count_from-filter (tier ∷ tiers) counts t =
      ground (arith, count_from-filter tiers (increment same tier counts) t)

  sum-zero : (ts : List T) → sum (λ _. 0) ts ≡ 0
  sum-zero [] = refl
  sum-zero (t ∷ ts) = omega (arith, sum-zero ts)

module _ {ℓ} {T : Type ℓ} where
  badge_sum-badges_of :
      (ts : List T) (counts : T → ℕ) → badge_sum (badges_of ts counts) ≡ sum counts ts
  unfolding badges_of
  badge_sum-badges_of [] counts = refl
  badge_sum-badges_of (t ∷ ts) counts = ground (arith, badge_sum-badges_of ts counts)

  badges_of-positive :
      (ts : List T) (counts : T → ℕ)
      → All (λ (b : TierBadgeItem T). 0 < b.count) (badges_of ts counts)
  unfolding badges_of
  badges_of-positive [] counts = tt
  badges_of-positive (t ∷ ts) counts = ground (arith, badges_of-positive ts counts)

  pub summary-AddsUp :
      (same : T → T → Bool) (all_tiers tiers : List T)
      → ((tier : T) → Once same all_tiers tier)
      → AddsUp same tiers (summary_of same all_tiers tiers)
  unfolding summary_of
  summary-AddsUp same all_tiers tiers once = record {
    exact = λ t. omega (arith, count_from-filter same all_tiers tiers (λ _. 0) t);
    complete = refl;
    shown = badges_of-positive all_tiers (count_from same (λ _. 0) tiers);
    whole =
        badge_sum-badges_of all_tiers (count_from same (λ _. 0) tiers)
        ∙ omega (
          arith,
          sum-count_from same all_tiers tiers (λ _. 0) once,
          sum-zero same all_tiers all_tiers,
        );
  }
