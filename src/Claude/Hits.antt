-- ===== src/Claude/Hits.antt =====
-- Guardrails that are hit and the polling interval (src/utils/claude/guardrails).
use quota_shift.Prelude.{
  ℕ, ◌≤◌, ◌≡◌, refl, ap, sym, ◌∙◌, subst, Bool, true, false, not, ◌&&◌, ◌||◌, Option, none, some,
  List, [], ◌∷◌, filter, any, is_nil, if_holds, if_true_holds, if_false_holds, Bool-cases, inl, inr,
  arith,
}
use quota_shift.Claude.Preferences.{ClaudePreferences, WindowPreference}
use quota_shift.Claude.Doubles.{Doubles, IsOrdered}
use quota_shift.Claude.Guardrails.{
  Usage, missing, not_a_number, used, UsageStatus, has_error, window_hit,
  claude_account_guardrail_decision, statuses_for_guardrail_polling, known_multiplier,
  window_multiplier, lower, five_hour_multiplier, weekly_multiplier, lowest_multiplier,
  finite_or_one, guardrails_active, claude_adaptive_poll_multiplier, is_reduced,
  claude_adaptive_poll_interval_secs,
}
use quota_shift.Claude.Adaptive.{
  one, Above, AboveOne, lowest-AboveOne, lower-below, secs_from, usual_secs, interval-secs_from,
}

module _ {ℓ} {D : Type ℓ} (d : Doubles D) (laws : IsOrdered d) where
  -- A multiplier is not above one.
  abbrev BelowOne : Option D → Type 0
  BelowOne none = Unit
  BelowOne (some x) = Above d laws (one d laws) x

  lowest-BelowOne :
      (p : ClaudePreferences) (statuses : List (UsageStatus D)) (m : D)
      → Above d laws (one d laws) m
      → BelowOne (lowest_multiplier d p statuses m)
  unfolding lowest_multiplier
  lowest-BelowOne p [] m h = h
  lowest-BelowOne p (status ∷ rest) m h =
      let five =
        laws.at_least_trans (one d laws) m _ h
          (lower-below d laws (five_hour_multiplier d status p) m) in
      let week =
        laws.at_least_trans (one d laws) _ _ five
          (lower-below d laws (weekly_multiplier d status p) _) in
      if_holds BelowOne (not status.usage_fresh || has_error status.error) tt
        (lowest-BelowOne p rest _ week)

  -- A window that is hit asks for the base rate.
  known-one :
      (usage : D) (threshold margin : ℕ)
      → Above d laws usage (d.of_nat threshold)
      → known_multiplier d usage (d.of_nat threshold) (d.of_nat margin) ≡ one d laws
  unfolding known_multiplier
  known-one usage threshold margin h =
      if_true_holds (λ x. x ≡ one d laws) _ _ _
        (laws.max_least (d.of_nat 0) _ usage
          (laws.at_least_trans usage _ _ h (laws.of_nat_mono 0 threshold (omega arith)))
          (laws.at_least_trans usage _ _ h (laws.sub_below (d.of_nat threshold) margin)))
        refl

  hit-multiplier :
      (w : WindowPreference) (usage : Usage D) (margin : ℕ)
      → window_hit d w usage ≡ true
      → window_multiplier d w.enabled usage (d.of_nat w.threshold_pct) (d.of_nat margin)
        ≡ some (one d laws)
  unfolding window_hit window_multiplier known_multiplier
  hit-multiplier w missing margin h = cc
  hit-multiplier w not_a_number margin h = cc
  hit-multiplier w (used usage) margin h =
      let above : Above d laws usage (d.of_nat w.threshold_pct) = ground (arith, h) in
      let known = known-one usage w.threshold_pct margin above in ground (arith, h, known)

  -- The status of an account whose guardrails are hit is watched, fresh and without error.
  abbrev pub is_hit : ClaudePreferences → UsageStatus D → Bool
  is_hit p status = (claude_account_guardrail_decision d status p).hit

  hit-parts :
      (p : ClaudePreferences) (status : UsageStatus D)
      → is_hit p status ≡ true
      → ((p.only_watch_processing && not status.active) ≡ false)
        × ((not status.usage_fresh || has_error status.error) ≡ false)
        × ((window_hit d p.five_hour status.five_hour_used
              || window_hit d p.weekly status.seven_day_used)
            ≡ true)
  unfolding claude_account_guardrail_decision
  hit-parts p status h = ground (arith, h)

  five_hour-hit :
      (p : ClaudePreferences) (status : UsageStatus D)
      → window_hit d p.five_hour status.five_hour_used ≡ true
      → five_hour_multiplier d status p ≡ some (one d laws)
  unfolding five_hour_multiplier
  five_hour-hit p status h = hit-multiplier p.five_hour status.five_hour_used 10 h

  weekly-hit :
      (p : ClaudePreferences) (status : UsageStatus D)
      → window_hit d p.weekly status.seven_day_used ≡ true
      → weekly_multiplier d status p ≡ some (one d laws)
  unfolding weekly_multiplier
  weekly-hit p status h = hit-multiplier p.weekly status.seven_day_used 3 h

  lower-one : (m : D) → Above d laws (one d laws) (lower d (some (one d laws)) m)
  unfolding lower
  lower-one m = laws.min_right m (one d laws)

  any-active :
      (p : ClaudePreferences) (statuses : List (UsageStatus D))
      → p.only_watch_processing ≡ true
      → any (is_hit p) statuses ≡ true
      → any (is_hit p) (filter (λ status. status.active) statuses) ≡ true
  any-active p [] e h = cc
  any-active p (status ∷ rest) e h = elim (Bool-cases (is_hit p status)) [
    | inl f ↦
        (let parts = hit-parts p status f in
          let active : status.active ≡ true = ground (arith, parts, e) in ground (arith, active, f))
    | inr f ↦ ground (arith, any-active p rest e, h, f)
  ]

  lowest-hit :
      (p : ClaudePreferences) (statuses : List (UsageStatus D)) (m : D)
      → any (is_hit p) statuses ≡ true
      → BelowOne (lowest_multiplier d p statuses m)
  unfolding lowest_multiplier
  lowest-hit p [] m h = cc
  lowest-hit p (status ∷ rest) m h = elim (Bool-cases (is_hit p status)) [
    | inl e ↦
        (let parts = hit-parts p status e in
          let m₁ = lower d (five_hour_multiplier d status p) m in
          let m₂ = lower d (weekly_multiplier d status p) m₁ in
          let below : Above d laws (one d laws) m₂ =
            elim (Bool-cases (window_hit d p.five_hour status.five_hour_used)) [
              | inl five ↦
                  laws.at_least_trans (one d laws) m₁ m₂
                    (subst (λ x. Above d laws (one d laws) (lower d x m))
                      (sym (five_hour-hit p status five)) (lower-one m))
                    (lower-below d laws (weekly_multiplier d status p) m₁)
              | inr none_five ↦
                  subst (λ x. Above d laws (one d laws) (lower d x m₁))
                    (sym (weekly-hit p status (ground (arith, parts, none_five)))) (lower-one m₁)
            ] in
          if_holds BelowOne (not status.usage_fresh || has_error status.error) tt
            (lowest-BelowOne p rest m₂ below))
    | inr e ↦
        if_holds BelowOne (not status.usage_fresh || has_error status.error) tt
          (lowest-hit p rest _ (ground (arith, h, e)))
  ]

  -- Hit accounts are among the watched ones.
  any-watched :
      (p : ClaudePreferences) (statuses : List (UsageStatus D))
      → any (is_hit p) statuses ≡ true
      → any (is_hit p) (statuses_for_guardrail_polling d statuses p) ≡ true
  unfolding statuses_for_guardrail_polling
  any-watched p statuses h = elim (Bool-cases p.only_watch_processing) [
    | inr e ↦ if_false_holds (λ xs. any (is_hit p) xs ≡ true) p.only_watch_processing _ _ e h
    | inl e ↦
        if_true_holds (λ xs. any (is_hit p) xs ≡ true) p.only_watch_processing _ _ e
          (any-active p statuses e h)
  ]

  window_hit-enabled :
      (w : WindowPreference) (usage : Usage D) → window_hit d w usage ≡ true → w.enabled ≡ true
  unfolding window_hit
  window_hit-enabled w missing h = cc
  window_hit-enabled w not_a_number h = cc
  window_hit-enabled w (used usage) h = ground (arith, h)

  any-is_nil :
      (q : UsageStatus D → Bool) (xs : List (UsageStatus D)) → any q xs ≡ true → is_nil xs ≡ false
  any-is_nil q [] h = cc
  any-is_nil q (x ∷ xs) h = refl

  hit-active :
      (p : ClaudePreferences) (statuses : List (UsageStatus D))
      → any (is_hit p) statuses ≡ true
      → guardrails_active d p ≡ true
  unfolding guardrails_active
  hit-active p [] h = cc
  hit-active p (status ∷ rest) h = elim (Bool-cases (is_hit p status)) [
    | inl e ↦ ground (
      arith,
      hit-parts p status e,
      window_hit-enabled p.five_hour status.five_hour_used,
      window_hit-enabled p.weekly status.seven_day_used,
    )
    | inr e ↦ hit-active p rest (ground (arith, h, e))
  ]

  finite_or_one-one :
      (x : Option D) → BelowOne x → AboveOne d laws x → finite_or_one d x ≡ one d laws
  unfolding finite_or_one
  finite_or_one-one none h k = refl
  finite_or_one-one (some x) h k =
      if_holds (λ y. y ≡ one d laws) (d.is_finite x) (laws.at_least_antisym x 1 (omega arith) k h)
        refl

  hit-multiplier_one :
      (p : ClaudePreferences) (statuses : List (UsageStatus D))
      → any (is_hit p) statuses ≡ true
      → claude_adaptive_poll_multiplier d statuses p ≡ one d laws
  unfolding claude_adaptive_poll_multiplier
  hit-multiplier_one p statuses h =
      let watched = statuses_for_guardrail_polling d statuses p in
      let hit_watched = any-watched p statuses h in
      if_false_holds (λ x. x ≡ one d laws) (not (guardrails_active d p)) _ _
        (ap not (hit-active p statuses h))
        (if_false_holds (λ x. x ≡ one d laws) (is_nil watched) _ _
          (any-is_nil (is_hit p) watched hit_watched)
          (finite_or_one-one _ (lowest-hit p watched d.infinity hit_watched)
            (lowest-AboveOne d laws p watched d.infinity (laws.infinity_above (one d laws)))))

  not_reduced :
      (p : ClaudePreferences) (statuses : List (UsageStatus D))
      → any (is_hit p) statuses ≡ true
      → is_reduced d statuses p (claude_adaptive_poll_multiplier d statuses p) ≡ false
  unfolding is_reduced
  not_reduced p statuses h =
      let m =
        ap (d.at_least (one d laws)) (hit-multiplier_one p statuses h)
        ∙ laws.at_least_refl (one d laws) in
      let active = hit-active p statuses h in ground (arith, m, active)

  usual_secs-one :
      (n : ℕ) → 1 ≤ n → n ≤ 1200 → usual_secs d laws (d.of_nat n) (one d laws) ≡ d.of_nat n
  unfolding usual_secs
  usual_secs-one n low high =
      let x = d.of_nat n in
      let rounded = ap d.round (laws.mul_one n) ∙ laws.round_whole n in
      let same = laws.at_least_refl x in
      let larger =
        laws.at_least_antisym (d.max x x) n low (laws.max_left x x)
          (laws.max_least x x x same same) in
      ap (λ y. d.min (d.of_nat 1200) (d.max x y)) rounded
      ∙ (ap (d.min (d.of_nat 1200)) larger
          ∙ laws.at_least_antisym (d.min (d.of_nat 1200) x) n low
              (laws.min_greatest (d.of_nat 1200) x x (laws.of_nat_mono n 1200 high) same)
              (laws.min_right (d.of_nat 1200) x))

  -- For a base of 5 to 1200 seconds: where some account of the list has its guardrails hit, the accounts are
  -- polled at the base rate.
  pub hit-base_rate :
      (n : ℕ) (statuses : List (UsageStatus D)) (p : ClaudePreferences)
      → 5 ≤ n
      → n ≤ 1200
      → any (is_hit p) statuses ≡ true
      → claude_adaptive_poll_interval_secs d (d.of_nat n) statuses p ≡ d.of_nat n
  unfolding secs_from
  hit-base_rate n statuses p low high h =
      let m = hit-multiplier_one p statuses h in
      interval-secs_from d laws n statuses p low
      ∙ (if_false_holds
            (λ x. x ≡ usual_secs d laws (d.of_nat n) (claude_adaptive_poll_multiplier d statuses p))
            (is_reduced d statuses p (claude_adaptive_poll_multiplier d statuses p)) _ _
            (not_reduced p statuses h) refl
          ∙ (ap (usual_secs d laws (d.of_nat n)) m ∙ usual_secs-one n (omega (arith, low)) high))
