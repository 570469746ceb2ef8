-- ===== src/Claude/Adaptive.antt =====
-- The polling interval against its bounds and against the guardrails (src/utils/claude/guardrails).
use quota_shift.Prelude.{
  ℕ, ◌≤◌, ◌≡◌, ap, sym, subst, Bool, true, not, ◌||◌, Option, none, some, List, [], ◌∷◌, is_nil,
  if◌then◌else◌, if_holds, arith,
}
use quota_shift.Claude.Preferences.{ClaudePreferences}
use quota_shift.Claude.Doubles.{Doubles, IsOrdered}
use quota_shift.Claude.Guardrails.{
  Usage, missing, not_a_number, used, UsageStatus, has_error, statuses_for_guardrail_polling,
  known_multiplier, window_multiplier, lower, five_hour_multiplier, weekly_multiplier,
  lowest_multiplier, finite_or_one, guardrails_active, claude_adaptive_poll_multiplier, is_reduced,
  claude_adaptive_poll_interval_secs,
}

module _ {ℓ} {D : Type ℓ} (d : Doubles D) (laws : IsOrdered d) where
  abbrev pub one : D
  one = d.of_nat 1

  -- `x >= y`
  abbrev pub Above : D → D → Type 0
  Above x y = d.at_least x y ≡ true

  -- A multiplier, where there is one, is not below one.
  abbrev pub AboveOne : Option D → Type 0
  AboveOne none = Unit
  AboveOne (some x) = Above x one

  known_multiplier-Above :
      (usage threshold margin : D) → Above (known_multiplier d usage threshold margin) one
  unfolding known_multiplier
  known_multiplier-Above usage threshold margin =
      if_holds (λ x. Above x one) _ (laws.at_least_refl one)
        (laws.backoff_above _ (laws.max_left one _))

  window_multiplier-AboveOne :
      (enabled : Bool) (usage : Usage D) (threshold margin : D)
      → AboveOne (window_multiplier d enabled usage threshold margin)
  unfolding window_multiplier
  window_multiplier-AboveOne enabled missing threshold margin =
      if_holds AboveOne (not enabled) tt (laws.at_least_refl one)
  window_multiplier-AboveOne enabled not_a_number threshold margin =
      if_holds AboveOne (not enabled) tt (laws.at_least_refl one)
  window_multiplier-AboveOne enabled (used usage) threshold margin =
      if_holds AboveOne (not enabled) tt (
        if_holds AboveOne (not (d.is_finite usage)) (laws.at_least_refl one)
          (known_multiplier-Above usage threshold margin))

  lower-Above : (x : Option D) (m : D) → AboveOne x → Above m one → Above (lower d x m) one
  unfolding lower
  lower-Above none m h k = k
  lower-Above (some x) m h k = laws.min_greatest m x one k h

  pub lower-below : (x : Option D) (m : D) → Above m (lower d x m)
  unfolding lower
  lower-below none m = laws.at_least_refl m
  lower-below (some x) m = laws.min_left m x

  -- The loop stays above one.
  pub lowest-AboveOne :
      (p : ClaudePreferences) (statuses : List (UsageStatus D)) (m : D)
      → Above m one
      → AboveOne (lowest_multiplier d p statuses m)
  unfolding lowest_multiplier five_hour_multiplier weekly_multiplier
  lowest-AboveOne p [] m h = h
  lowest-AboveOne p (status ∷ rest) m h =
      let five =
        lower-Above (five_hour_multiplier d status p) m
          (window_multiplier-AboveOne p.five_hour.enabled status.five_hour_used
            (d.of_nat p.five_hour.threshold_pct) (d.of_nat 10))
          h in
      let week =
        lower-Above (weekly_multiplier d status p) _
          (window_multiplier-AboveOne p.weekly.enabled status.seven_day_used
            (d.of_nat p.weekly.threshold_pct) (d.of_nat 3))
          five in
      if_holds AboveOne (not status.usage_fresh || has_error status.error) tt
        (lowest-AboveOne p rest _ week)

  finite_or_one-Above : (x : Option D) → AboveOne x → Above (finite_or_one d x) one
  unfolding finite_or_one
  finite_or_one-Above none h = laws.at_least_refl one
  finite_or_one-Above (some x) h =
      if_holds (λ y. Above y one) (d.is_finite x) h (laws.at_least_refl one)

  pub multiplier-Above :
      (p : ClaudePreferences) (statuses : List (UsageStatus D))
      → Above (claude_adaptive_poll_multiplier d statuses p) one
  unfolding claude_adaptive_poll_multiplier
  multiplier-Above p statuses =
      let watched = statuses_for_guardrail_polling d statuses p in
      if_holds (λ y. Above y one) (not (guardrails_active d p)) (laws.at_least_refl one)
        (if_holds (λ y. Above y one) (is_nil watched) (laws.at_least_refl one)
          (finite_or_one-Above _ (lowest-AboveOne p watched d.infinity (laws.infinity_above one))))

  capped-base :
      (n : ℕ) (x : D)
      → n ≤ 1200
      → Above x (d.of_nat n)
      → Above (d.min (d.of_nat 1200) x) (d.of_nat n)
  capped-base n x h k =
      laws.min_greatest (d.of_nat 1200) x (d.of_nat n) (laws.of_nat_mono n 1200 h) k

  base-same : (n : ℕ) → 5 ≤ n → d.max (d.of_nat 5) (d.of_nat n) ≡ d.of_nat n
  base-same n h =
      laws.at_least_antisym _ n (omega (arith, h)) (laws.max_right (d.of_nat 5) (d.of_nat n))
        (laws.max_least _ _ _ (laws.of_nat_mono 5 n h) (laws.at_least_refl (d.of_nat n)))

  abbrev pub Between : ℕ → D → Type 0
  Between n x = Above x (d.of_nat n) × Above (d.of_nat 1200) x

  -- The two branches of the interval, from the base that is used.
  pub reduced_secs : D → D → D
  reduced_secs base multiplier =
      d.min (d.of_nat 1200)
        (d.max (d.of_nat 300) (d.round (d.mul base (d.max multiplier (d.of_nat 5)))))

  unfoldable pub usual_secs : D → D → D
  usual_secs base multiplier = d.min (d.of_nat 1200) (d.max base (d.round (d.mul base multiplier)))

  reduced_secs-Between :
      (n : ℕ) (m : D) → 1 ≤ n → n ≤ 1200 → Above m one → Between n (reduced_secs (d.of_nat n) m)
  unfolding reduced_secs
  reduced_secs-Between n m low high h =
      let raised = laws.at_least_trans _ m one (laws.max_left m (d.of_nat 5)) h in
      (
        capped-base n _ high (
            laws.at_least_trans _ _ _ (laws.max_right (d.of_nat 300) _)
              (laws.round_mul_above n _ low raised)),
        laws.min_left (d.of_nat 1200) _,
      )

  usual_secs-Between : (n : ℕ) (m : D) → n ≤ 1200 → Between n (usual_secs (d.of_nat n) m)
  unfolding usual_secs
  usual_secs-Between n m high =
      (capped-base n _ high (laws.max_left (d.of_nat n) _), laws.min_left (d.of_nat 1200) _)

  unfoldable pub secs_from : D → List (UsageStatus D) → ClaudePreferences → D
  secs_from base statuses p =
      let m = claude_adaptive_poll_multiplier d statuses p in
      if is_reduced d statuses p m then reduced_secs base m else usual_secs base m

  pub interval-secs_from :
      (n : ℕ) (statuses : List (UsageStatus D)) (p : ClaudePreferences)
      → 5 ≤ n
      → claude_adaptive_poll_interval_secs d (d.of_nat n) statuses p
        ≡ secs_from (d.of_nat n) statuses p
  unfolding claude_adaptive_poll_interval_secs secs_from reduced_secs usual_secs
  interval-secs_from n statuses p low = ap (λ base. secs_from base statuses p) (base-same n low)

  -- For a base of 5 to 1200 seconds, whatever the accounts and the preferences are: the interval is not below
  -- the base and not above 1200 seconds.
  pub adaptive_interval-Between :
      (n : ℕ) (statuses : List (UsageStatus D)) (p : ClaudePreferences)
      → 5 ≤ n
      → n ≤ 1200
      → Between n (claude_adaptive_poll_interval_secs d (d.of_nat n) statuses p)
  unfolding secs_from
  adaptive_interval-Between n statuses p low high =
      let m = claude_adaptive_poll_multiplier d statuses p in
      subst (Between n) (sym (interval-secs_from n statuses p low)) (
        if_holds (Between n) (is_reduced d statuses p m)
          (reduced_secs-Between n m (omega arith) high (multiplier-Above p statuses))
          (usual_secs-Between n m high))
