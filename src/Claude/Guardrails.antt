-- ===== src/Claude/Guardrails.antt =====
-- src/utils/claude/guardrails/claude-guardrails.ts and claude-polling.ts: when the guardrails of an account
-- are hit, and how often the accounts are polled.
use quota_shift.Prelude.{
  String, Bool, true, false, not, ◌&&◌, ◌||◌, Option, none, some, List, [], ◌∷◌, filter, all,
  is_nil, if◌then◌else◌,
}
use quota_shift.Js.{is_empty}
use quota_shift.Claude.Preferences.{ClaudePreferences, WindowPreference}
use quota_shift.Claude.Doubles.{Doubles}

-- `usedPercentage`: null or undefined, NaN, or any other double.
pub data Usage {ℓ} (D : Type ℓ) : Type ℓ where
  missing not_a_number : Usage D
  used : D → Usage D

-- `active` is `status.active === true`.
pub record UsageStatus {ℓ} (D : Type ℓ) : Type ℓ where
  pub active : Bool
  pub usage_fresh : Bool
  pub error : Option String
  pub five_hour_used : Usage D
  pub seven_day_used : Usage D

pub record GuardrailDecision : Type 0 where
  pub hit : Bool
  pub five_hour_hit : Bool
  pub weekly_hit : Bool

-- `Boolean(status.error)`
unfoldable pub has_error : Option String → Bool
has_error none = false
has_error (some text) = not (is_empty text)

module _ {ℓ} {D : Type ℓ} (d : Doubles D) where
  unfoldable pub window_hit : WindowPreference → Usage D → Bool
  window_hit window (used usage) =
      window.enabled && (d.is_finite usage && d.at_least usage (d.of_nat window.threshold_pct))
  window_hit window _ = false

  unfoldable pub claude_account_guardrail_decision :
      UsageStatus D → ClaudePreferences → GuardrailDecision
  unfolding window_hit has_error
  claude_account_guardrail_decision status preferences =
      if preferences.only_watch_processing && not status.active
        || (not status.usage_fresh || has_error status.error)
      then record { hit = false; five_hour_hit = false; weekly_hit = false }
      else (let five = window_hit preferences.five_hour status.five_hour_used in
          let week = window_hit preferences.weekly status.seven_day_used in
          record { hit = five || week; five_hour_hit = five; weekly_hit = week })

  unfoldable pub statuses_for_guardrail_polling :
      List (UsageStatus D) → ClaudePreferences → List (UsageStatus D)
  statuses_for_guardrail_polling statuses preferences =
      if preferences.only_watch_processing
      then filter (λ status. status.active) statuses
      else statuses

  unfoldable pub claude_account_monitor_poll_interval_secs : Bool → Bool → D → D → D → D
  claude_account_monitor_poll_interval_secs guardrails_active is_claude_tracked claude tracked
        idle =
      if guardrails_active
      then d.max (d.of_nat 5) claude
      else if is_claude_tracked
      then d.max (d.of_nat 5) tracked
      else d.max (d.of_nat 5) idle

  -- The multiplier of a usage that is known.
  unfoldable pub known_multiplier : D → D → D → D
  known_multiplier usage threshold eager_margin =
      let eager_at = d.max (d.of_nat 0) (d.sub threshold eager_margin) in
      if d.at_least usage eager_at
      then d.of_nat 1
      else (let steps = d.max (d.of_nat 1) (d.ceil (d.div (d.sub eager_at usage) (d.of_nat 10))) in
          d.add (d.of_nat 1) (d.mul steps d.backoff))

  unfoldable pub window_multiplier : Bool → Usage D → D → D → Option D
  unfolding known_multiplier
  window_multiplier enabled (used usage) threshold eager_margin =
      if not enabled
      then none
      else if not (d.is_finite usage)
      then some (d.of_nat 1)
      else some (known_multiplier usage threshold eager_margin)
  window_multiplier enabled _ threshold eager_margin =
      if not enabled then none else some (d.of_nat 1)

  -- `if (x !== null) multiplier = Math.min(multiplier, x)`
  unfoldable pub lower : Option D → D → D
  lower none multiplier = multiplier
  lower (some x) multiplier = d.min multiplier x

  unfoldable pub five_hour_multiplier : UsageStatus D → ClaudePreferences → Option D
  unfolding window_multiplier
  five_hour_multiplier status preferences =
      window_multiplier preferences.five_hour.enabled status.five_hour_used
        (d.of_nat preferences.five_hour.threshold_pct) (d.of_nat 10)

  unfoldable pub weekly_multiplier : UsageStatus D → ClaudePreferences → Option D
  unfolding window_multiplier
  weekly_multiplier status preferences =
      window_multiplier preferences.weekly.enabled status.seven_day_used
        (d.of_nat preferences.weekly.threshold_pct) (d.of_nat 3)

  -- The loop over the watched accounts; `none` is its early return of 1.
  unfoldable pub lowest_multiplier : ClaudePreferences → List (UsageStatus D) → D → Option D
  unfolding lower five_hour_multiplier weekly_multiplier has_error
  lowest_multiplier preferences [] multiplier = some multiplier
  lowest_multiplier preferences (status ∷ rest) multiplier =
      let later = lowest_multiplier preferences rest (
        lower (weekly_multiplier status preferences)
          (lower (five_hour_multiplier status preferences) multiplier)) in
      if not status.usage_fresh || has_error status.error then none else later

  unfoldable pub finite_or_one : Option D → D
  finite_or_one none = d.of_nat 1
  finite_or_one (some multiplier) = if d.is_finite multiplier then multiplier else d.of_nat 1

  unfoldable pub guardrails_active : ClaudePreferences → Bool
  guardrails_active preferences = preferences.five_hour.enabled || preferences.weekly.enabled

  unfoldable pub claude_adaptive_poll_multiplier : List (UsageStatus D) → ClaudePreferences → D
  unfolding guardrails_active statuses_for_guardrail_polling lowest_multiplier finite_or_one
  claude_adaptive_poll_multiplier statuses preferences =
      let watched = statuses_for_guardrail_polling statuses preferences in
      if not (guardrails_active preferences)
      then d.of_nat 1
      else if is_nil watched
      then d.of_nat 1
      else finite_or_one (lowest_multiplier preferences watched d.infinity)

  -- `usage === null || usage === undefined || usage < threshold`
  unfoldable pub usage_low : D → Usage D → Bool
  usage_low threshold missing = true
  usage_low threshold not_a_number = false
  usage_low threshold (used usage) = not (d.at_least usage threshold)

  unfoldable pub is_claude_low_usage : List (UsageStatus D) → D → Bool
  unfolding has_error usage_low
  is_claude_low_usage statuses threshold =
      not (is_nil statuses)
      && all
          (λ status.
            not (not status.usage_fresh || has_error status.error)
            && (usage_low threshold status.five_hour_used
                && usage_low threshold status.seven_day_used))
          statuses

  -- `Boolean(flag)` of a flag that may be missing.
  unfoldable pub is_set : Option Bool → Bool
  is_set none = false
  is_set (some b) = b

  unfoldable pub is_reduced : List (UsageStatus D) → ClaudePreferences → D → Bool
  unfolding is_set guardrails_active is_claude_low_usage statuses_for_guardrail_polling
  is_reduced statuses preferences multiplier =
      let active = guardrails_active preferences in
      let low = if active then statuses_for_guardrail_polling statuses preferences else statuses in
      is_set preferences.reduce_low_usage
      && ((not active || not (d.at_least (d.of_nat 1) multiplier))
          && is_claude_low_usage low (d.of_nat 10))

  unfoldable pub claude_adaptive_poll_interval_secs :
      D → List (UsageStatus D) → ClaudePreferences → D
  unfolding claude_adaptive_poll_multiplier is_reduced
  claude_adaptive_poll_interval_secs base_secs statuses preferences =
      let base = d.max (d.of_nat 5) base_secs in
      let multiplier = claude_adaptive_poll_multiplier statuses preferences in
      if is_reduced statuses preferences multiplier
      then d.min (d.of_nat 1200)
          (d.max (d.of_nat 300) (d.round (d.mul base (d.max multiplier (d.of_nat 5)))))
      else d.min (d.of_nat 1200) (d.max base (d.round (d.mul base multiplier)))
