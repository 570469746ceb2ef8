-- ===== src/Claude/Preferences/Loading.antt =====
-- Loading the preferences: src/utils/common/settings/claude-preferences.ts.
use quota_shift.Prelude.{
  ℕ, String, Bool, true, false, not, ◌&&◌, Option, none, some, ltb, if◌then◌else◌, ◌==◌,
}
use quota_shift.Js.{Number, infinite, ratio, of_nat, bool, num, str, is_finite, is_empty}
use quota_shift.Browser.{Storage, read_raw}
use quota_shift.Polling.{stored_or_default}
use quota_shift.Claude.Preferences.Normal.{
  poll_interval_key, stop_threshold_key, guardrails_enabled_key, auto_resume_key, window_driven_key,
  only_watch_key, five_hour_enabled_key, five_hour_threshold_key, weekly_enabled_key,
  weekly_threshold_key, reduce_low_usage_key, interval_limits, default_five_hour_threshold,
  default_weekly_threshold, RawWindow, RawPreferences, ClaudePreferences, parse_stored_boolean,
  sanitize_claude_stop_threshold, normalize_claude_preferences, raw_option, default_preferences,
}

-- `value > 0`
unfoldable pub is_positive : Number → Bool
is_positive (ratio false n _) = ltb 0 n
is_positive (infinite negative) = not negative
is_positive _ = false

module _ (to_number : String → Number) where
  -- The legacy threshold where one is stored: `legacyThreshold`.
  unfoldable pub legacy_threshold : Option String → Option ℕ
  unfolding is_positive is_finite sanitize_claude_stop_threshold
  legacy_threshold none = none
  legacy_threshold (some raw) =
      let legacy = to_number raw in
      if not (is_empty raw) && (is_finite legacy && is_positive legacy)
      then some (sanitize_claude_stop_threshold (num legacy))
      else none

-- `legacyThreshold ?? fallback`
unfoldable pub threshold_or : Option ℕ → ℕ → ℕ
threshold_or none fallback = fallback
threshold_or (some threshold) fallback = threshold

-- A stored threshold, or the default where no text or the empty one is stored.
unfoldable pub stored_threshold : Option String → ℕ → ℕ
unfolding sanitize_claude_stop_threshold
stored_threshold none fallback = fallback
stored_threshold (some raw) fallback =
    if is_empty raw then fallback else sanitize_claude_stop_threshold (str raw)

unfoldable pub stored_option : Option String → Option Bool
unfolding parse_stored_boolean
stored_option none = none
stored_option (some raw) = some (parse_stored_boolean (some raw) false)

unfoldable pub load_poll_interval : Storage → ℕ
unfolding stored_or_default read_raw
load_poll_interval s = stored_or_default interval_limits (read_raw (some s) poll_interval_key)

-- `raw === text`
unfoldable pub stored_is : Option String → String → Bool
stored_is none text = false
stored_is (some raw) text = raw == text

unfoldable pub is_given : Option ℕ → Bool
is_given none = false
is_given (some _) = true

-- A master switch that is off, from before the windows had their own: both windows are off.
unfoldable pub is_overruled : Storage → Bool
unfolding stored_is read_raw
is_overruled s =
    not (stored_is (read_raw (some s) window_driven_key) "true")
    && stored_is (read_raw (some s) guardrails_enabled_key) "false"

-- One window as it is stored under its two keys.
unfoldable pub read_window : Storage → Option ℕ → String → String → ℕ → RawWindow
unfolding is_overruled is_given parse_stored_boolean stored_threshold threshold_or read_raw
read_window s legacy enabled_key threshold_key fallback =
    let stored = parse_stored_boolean (read_raw (some s) enabled_key) (is_given legacy) in
    record {
      raw_enabled = bool (if is_overruled s then false else stored);
      raw_threshold_pct = num (
          of_nat
            (stored_threshold (read_raw (some s) threshold_key) (threshold_or legacy fallback)));
    }

module _ (to_number : String → Number) where
  -- What the `try` reads, before it is normalised.
  unfoldable pub stored_preferences : Storage → RawPreferences
  unfolding legacy_threshold read_window stored_option parse_stored_boolean load_poll_interval
      read_raw
  stored_preferences s =
      let legacy = legacy_threshold to_number (read_raw (some s) stop_threshold_key) in
      record {
        raw_poll_interval_secs = num (of_nat (load_poll_interval s));
        raw_auto_resume_at_reset =
            bool (parse_stored_boolean (read_raw (some s) auto_resume_key) false);
        raw_only_watch_processing =
            bool (parse_stored_boolean (read_raw (some s) only_watch_key) true);
        raw_five_hour =
            read_window s legacy five_hour_enabled_key five_hour_threshold_key
              default_five_hour_threshold;
        raw_weekly =
            read_window s legacy weekly_enabled_key weekly_threshold_key default_weekly_threshold;
        raw_reduce_low_usage = raw_option (stored_option (read_raw (some s) reduce_low_usage_key));
      }

  unfoldable pub load_claude_preferences : Storage → ClaudePreferences
  unfolding stored_preferences normalize_claude_preferences
  load_claude_preferences s =
      if s.readable
      then normalize_claude_preferences (stored_preferences s)
      else default_preferences
