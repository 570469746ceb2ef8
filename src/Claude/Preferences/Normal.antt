-- ===== src/Claude/Preferences/Normal.antt =====
-- src/utils/common/settings/claude-preference-types.ts and the normal form of claude-preferences.ts: the
-- preferences of the Claude monitor, what bounds them, and the names they are stored under.
use quota_shift.Prelude.{
  ℕ, String, Bool, true, false, not, ◌||◌, Option, none, some, if◌then◌else◌, ◌==◌,
}
use quota_shift.Js.{of_nat, Value, undefined, bool, num, is_false, truthy}
use quota_shift.Polling.{Limits, sanitize_with}

-- The names under which the preferences are stored.
abbrev pub poll_interval_key : String
poll_interval_key = "quotashift_claude_poll_interval_secs"

abbrev pub stop_threshold_key : String
stop_threshold_key = "quotashift_claude_stop_threshold_pct"

abbrev pub guardrails_enabled_key : String
guardrails_enabled_key = "quotashift_claude_guardrails_enabled"

abbrev pub auto_resume_key : String
auto_resume_key = "quotashift_claude_auto_resume_at_reset_v1"

abbrev pub window_driven_key : String
window_driven_key = "quotashift_claude_guardrails_window_driven_v1"

abbrev pub only_watch_key : String
only_watch_key = "quotashift_claude_only_watch_processing_accounts_v1"

abbrev pub five_hour_enabled_key : String
five_hour_enabled_key = "quotashift_claude_five_hour_stop_enabled"

abbrev pub five_hour_threshold_key : String
five_hour_threshold_key = "quotashift_claude_five_hour_stop_threshold_pct"

abbrev pub weekly_enabled_key : String
weekly_enabled_key = "quotashift_claude_weekly_stop_enabled"

abbrev pub weekly_threshold_key : String
weekly_threshold_key = "quotashift_claude_weekly_stop_threshold_pct"

abbrev pub reduce_low_usage_key : String
reduce_low_usage_key = "quotashift_claude_reduce_low_usage_frequency"

abbrev pub interval_limits : Limits
interval_limits = record { least = 5; most = 1200; default = 20 }

abbrev pub threshold_limits : Limits
threshold_limits = record { least = 1; most = 100; default = 98 }

abbrev pub default_five_hour_threshold : ℕ
default_five_hour_threshold = 95

abbrev pub default_weekly_threshold : ℕ
default_weekly_threshold = 98

-- The preferences as a caller hands them over: any values.
pub record RawWindow : Type 0 where
  pub raw_enabled : Value
  pub raw_threshold_pct : Value

pub record RawPreferences : Type 0 where
  pub raw_poll_interval_secs : Value
  pub raw_auto_resume_at_reset : Value
  pub raw_only_watch_processing : Value
  pub raw_five_hour : RawWindow
  pub raw_weekly : RawWindow
  pub raw_reduce_low_usage : Value

pub record WindowPreference : Type 0 where
  pub enabled : Bool
  pub threshold_pct : ℕ

-- `reduce_low_usage` is `none` where the field is missing.
pub record ClaudePreferences : Type 0 where
  pub poll_interval_secs : ℕ
  pub any_enabled : Bool
  pub auto_resume_at_reset : Bool
  pub only_watch_processing : Bool
  pub five_hour : WindowPreference
  pub weekly : WindowPreference
  pub reduce_low_usage : Option Bool

unfoldable pub parse_stored_boolean : Option String → Bool → Bool
parse_stored_boolean none fallback = fallback
parse_stored_boolean (some text) fallback =
    if text == "true" then true else if text == "false" then false else fallback

unfoldable pub sanitize_claude_poll_interval : Value → ℕ
unfolding sanitize_with
sanitize_claude_poll_interval value = sanitize_with interval_limits value

unfoldable pub sanitize_claude_stop_threshold : Value → ℕ
unfolding sanitize_with
sanitize_claude_stop_threshold value = sanitize_with threshold_limits value

unfoldable pub window_of : RawWindow → WindowPreference
unfolding sanitize_claude_stop_threshold truthy
window_of raw = record {
  enabled = truthy raw.raw_enabled;
  threshold_pct = sanitize_claude_stop_threshold raw.raw_threshold_pct;
}

-- A field that is not undefined, as a Boolean.
unfoldable pub boolean_if_given : Value → Option Bool
unfolding truthy
boolean_if_given undefined = none
boolean_if_given value = some (truthy value)

unfoldable pub normalize_claude_preferences : RawPreferences → ClaudePreferences
unfolding window_of sanitize_claude_poll_interval is_false boolean_if_given truthy
normalize_claude_preferences raw =
    let five = window_of raw.raw_five_hour in
    let week = window_of raw.raw_weekly in
    record {
      poll_interval_secs = sanitize_claude_poll_interval raw.raw_poll_interval_secs;
      any_enabled = five.enabled || week.enabled;
      auto_resume_at_reset = truthy raw.raw_auto_resume_at_reset;
      only_watch_processing = not (is_false raw.raw_only_watch_processing);
      five_hour = five;
      weekly = week;
      reduce_low_usage = boolean_if_given raw.raw_reduce_low_usage;
    }

-- The values that preferences are in JavaScript.
abbrev pub raw_window : WindowPreference → RawWindow
raw_window w = record {
  raw_enabled = bool w.enabled;
  raw_threshold_pct = num (of_nat w.threshold_pct);
}

abbrev pub raw_option : Option Bool → Value
raw_option none = undefined
raw_option (some b) = bool b

abbrev pub raw_of : ClaudePreferences → RawPreferences
raw_of p = record {
  raw_poll_interval_secs = num (of_nat p.poll_interval_secs);
  raw_auto_resume_at_reset = bool p.auto_resume_at_reset;
  raw_only_watch_processing = bool p.only_watch_processing;
  raw_five_hour = raw_window p.five_hour;
  raw_weekly = raw_window p.weekly;
  raw_reduce_low_usage = raw_option p.reduce_low_usage;
}

-- What a read that throws leads to.
abbrev pub default_preferences : ClaudePreferences
default_preferences = record {
  poll_interval_secs = 20;
  any_enabled = false;
  auto_resume_at_reset = false;
  only_watch_processing = true;
  five_hour = record { enabled = false; threshold_pct = default_five_hour_threshold };
  weekly = record { enabled = false; threshold_pct = default_weekly_threshold };
  reduce_low_usage = none;
}
