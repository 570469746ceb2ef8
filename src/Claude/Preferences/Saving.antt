-- ===== src/Claude/Preferences/Saving.antt =====
-- Saving the preferences, and the helpers for older callers: src/utils/common/settings/claude-preferences.ts.
use quota_shift.Prelude.{
  ℕ, String, Bool, true, false, ◌&&◌, Option, none, some, List, [], ◌∷◌, if◌then◌else◌,
}
use quota_shift.Js.{show_bool, Number, bool, num, show_nat}
use quota_shift.Browser.{Storage, set_items}
use quota_shift.Claude.Preferences.Normal.{
  poll_interval_key, guardrails_enabled_key, auto_resume_key, window_driven_key, only_watch_key,
  five_hour_enabled_key, five_hour_threshold_key, weekly_enabled_key, weekly_threshold_key,
  reduce_low_usage_key, RawPreferences, ClaudePreferences, sanitize_claude_stop_threshold,
  normalize_claude_preferences, raw_window, raw_of,
}
use quota_shift.Claude.Preferences.Loading.{load_claude_preferences}

-- The last write, which is left out for a field that is missing.
unfoldable pub option_write : String → Option Bool → List (String × String)
unfolding show_bool
option_write key none = []
option_write key (some b) = (key, show_bool b) ∷ []

-- The writes of a save, in their order.
unfoldable pub preference_writes : ClaudePreferences → List (String × String)
preference_writes p =
    (poll_interval_key, show_nat p.poll_interval_secs)
    ∷ (guardrails_enabled_key, show_bool p.any_enabled)
    ∷ (window_driven_key, "true")
    ∷ (auto_resume_key, show_bool p.auto_resume_at_reset)
    ∷ (only_watch_key, show_bool p.only_watch_processing)
    ∷ (five_hour_enabled_key, show_bool p.five_hour.enabled)
    ∷ (five_hour_threshold_key, show_nat p.five_hour.threshold_pct)
    ∷ (weekly_enabled_key, show_bool p.weekly.enabled)
    ∷ (weekly_threshold_key, show_nat p.weekly.threshold_pct)
    ∷ option_write reduce_low_usage_key p.reduce_low_usage

-- A save: the storage that is left, whether it persisted, what the overlay gets, and the detail of the
-- event. `is_local` is `storage === localStorage`.
pub record SavedPreferences : Type 0 where
  pub storage : Storage
  pub persisted : Bool
  pub synced : Option ClaudePreferences
  pub announced : ClaudePreferences

unfoldable pub save_claude_preferences :
    RawPreferences → (is_local : Bool) → Storage → SavedPreferences
unfolding normalize_claude_preferences preference_writes set_items
save_claude_preferences raw is_local s =
    let p = normalize_claude_preferences raw in
    record {
      storage = set_items (preference_writes p) s;
      persisted = s.writable;
      synced = if s.writable && is_local then some p else none;
      announced = p;
    }

-- The helpers for older callers.
module _ (to_number : String → Number) where
  unfoldable pub load_claude_poll_interval_preference : Storage → ℕ
  unfolding load_claude_preferences
  load_claude_poll_interval_preference s = (load_claude_preferences to_number s).poll_interval_secs

  unfoldable pub save_claude_poll_interval_preference : Number → Bool → Storage → SavedPreferences
  unfolding load_claude_preferences save_claude_preferences
  save_claude_poll_interval_preference interval is_local s =
      save_claude_preferences
        (record (raw_of (load_claude_preferences to_number s)) {
          raw_poll_interval_secs = num interval;
        })
        is_local s

  unfoldable pub load_claude_stop_threshold_preference : Storage → ℕ
  unfolding load_claude_preferences
  load_claude_stop_threshold_preference s =
      (load_claude_preferences to_number s).five_hour.threshold_pct

  unfoldable pub save_claude_stop_threshold_preference : Number → Bool → Storage → SavedPreferences
  unfolding load_claude_preferences save_claude_preferences sanitize_claude_stop_threshold
  save_claude_stop_threshold_preference threshold is_local s =
      let window = raw_window (record {
        enabled = true;
        threshold_pct = sanitize_claude_stop_threshold (num threshold);
      }) in
      save_claude_preferences
        (record (raw_of (load_claude_preferences to_number s)) {
          raw_five_hour = window;
          raw_weekly = window;
        })
        is_local s

  unfoldable pub load_claude_low_usage_reduction_preference : Storage → Bool
  unfolding load_claude_preferences
  load_claude_low_usage_reduction_preference s =
      elim (load_claude_preferences to_number s).reduce_low_usage [ none ↦ false | some b ↦ b ]

  unfoldable pub save_claude_low_usage_reduction_preference :
      Bool → Bool → Storage → SavedPreferences
  unfolding load_claude_preferences save_claude_preferences
  save_claude_low_usage_reduction_preference enabled is_local s =
      save_claude_preferences
        (record (raw_of (load_claude_preferences to_number s)) {
          raw_reduce_low_usage = bool enabled;
        })
        is_local s
