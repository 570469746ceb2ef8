-- ===== src/Claude/Saved.antt =====
-- The preferences of the Claude monitor, saved and loaded
-- (src/utils/common/settings/claude-preferences.ts).
use quota_shift.Prelude.{
  ℕ, String, ◌≡◌, refl, ap, ap₂, ◌∙◌, Bool, true, false, ◌||◌, Option, none, some, ◌==◌, arith,
  if_holds, if_true_holds,
}
use quota_shift.Js.{
  show_bool, Number, of_nat, num, bool, is_finite, round_nat-of_nat, show_nat, truthy,
  show_nat-is_empty,
}
use quota_shift.Browser.{Storage, set_items, read_raw}
use quota_shift.Browser.Keys.{last_written, read_raw-set_items, set_items-SameAccess}
use quota_shift.Polling.{Limits, sanitize_with, stored_or_default}
use quota_shift.Polling.Bounds.{
  Within, sanitize-Within, clamp_of_Within, sanitize-show_nat, stored-show_nat,
}
use quota_shift.Claude.Preferences

-- Every number is within its bounds, and the derived flag agrees with the windows.
pub record IsNormal (p : Preferences.ClaudePreferences) : Type 0 where
  pub interval_within : Within Preferences.interval_limits p.poll_interval_secs
  pub five_within : Within Preferences.threshold_limits p.five_hour.threshold_pct
  pub weekly_within : Within Preferences.threshold_limits p.weekly.threshold_pct
  pub derived : p.any_enabled ≡ (p.five_hour.enabled || p.weekly.enabled)

pub sanitize-of_nat : (l : Limits) (n : ℕ) → Within l n → sanitize_with l (num (of_nat n)) ≡ n
unfolding sanitize_with is_finite
sanitize-of_nat l n h = rw (round_nat-of_nat n) (clamp_of_Within l n h)

pub normalize-IsNormal :
    (raw : Preferences.RawPreferences) → IsNormal (Preferences.normalize_claude_preferences raw)
unfolding Preferences.normalize_claude_preferences
normalize-IsNormal raw = record {
  interval_within =
      sanitize-Within Preferences.interval_limits raw.raw_poll_interval_secs
        (omega arith, omega arith);
  five_within =
      sanitize-Within Preferences.threshold_limits raw.raw_five_hour.raw_threshold_pct
        (omega arith, omega arith);
  weekly_within =
      sanitize-Within Preferences.threshold_limits raw.raw_weekly.raw_threshold_pct
        (omega arith, omega arith);
  derived = refl;
}

pub given-raw_option :
    (b : Option Bool) → Preferences.boolean_if_given (Preferences.raw_option b) ≡ b
unfolding Preferences.boolean_if_given truthy
given-raw_option none = refl
given-raw_option (some b) = refl

pub normalize-raw_of :
    (p : Preferences.ClaudePreferences)
    → IsNormal p
    → Preferences.normalize_claude_preferences (Preferences.raw_of p) ≡ p
unfolding Preferences.normalize_claude_preferences
normalize-raw_of p h = ground (
  arith,
  sanitize-of_nat Preferences.interval_limits p.poll_interval_secs h.interval_within,
  sanitize-of_nat Preferences.threshold_limits p.five_hour.threshold_pct h.five_within,
  sanitize-of_nat Preferences.threshold_limits p.weekly.threshold_pct h.weekly_within,
  given-raw_option p.reduce_low_usage,
  h.derived,
)

-- The last write leaves the other names.
other_key :
    (key : String) (old : Option String) (option : Option Bool)
    → Preferences.reduce_low_usage_key == key ≡ false
    → last_written key (Preferences.option_write Preferences.reduce_low_usage_key option) old ≡ old
unfolding Preferences.option_write
other_key key old none h = refl
other_key key old (some b) h = rw h refl

stored_boolean-show_bool :
    (b fallback : Bool) → Preferences.parse_stored_boolean (some (show_bool b)) fallback ≡ b
unfolding Preferences.parse_stored_boolean show_bool
stored_boolean-show_bool true fallback = refl
stored_boolean-show_bool false fallback = refl

-- What each name reads in a storage that preferences were written to.
record Holds (p : Preferences.ClaudePreferences) (old : Option String) (s : Storage) : Type 0 where
  interval_read :
      read_raw (some s) Preferences.poll_interval_key ≡ some (show_nat p.poll_interval_secs)
  driven_read : read_raw (some s) Preferences.window_driven_key ≡ some "true"
  resume_read :
      read_raw (some s) Preferences.auto_resume_key ≡ some (show_bool p.auto_resume_at_reset)
  watch_read :
      read_raw (some s) Preferences.only_watch_key ≡ some (show_bool p.only_watch_processing)
  five_read :
      read_raw (some s) Preferences.five_hour_enabled_key ≡ some (show_bool p.five_hour.enabled)
  five_threshold_read :
      read_raw (some s) Preferences.five_hour_threshold_key
      ≡ some (show_nat p.five_hour.threshold_pct)
  weekly_read : read_raw (some s) Preferences.weekly_enabled_key ≡ some (show_bool p.weekly.enabled)
  weekly_threshold_read :
      read_raw (some s) Preferences.weekly_threshold_key ≡ some (show_nat p.weekly.threshold_pct)
  reduce_read :
      read_raw (some s) Preferences.reduce_low_usage_key
      ≡ last_written Preferences.reduce_low_usage_key
          (Preferences.option_write Preferences.reduce_low_usage_key p.reduce_low_usage)
          old

module _ (p : Preferences.ClaudePreferences) (s : Storage) (readable : s.readable ≡ true)
    (writable : s.writable ≡ true) where
  reads :
      (key : String)
      → read_raw (some (set_items (Preferences.preference_writes p) s)) key
        ≡ last_written key (Preferences.preference_writes p) (read_raw (some s) key)
  reads key = read_raw-set_items key (Preferences.preference_writes p) s readable writable

  written-Holds :
      Holds p
        (read_raw (some s) Preferences.reduce_low_usage_key)
        (set_items (Preferences.preference_writes p) s)
  unfolding Preferences.preference_writes
  written-Holds = record {
    interval_read =
        reads Preferences.poll_interval_key
        ∙ other_key Preferences.poll_interval_key _ p.reduce_low_usage refl;
    driven_read =
        reads Preferences.window_driven_key
        ∙ other_key Preferences.window_driven_key _ p.reduce_low_usage refl;
    resume_read =
        reads Preferences.auto_resume_key
        ∙ other_key Preferences.auto_resume_key _ p.reduce_low_usage refl;
    watch_read =
        reads Preferences.only_watch_key
        ∙ other_key Preferences.only_watch_key _ p.reduce_low_usage refl;
    five_read =
        reads Preferences.five_hour_enabled_key
        ∙ other_key Preferences.five_hour_enabled_key _ p.reduce_low_usage refl;
    five_threshold_read =
        reads Preferences.five_hour_threshold_key
        ∙ other_key Preferences.five_hour_threshold_key _ p.reduce_low_usage refl;
    weekly_read =
        reads Preferences.weekly_enabled_key
        ∙ other_key Preferences.weekly_enabled_key _ p.reduce_low_usage refl;
    weekly_threshold_read =
        reads Preferences.weekly_threshold_key
        ∙ other_key Preferences.weekly_threshold_key _ p.reduce_low_usage refl;
    reduce_read = reads Preferences.reduce_low_usage_key;
  }

-- A stored threshold, read back.
stored_threshold-show_nat :
    (n fallback : ℕ)
    → Within Preferences.threshold_limits n
    → Preferences.stored_threshold (some (show_nat n)) fallback ≡ n
unfolding Preferences.stored_threshold
stored_threshold-show_nat n fallback h =
    rw (show_nat-is_empty n) (sanitize-show_nat Preferences.threshold_limits n (omega arith) h)

-- The field that may be missing: where it is, what was stored before is loaded.
abbrev pub kept_option : Option Bool → Option String → Option Bool
kept_option none old = Preferences.stored_option old
kept_option (some b) old = some b

stored_option-written :
    (option : Option Bool) (old : Option String)
    → Preferences.stored_option (
        last_written Preferences.reduce_low_usage_key
          (Preferences.option_write Preferences.reduce_low_usage_key option)
          old)
      ≡ kept_option option old
unfolding Preferences.option_write Preferences.stored_option
stored_option-written none old = refl
stored_option-written (some b) old = ap some (stored_boolean-show_bool b false)

read_window-Holds :
    (w : Preferences.WindowPreference) (s : Storage) (legacy : Option ℕ)
    (enabled_key threshold_key : String) (fallback : ℕ)
    → Within Preferences.threshold_limits w.threshold_pct
    → read_raw (some s) Preferences.window_driven_key ≡ some "true"
    → read_raw (some s) enabled_key ≡ some (show_bool w.enabled)
    → read_raw (some s) threshold_key ≡ some (show_nat w.threshold_pct)
    → Preferences.read_window s legacy enabled_key threshold_key fallback ≡ Preferences.raw_window w
unfolding Preferences.read_window Preferences.is_overruled Preferences.stored_is
read_window-Holds w s legacy enabled_key threshold_key fallback h driven enabled threshold =
    rw (driven, enabled, threshold)
      (ap₂
        (λ (b : Bool) (n : ℕ). Preferences.raw_window (record { enabled = b; threshold_pct = n }))
        (stored_boolean-show_bool w.enabled (Preferences.is_given legacy))
        (stored_threshold-show_nat w.threshold_pct (Preferences.threshold_or legacy fallback) h))

abbrev pub reloaded : Preferences.ClaudePreferences → Option String → Preferences.ClaudePreferences
reloaded p old = record p { reduce_low_usage = kept_option p.reduce_low_usage old }

reloaded-IsNormal :
    (p : Preferences.ClaudePreferences) (old : Option String)
    → IsNormal p
    → IsNormal (reloaded p old)
reloaded-IsNormal p old h = record {
  interval_within = h.interval_within;
  five_within = h.five_within;
  weekly_within = h.weekly_within;
  derived = h.derived;
}

default-IsNormal : IsNormal Preferences.default_preferences
default-IsNormal = record {
  interval_within = (omega arith, omega arith);
  five_within = (omega arith, omega arith);
  weekly_within = (omega arith, omega arith);
  derived = refl;
}

module _ (to_number : String → Number) where
  stored-Holds :
      (p : Preferences.ClaudePreferences) (old : Option String) (s : Storage)
      → IsNormal p
      → Holds p old s
      → Preferences.stored_preferences to_number s ≡ Preferences.raw_of (reloaded p old)
  unfolding Preferences.stored_preferences Preferences.load_poll_interval
  stored-Holds p old s h held =
      let legacy =
        Preferences.legacy_threshold to_number (read_raw (some s) Preferences.stop_threshold_key) in
      let interval =
        ap (stored_or_default Preferences.interval_limits) held.interval_read
        ∙ stored-show_nat Preferences.interval_limits p.poll_interval_secs (omega arith)
            h.interval_within in
      let resume =
        ap (λ raw. Preferences.parse_stored_boolean raw false) held.resume_read
        ∙ stored_boolean-show_bool p.auto_resume_at_reset false in
      let watch =
        ap (λ raw. Preferences.parse_stored_boolean raw true) held.watch_read
        ∙ stored_boolean-show_bool p.only_watch_processing true in
      let five =
        read_window-Holds p.five_hour s legacy Preferences.five_hour_enabled_key
          Preferences.five_hour_threshold_key Preferences.default_five_hour_threshold h.five_within
          held.driven_read held.five_read held.five_threshold_read in
      let week =
        read_window-Holds p.weekly s legacy Preferences.weekly_enabled_key
          Preferences.weekly_threshold_key Preferences.default_weekly_threshold h.weekly_within
          held.driven_read held.weekly_read held.weekly_threshold_read in
      let reduce =
        ap Preferences.stored_option held.reduce_read
        ∙ stored_option-written p.reduce_low_usage old in
      λ i. record {
        raw_poll_interval_secs = num (of_nat (interval i));
        raw_auto_resume_at_reset = bool (resume i);
        raw_only_watch_processing = bool (watch i);
        raw_five_hour = five i;
        raw_weekly = week i;
        raw_reduce_low_usage = Preferences.raw_option (reduce i);
      }

  -- What is saved to a storage that can be read and written is loaded in its normal form, whatever was handed
  -- over and stored before; only the reduction at low usage, where the caller gave none, is what was stored.
  pub load-save_preferences :
      (raw : Preferences.RawPreferences) (is_local : Bool) (s : Storage)
      → s.readable ≡ true
      → s.writable ≡ true
      → Preferences.load_claude_preferences to_number
          (Preferences.save_claude_preferences raw is_local s).storage
        ≡ reloaded
            (Preferences.normalize_claude_preferences raw)
            (read_raw (some s) Preferences.reduce_low_usage_key)
  unfolding Preferences.load_claude_preferences Preferences.save_claude_preferences
  load-save_preferences raw is_local s readable writable =
      let p = Preferences.normalize_claude_preferences raw in
      let same = set_items-SameAccess (Preferences.preference_writes p) s in
      if_true_holds (λ q. q ≡ reloaded p (read_raw (some s) Preferences.reduce_low_usage_key)) _ _ _
        (same.0 ∙ readable)
        (ap Preferences.normalize_claude_preferences (
            stored-Holds p (read_raw (some s) Preferences.reduce_low_usage_key)
              (set_items (Preferences.preference_writes p) s) (normalize-IsNormal raw)
              (written-Holds p s readable writable))
          ∙ normalize-raw_of (reloaded p (read_raw (some s) Preferences.reduce_low_usage_key))
              (reloaded-IsNormal p _ (normalize-IsNormal raw)))

  -- Whatever a storage holds, the preferences that are loaded are within their bounds.
  pub load-IsNormal : (s : Storage) → IsNormal (Preferences.load_claude_preferences to_number s)
  unfolding Preferences.load_claude_preferences
  load-IsNormal s =
      if_holds IsNormal s.readable (normalize-IsNormal (Preferences.stored_preferences to_number s))
        default-IsNormal
