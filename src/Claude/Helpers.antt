-- ===== src/Claude/Helpers.antt =====
-- The helpers that save one preference at a time (src/utils/common/settings/claude-preferences.ts).
use quota_shift.Prelude.{
  ℕ, String, ◌≡◌, refl, ap, sym, ◌∙◌, Bool, true, Option, none, some, arith, if_true_holds,
}
use quota_shift.Js.{Number, Value, num, bool}
use quota_shift.Browser.{Storage, read_raw}
use quota_shift.Polling.Bounds.{sanitize-Within}
use quota_shift.Claude.Preferences
use quota_shift.Claude.Saved.{
  IsNormal, normalize-raw_of, sanitize-of_nat, given-raw_option, kept_option, load-save_preferences,
  load-IsNormal,
}

-- A field that is loaded as what is stored already.
kept_option-stored :
    (old : Option String)
    → kept_option (Preferences.stored_option old) old ≡ Preferences.stored_option old
unfolding Preferences.stored_option
kept_option-stored none = refl
kept_option-stored (some raw) = refl

abbrev reduce_of : Preferences.ClaudePreferences → Option Bool
reduce_of p = p.reduce_low_usage

abbrev pub stop_window : Number → Preferences.WindowPreference
stop_window t = record {
  enabled = true;
  threshold_pct = Preferences.sanitize_claude_stop_threshold (num t);
}

abbrev stop_at : ℕ → Preferences.WindowPreference
stop_at n = record { enabled = true; threshold_pct = n }

-- Preferences with one part replaced, in their normal form.
module _ (p : Preferences.ClaudePreferences) where
  normalize_interval :
      (v : Value)
      → IsNormal p
      → Preferences.normalize_claude_preferences
          (record (Preferences.raw_of p) { raw_poll_interval_secs = v })
        ≡ record p { poll_interval_secs = Preferences.sanitize_claude_poll_interval v }
  unfolding Preferences.normalize_claude_preferences
  normalize_interval v h =
      let normal = normalize-raw_of p h in
      λ i. record (normal i) { poll_interval_secs = Preferences.sanitize_claude_poll_interval v }

  normalize_reduction :
      (flag : Bool)
      → IsNormal p
      → Preferences.normalize_claude_preferences
          (record (Preferences.raw_of p) { raw_reduce_low_usage = bool flag })
        ≡ record p { reduce_low_usage = some flag }
  unfolding Preferences.normalize_claude_preferences Preferences.boolean_if_given
  normalize_reduction flag h =
      let normal = normalize-raw_of p h in λ i. record (normal i) { reduce_low_usage = some flag }

  stop_window-kept :
      (t : Number) → Preferences.window_of (Preferences.raw_window (stop_window t)) ≡ stop_window t
  unfolding Preferences.window_of Preferences.sanitize_claude_stop_threshold
  stop_window-kept t = ap stop_at (
      sanitize-of_nat Preferences.threshold_limits
        (Preferences.sanitize_claude_stop_threshold (num t))
        (sanitize-Within Preferences.threshold_limits (num t) (omega arith, omega arith)))

  normalize_windows :
      (t : Number)
      → IsNormal p
      → Preferences.normalize_claude_preferences (record (Preferences.raw_of p) {
        raw_five_hour = Preferences.raw_window (stop_window t);
        raw_weekly = Preferences.raw_window (stop_window t);
      })
        ≡ record p { any_enabled = true; five_hour = stop_window t; weekly = stop_window t }
  unfolding Preferences.normalize_claude_preferences
  normalize_windows t h =
      let normal = normalize-raw_of p h in
      let kept = stop_window-kept t in
      λ i. record (normal i) { any_enabled = true; five_hour = kept i; weekly = kept i }

module _ (to_number : String → Number) (is_local : Bool) (s : Storage)
    (readable : s.readable ≡ true) (writable : s.writable ≡ true) where
  abbrev loaded : Preferences.ClaudePreferences
  loaded = Preferences.load_claude_preferences to_number s

  abbrev reload : Preferences.RawPreferences → Preferences.ClaudePreferences
  reload raw =
      Preferences.load_claude_preferences to_number
        (Preferences.save_claude_preferences raw is_local s).storage

  loaded-reduce :
      loaded.reduce_low_usage
      ≡ Preferences.stored_option (read_raw (some s) Preferences.reduce_low_usage_key)
  unfolding Preferences.load_claude_preferences Preferences.normalize_claude_preferences
      Preferences.stored_preferences
  loaded-reduce =
      if_true_holds
        (λ p.
          reduce_of p
          ≡ Preferences.stored_option (read_raw (some s) Preferences.reduce_low_usage_key))
        s.readable _ _ readable
        (given-raw_option
          (Preferences.stored_option (read_raw (some s) Preferences.reduce_low_usage_key)))

  -- A save that hands the loaded field on leaves it.
  reload_same :
      (raw : Preferences.RawPreferences)
      → (Preferences.normalize_claude_preferences raw).reduce_low_usage ≡ loaded.reduce_low_usage
      → reload raw ≡ Preferences.normalize_claude_preferences raw
  reload_same raw same =
      let p = Preferences.normalize_claude_preferences raw in
      let old = read_raw (some s) Preferences.reduce_low_usage_key in
      let kept =
        ap (λ b. kept_option b old) (same ∙ loaded-reduce)
        ∙ (kept_option-stored old ∙ sym (same ∙ loaded-reduce)) in
      load-save_preferences to_number raw is_local s readable writable
      ∙ (λ i. record p { reduce_low_usage = kept i })

  reload_given :
      (raw : Preferences.RawPreferences) (b : Bool)
      → (Preferences.normalize_claude_preferences raw).reduce_low_usage ≡ some b
      → reload raw ≡ Preferences.normalize_claude_preferences raw
  reload_given raw b given =
      let p = Preferences.normalize_claude_preferences raw in
      let old = read_raw (some s) Preferences.reduce_low_usage_key in
      let kept = ap (λ c. kept_option c old) given ∙ sym given in
      load-save_preferences to_number raw is_local s readable writable
      ∙ (λ i. record p { reduce_low_usage = kept i })

  -- On a storage that can be read and written, each helper changes what is loaded in its own fields alone: the
  -- interval to its sanitised number; the two windows to the sanitised threshold, switched on; the reduction to
  -- the flag.
  pub helpers-change :
      (interval threshold : Number) (flag : Bool)
      → (Preferences.load_claude_preferences to_number
            (Preferences.save_claude_poll_interval_preference to_number interval is_local s).storage
          ≡ record loaded {
            poll_interval_secs = Preferences.sanitize_claude_poll_interval (num interval);
          })
        × (Preferences.load_claude_preferences to_number
              (Preferences.save_claude_stop_threshold_preference to_number threshold is_local
                s).storage
            ≡ record loaded {
              any_enabled = true;
              five_hour = stop_window threshold;
              weekly = stop_window threshold;
            })
        × (Preferences.load_claude_preferences to_number
              (Preferences.save_claude_low_usage_reduction_preference to_number flag is_local
                s).storage
            ≡ record loaded { reduce_low_usage = some flag })
  unfolding Preferences.save_claude_poll_interval_preference
      Preferences.save_claude_stop_threshold_preference
      Preferences.save_claude_low_usage_reduction_preference
  helpers-change interval threshold flag =
      let h = load-IsNormal to_number s in
      let polled = normalize_interval loaded (num interval) h in
      let stopped = normalize_windows loaded threshold h in
      let reduced = normalize_reduction loaded flag h in
      (
        reload_same (record (Preferences.raw_of loaded) { raw_poll_interval_secs = num interval })
              (ap reduce_of polled)
            ∙ polled,
        reload_same
              (record (Preferences.raw_of loaded) {
                raw_five_hour = Preferences.raw_window (stop_window threshold);
                raw_weekly = Preferences.raw_window (stop_window threshold);
              })
              (ap reduce_of stopped)
            ∙ stopped,
        reload_given (record (Preferences.raw_of loaded) { raw_reduce_low_usage = bool flag }) flag
              (ap reduce_of reduced)
            ∙ reduced,
      )
