-- ===== src/Polling.antt =====
-- src/utils/common/settings/poll-interval.ts: the three poll intervals, in seconds.
pub mod Bounds
use quota_shift.Prelude.{
  ℕ, ◌+◌, ◌-◌, ◌*◌, ◌/◌, String, Bool, true, false, Option, none, some, ltb, if◌then◌else◌,
}
use quota_shift.Js.{
  Number, Value, num, str, is_finite, round_nat, trim, is_empty, parse_int, show_nat,
}
use quota_shift.Browser.{Storage, set_item, read_raw}

-- The limits and the default of one interval.
pub record Limits : Type 0 where
  pub least : ℕ
  pub most : ℕ
  pub default : ℕ

abbrev pub poll_limits : Limits
poll_limits = record { least = 5; most = 1200; default = 30 }

abbrev pub tracked_limits : Limits
tracked_limits = record { least = 5; most = 1200; default = 30 }

abbrev pub idle_limits : Limits
idle_limits = record { least = 5; most = 1200; default = 600 }

-- `Math.min(most, Math.max(least, n))`
unfoldable pub clamp : Limits → ℕ → ℕ
clamp l n =
    let raised = if ltb l.least n then n else l.least in
    if ltb raised l.most then raised else l.most

-- A negative number is raised to the least one, as 0 is.
unfoldable pub clamp_signed : Limits → Bool → ℕ → ℕ
clamp_signed l negative n = clamp l (if negative then 0 else n)

-- The body that the three `sanitize…` functions share.
unfoldable pub sanitize_with : Limits → Value → ℕ
unfolding clamp_signed
sanitize_with l (num x) = if is_finite x then clamp l (round_nat x) else l.default
sanitize_with l (str s) = elim (parse_int (trim s)) [
  | some parsed ↦ clamp_signed l parsed.0 parsed.1
  | none ↦ l.default
]
sanitize_with l _ = l.default

unfoldable pub sanitize_poll_interval : Value → ℕ
sanitize_poll_interval value = sanitize_with poll_limits value

unfoldable pub sanitize_tracked_poll_interval : Value → ℕ
sanitize_tracked_poll_interval value = sanitize_with tracked_limits value

unfoldable pub sanitize_idle_poll_interval : Value → ℕ
sanitize_idle_poll_interval value = sanitize_with idle_limits value

abbrev pub poll_interval_key : String
poll_interval_key = "antigravity-poll-interval"

abbrev pub poll_interval_legacy_key : String
poll_interval_legacy_key = "quotashift_poll_interval_secs"

abbrev pub tracked_poll_interval_key : String
tracked_poll_interval_key = "quotashift_tracked_poll_interval_secs"

abbrev pub idle_poll_interval_key : String
idle_poll_interval_key = "quotashift_idle_poll_interval_secs"

-- The default where no text or the empty one is stored.
unfoldable pub stored_or_default : Limits → Option String → ℕ
stored_or_default l none = l.default
stored_or_default l (some raw) = if is_empty raw then l.default else sanitize_with l (str raw)

-- `a ?? b`
unfoldable pub or_legacy : Option String → Option String → Option String
or_legacy (some raw) legacy = some raw
or_legacy none legacy = legacy

-- The storage that is left, and the seconds that a change event names.
pub record SavedInterval : Type 0 where
  pub storage : Storage
  pub announced : Option ℕ

unfoldable pub load_poll_interval_preference : Storage → ℕ
unfolding stored_or_default or_legacy
load_poll_interval_preference s =
    stored_or_default poll_limits
      (or_legacy (read_raw (some s) poll_interval_key) (read_raw (some s) poll_interval_legacy_key))

unfoldable pub save_poll_interval_preference : Number → Storage → Storage
save_poll_interval_preference interval s =
    set_item poll_interval_key (show_nat (sanitize_poll_interval (num interval))) s

unfoldable pub load_tracked_poll_interval_preference : Storage → ℕ
unfolding stored_or_default
load_tracked_poll_interval_preference s =
    stored_or_default tracked_limits (read_raw (some s) tracked_poll_interval_key)

-- The event is sent after the write, where that does not throw.
unfoldable pub save_tracked_poll_interval_preference : Number → Storage → SavedInterval
save_tracked_poll_interval_preference interval s =
    let sanitized = sanitize_tracked_poll_interval (num interval) in
    record {
      storage = set_item tracked_poll_interval_key (show_nat sanitized) s;
      announced = if s.writable then some sanitized else none;
    }

unfoldable pub load_idle_poll_interval_preference : Storage → ℕ
unfolding stored_or_default
load_idle_poll_interval_preference s =
    stored_or_default idle_limits (read_raw (some s) idle_poll_interval_key)

unfoldable pub save_idle_poll_interval_preference : Number → Storage → Storage
save_idle_poll_interval_preference interval s =
    set_item idle_poll_interval_key (show_nat (sanitize_idle_poll_interval (num interval))) s

-- `trackedCacheMaxAgeMs` of a whole number of seconds.
unfoldable pub tracked_cache_max_age_ms : ℕ → ℕ
tracked_cache_max_age_ms secs =
    let interval = if ltb 5000 (secs * 1000) then secs * 1000 else 5000 in
    let half = (interval + 1) / 2 in interval - (if ltb half 10000 then half else 10000)
