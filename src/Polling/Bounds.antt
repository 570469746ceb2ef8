-- ===== src/Polling/Bounds.antt =====
-- The bounds of the poll intervals, and a saved interval that is loaded.
use quota_shift.Prelude.{ℕ, ◌+◌, ◌*◌, ◌≤◌, ◌<◌, ◌≡◌, true, some, arith, Option-cases, inl, inr}
use quota_shift.Js.{
  Number, Value, undefined, null, bool, num, str, arr, obj, round_nat, trim, parse_int, show_nat,
  trim-show_nat, parse_int-show_nat, small-overflow, show_nat-is_empty,
}
use quota_shift.Browser.{Storage}
use quota_shift.Browser.Keys.{read_raw-set_item}
use quota_shift.Polling.{
  Limits, poll_limits, tracked_limits, idle_limits, clamp, clamp_signed, sanitize_with,
  sanitize_poll_interval, sanitize_tracked_poll_interval, sanitize_idle_poll_interval,
  stored_or_default, load_poll_interval_preference, save_poll_interval_preference,
  load_tracked_poll_interval_preference, save_tracked_poll_interval_preference,
  load_idle_poll_interval_preference, save_idle_poll_interval_preference, poll_interval_key,
  tracked_poll_interval_key, idle_poll_interval_key, tracked_cache_max_age_ms,
}

abbrev pub Within : Limits → ℕ → Type 0
Within l n = (l.least ≤ n) × (n ≤ l.most)

pub clamp-Within : (l : Limits) (n : ℕ) → l.least ≤ l.most → Within l (clamp l n)
unfolding clamp
clamp-Within l n h = ground (arith, h)

pub clamp_of_Within : (l : Limits) (n : ℕ) → Within l n → clamp l n ≡ n
unfolding clamp
clamp_of_Within l n h = ground (arith, h)

pub sanitize-Within : (l : Limits) (v : Value) → Within l l.default → Within l (sanitize_with l v)
unfolding sanitize_with clamp_signed
sanitize-Within l (num x) h = ground (arith, clamp-Within l (round_nat x), h)
sanitize-Within l (str s) h = elim (Option-cases (parse_int (trim s))) [
  | inl e ↦ rw (e, sanitize_with) h
  | inr e ↦ rw (e.1, sanitize_with) (clamp-Within l _ (omega (arith, h.0, h.1)))
]
sanitize-Within l undefined h = h
sanitize-Within l null h = h
sanitize-Within l (bool _) h = h
sanitize-Within l (arr _) h = h
sanitize-Within l (obj _) h = h

pub sanitize-show_nat :
    (l : Limits) (n : ℕ)
    → l.most ≤ 9007199254740991
    → Within l n
    → sanitize_with l (str (show_nat n)) ≡ n
unfolding sanitize_with clamp_signed
sanitize-show_nat l n small h =
    rw (trim-show_nat n, sanitize_with)
      (rw (parse_int-show_nat n (small-overflow n (omega (arith, h.1, small))))
        (clamp_of_Within l n h))

pub stored-show_nat :
    (l : Limits) (n : ℕ)
    → l.most ≤ 9007199254740991
    → Within l n
    → stored_or_default l (some (show_nat n)) ≡ n
unfolding stored_or_default
stored-show_nat l n small h = rw (show_nat-is_empty n) (sanitize-show_nat l n small h)

-- Whatever a sanitised value is (a number, a text or anything else), each of the three intervals is
-- between 5 and 1200 seconds.
pub poll_intervals-Within :
    (v : Value)
    → Within poll_limits (sanitize_poll_interval v)
      × Within tracked_limits (sanitize_tracked_poll_interval v)
      × Within idle_limits (sanitize_idle_poll_interval v)
unfolding sanitize_poll_interval sanitize_tracked_poll_interval sanitize_idle_poll_interval
poll_intervals-Within v = (
  sanitize-Within poll_limits v (omega arith, omega arith),
  sanitize-Within tracked_limits v (omega arith, omega arith),
  sanitize-Within idle_limits v (omega arith, omega arith),
)

-- Each interval, saved to a storage that can be read and written, is loaded as its sanitised number.
pub load-save_intervals :
    (x : Number) (s : Storage)
    → s.readable ≡ true
    → s.writable ≡ true
    → (load_poll_interval_preference (save_poll_interval_preference x s)
        ≡ sanitize_poll_interval (num x))
      × (load_tracked_poll_interval_preference (save_tracked_poll_interval_preference x s).storage
          ≡ sanitize_tracked_poll_interval (num x))
      × (load_idle_poll_interval_preference (save_idle_poll_interval_preference x s)
          ≡ sanitize_idle_poll_interval (num x))
unfolding load_poll_interval_preference save_poll_interval_preference
    load_tracked_poll_interval_preference save_tracked_poll_interval_preference
    load_idle_poll_interval_preference save_idle_poll_interval_preference
load-save_intervals x s readable writable =
    let b = poll_intervals-Within (num x) in
    let p = sanitize_poll_interval (num x) in
    let t = sanitize_tracked_poll_interval (num x) in
    let i = sanitize_idle_poll_interval (num x) in
    (
      rw (read_raw-set_item poll_interval_key (show_nat p) poll_interval_key s readable writable)
          (stored-show_nat poll_limits p (omega arith) b.0),
      rw
          (read_raw-set_item tracked_poll_interval_key (show_nat t) tracked_poll_interval_key s
            readable writable)
          (stored-show_nat tracked_limits t (omega arith) b.1),
      rw
          (read_raw-set_item idle_poll_interval_key (show_nat i) idle_poll_interval_key s readable
            writable)
          (stored-show_nat idle_limits i (omega arith) b.2),
    )

-- A cache is due again before one interval has passed, and not before half of it has.
tracked_cache_max_age-bounds :
    (secs : ℕ)
    → 5 ≤ secs
    → (tracked_cache_max_age_ms secs < secs * 1000)
      × (secs * 1000 ≤ 2 * tracked_cache_max_age_ms secs + 1)
unfolding tracked_cache_max_age_ms
tracked_cache_max_age-bounds secs h = ground (arith, h)
