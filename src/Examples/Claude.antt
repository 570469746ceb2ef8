-- ===== src/Examples/Claude.antt =====
-- The Claude monitor at concrete inputs, with whole numbers and infinity for the doubles.
use quota_shift.Prelude.{
  ℕ, zero, suc, ◌+◌, ◌-◌, ◌*◌, ◌/◌, ◌≤◌, String, ◌≡◌, refl, Bool, true, false, Option, none, some,
  List, [], ◌∷◌, any, leb, arith, if◌then◌else◌, lookup,
}
use quota_shift.Js.{Number, nan, ratio, num, bool, str, undefined}
use quota_shift.Browser.{Storage, read_raw}
use quota_shift.Claude.Preferences
use quota_shift.Claude.Saved.{IsNormal, reloaded, load-save_preferences, load-IsNormal}
use quota_shift.Claude.Helpers.{stop_window, helpers-change}
use quota_shift.Claude.Doubles.{Doubles, IsOrdered}
use quota_shift.Claude.Guardrails.{
  missing, used, UsageStatus, claude_account_guardrail_decision, claude_adaptive_poll_interval_secs,
}
use quota_shift.Claude.Adaptive.{Between, adaptive_interval-Between}
use quota_shift.Claude.Hits.{is_hit, hit-base_rate}

abbrev Whole : Type 0
Whole = Option ℕ

abbrev above : Whole → Whole → Bool
above none _ = true
above (some m) none = false
above (some m) (some n) = leb n m

abbrev larger : Whole → Whole → Whole
larger x y = if above x y then x else y

abbrev smaller : Whole → Whole → Whole
smaller x y = if above x y then y else x

abbrev both : (ℕ → ℕ → ℕ) → Whole → Whole → Whole
both f none _ = none
both f (some m) none = none
both f (some m) (some n) = some (f m n)

abbrev less : Whole → Whole → Whole
less none _ = none
less (some m) none = some 0
less (some m) (some n) = some (m - n)

abbrev whole_doubles : Doubles Whole
whole_doubles = record {
  of_nat = λ n. some n;
  backoff = some 1;
  infinity = none;
  is_finite = λ x. elim x [ none ↦ false | some _ ↦ true ];
  at_least = above;
  max = larger;
  min = smaller;
  add = both (λ m n. m + n);
  sub = less;
  mul = both (λ m n. m * n);
  div = both (λ m n. m / n);
  ceil = λ x. x;
  round = λ x. x;
}

product_above :
    (n : ℕ) (x : Whole)
    → 1 ≤ n
    → above x (some 1) ≡ true
    → above (both (λ m k. m * k) (some n) x) (some n) ≡ true
product_above n none low h = refl
product_above n (some zero) low h = cc
product_above n (some (suc k)) low h = ground arith

whole_ordered : IsOrdered whole_doubles
whole_ordered = record {
  at_least_refl = ground arith;
  at_least_trans = ground arith;
  at_least_total = ground arith;
  at_least_antisym = ground arith;
  of_nat_mono = ground arith;
  of_nat_finite = λ n. refl;
  max_left = ground arith;
  max_right = ground arith;
  max_least = ground arith;
  min_left = ground arith;
  min_right = ground arith;
  min_greatest = ground arith;
  infinity_above = ground arith;
  sub_below = ground arith;
  backoff_above = ground arith;
  mul_one = λ n. ground arith;
  round_whole = λ n. refl;
  round_mul_above = product_above;
}

abbrev number_of : String → Number
number_of _ = nan

abbrev old_settings : Storage
old_settings = record {
  entries =
      ("quotashift_claude_guardrails_enabled", "false")
      ∷ ("quotashift_claude_poll_interval_secs", "7")
      ∷ ("quotashift_claude_reduce_low_usage_frequency", "true")
      ∷ [];
  readable = true;
  writable = true;
  removable = true;
}

abbrev handed_over : Preferences.RawPreferences
handed_over = record {
  raw_poll_interval_secs = num (ratio false 4000 0);
  raw_auto_resume_at_reset = bool true;
  raw_only_watch_processing = bool false;
  raw_five_hour = record { raw_enabled = bool true; raw_threshold_pct = str "90" };
  raw_weekly = record { raw_enabled = bool false; raw_threshold_pct = undefined };
  raw_reduce_low_usage = undefined;
}

load-save_preferences_example :
    Preferences.load_claude_preferences number_of
      (Preferences.save_claude_preferences handed_over true old_settings).storage
    ≡ reloaded (Preferences.normalize_claude_preferences handed_over) (some "true")
unfolding read_raw lookup
load-save_preferences_example =
    load-save_preferences number_of handed_over true old_settings refl refl

load-IsNormal_example : IsNormal (Preferences.load_claude_preferences number_of old_settings)
load-IsNormal_example = load-IsNormal number_of old_settings

-- An old master switch that is off overrules the windows, until preferences are saved.
overruled_test : (Preferences.load_claude_preferences number_of old_settings).any_enabled ≡ false
unfolding Preferences.load_claude_preferences lookup
overruled_test = refl

helpers-change_example :
    (Preferences.load_claude_preferences number_of
        (Preferences.save_claude_poll_interval_preference number_of
          (ratio false 9 1)
          true
          old_settings).storage
      ≡ record (Preferences.load_claude_preferences number_of old_settings) {
        poll_interval_secs = Preferences.sanitize_claude_poll_interval (num (ratio false 9 1));
      })
    × (Preferences.load_claude_preferences number_of
          (Preferences.save_claude_stop_threshold_preference number_of nan true
            old_settings).storage
        ≡ record (Preferences.load_claude_preferences number_of old_settings) {
          any_enabled = true;
          five_hour = stop_window nan;
          weekly = stop_window nan;
        })
    × (Preferences.load_claude_preferences number_of
          (Preferences.save_claude_low_usage_reduction_preference number_of false true
            old_settings).storage
        ≡ record (Preferences.load_claude_preferences number_of old_settings) {
          reduce_low_usage = some false;
        })
helpers-change_example =
    helpers-change number_of true old_settings refl refl (ratio false 9 1) nan false

abbrev watching : Preferences.ClaudePreferences
watching = record {
  poll_interval_secs = 20;
  any_enabled = true;
  auto_resume_at_reset = false;
  only_watch_processing = true;
  five_hour = record { enabled = true; threshold_pct = 95 };
  weekly = record { enabled = true; threshold_pct = 98 };
  reduce_low_usage = some true;
}

abbrev account_at : ℕ → Bool → UsageStatus Whole
account_at n is_active = record {
  active = is_active;
  usage_fresh = true;
  error = none;
  five_hour_used = used (some n);
  seven_day_used = missing;
}

abbrev accounts : List (UsageStatus Whole)
accounts = account_at 40 true ∷ account_at 96 true ∷ account_at 99 false ∷ []

adaptive_interval-Between_example :
    Between whole_doubles whole_ordered 20
      (claude_adaptive_poll_interval_secs whole_doubles (some 20) accounts watching)
adaptive_interval-Between_example =
    adaptive_interval-Between whole_doubles whole_ordered 20 accounts watching (omega arith)
      (omega arith)

one_hit : any (is_hit whole_doubles whole_ordered watching) accounts ≡ true
unfolding claude_account_guardrail_decision
one_hit = refl

hit-base_rate_example :
    claude_adaptive_poll_interval_secs whole_doubles (some 20) accounts watching ≡ some 20
hit-base_rate_example =
    hit-base_rate whole_doubles whole_ordered 20 accounts watching (omega arith) (omega arith)
      one_hit

quiet_test :
    claude_adaptive_poll_interval_secs whole_doubles
      (some 20)
      (record (account_at 5 true) { seven_day_used = used (some 5) } ∷ [])
      watching
    ≡ some 300
unfolding claude_adaptive_poll_interval_secs
quiet_test = refl
