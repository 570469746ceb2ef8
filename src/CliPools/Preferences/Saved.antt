-- ===== src/CliPools/Preferences/Saved.antt =====
-- What the rotation preferences load as, and what a save leaves (src/utils/cli-pools/preferences.ts).
use quota_shift.Prelude.{
  String, ◌≡◌, refl, ap, ◌∙◌, Bool, true, false, ◌&&◌, Option, none, some, if_holds, if_true_holds,
  if_false_holds, Bool-cases, Option-cases, inl, inr, arith,
}
use quota_shift.Js.{
  Value, undefined, null, bool, num, str, arr, obj, Number, at_least, get, is_object, truthy,
  is_empty, find_field,
}
use quota_shift.Browser.{Storage, set_item, read_raw}
use quota_shift.Browser.Keys.{read_raw-set_item}
use quota_shift.CliPools.Preferences.{
  preferences_key, default_prompt, RotationPreferences, default_preferences, text_error,
  validate_continuation_prompt, prompt_or, at_most, samples_or_default, secs_or, preferences_of,
  preferences_value, RotationUpdates, given_or, updated, preferences_in,
  load_cli_rotation_preferences, store_preferences, save_cli_rotation_preferences,
}

abbrev pub IsPrompt : String → Type 0
IsPrompt raw = validate_continuation_prompt (str raw) ≡ none

-- Preferences that the rotation can work with.
pub record IsUsable (p : RotationPreferences) : Type 0 where
  pub prompt_valid : IsPrompt p.continuation_prompt
  pub samples_least : at_least p.required_fresh_samples 1 ≡ true
  pub samples_most : at_most p.required_fresh_samples 10 ≡ true
  pub separation_least : at_least p.min_sample_separation_secs 1 ≡ true
  pub wait_least : at_least p.graceful_wait_secs 1 ≡ true

prompt_or-IsPrompt : (v : Value) (other : String) → IsPrompt other → IsPrompt (prompt_or v other)
unfolding prompt_or validate_continuation_prompt
prompt_or-IsPrompt (str raw) other h = elim (Option-cases (text_error raw)) [
  | inl e ↦ rw (e, prompt_or) e
  | inr e ↦ rw (e.1, prompt_or) h
]
prompt_or-IsPrompt undefined other h = h
prompt_or-IsPrompt null other h = h
prompt_or-IsPrompt (bool _) other h = h
prompt_or-IsPrompt (num _) other h = h
prompt_or-IsPrompt (arr _) other h = h
prompt_or-IsPrompt (obj _) other h = h

prompt_or_of_IsPrompt : (raw other : String) → IsPrompt raw → prompt_or (str raw) other ≡ raw
unfolding prompt_or validate_continuation_prompt
prompt_or_of_IsPrompt raw other h = rw (h, prompt_or)

and_left : (a b : Bool) → (a && b) ≡ true → a ≡ true
and_left a b h = ground arith

and_right : (a b : Bool) → (a && b) ≡ true → b ≡ true
and_right a b h = ground arith

abbrev InSamples : Number → Type 0
InSamples x = (at_least x 1 ≡ true) × (at_most x 10 ≡ true)

samples-InSamples : (v : Value) → InSamples (samples_or_default v)
unfolding samples_or_default at_least at_most
samples-InSamples (num x) = elim (Bool-cases (at_least x 1 && at_most x 10)) [
  | inl e ↦ if_true_holds InSamples _ _ _ e (and_left _ _ e, and_right _ _ e)
  | inr e ↦ if_false_holds InSamples _ _ _ e (refl, refl)
]
samples-InSamples undefined = (refl, refl)
samples-InSamples null = (refl, refl)
samples-InSamples (bool _) = (refl, refl)
samples-InSamples (str _) = (refl, refl)
samples-InSamples (arr _) = (refl, refl)
samples-InSamples (obj _) = (refl, refl)

secs-least :
    (v : Value) (fallback : Number)
    → at_least fallback 1 ≡ true
    → at_least (secs_or v fallback) 1 ≡ true
unfolding secs_or
secs-least (num x) fallback h = elim (Bool-cases (at_least x 1)) [
  | inl e ↦ if_true_holds (λ y. at_least y 1 ≡ true) _ _ _ e e
  | inr e ↦ if_false_holds (λ y. at_least y 1 ≡ true) _ _ _ e h
]
secs-least undefined fallback h = h
secs-least null fallback h = h
secs-least (bool _) fallback h = h
secs-least (str _) fallback h = h
secs-least (arr _) fallback h = h
secs-least (obj _) fallback h = h

default-IsUsable : IsUsable default_preferences
unfolding validate_continuation_prompt at_least at_most
default-IsUsable = record {
  prompt_valid = refl;
  samples_least = refl;
  samples_most = refl;
  separation_least = refl;
  wait_least = refl;
}

preferences_of-IsUsable : (parsed : Value) → IsUsable (preferences_of parsed)
unfolding preferences_of
preferences_of-IsUsable parsed = record {
  prompt_valid =
      prompt_or-IsPrompt (get parsed "continuationPrompt") default_prompt
        default-IsUsable.prompt_valid;
  samples_least = (samples-InSamples (get parsed "requiredFreshSamples")).0;
  samples_most = (samples-InSamples (get parsed "requiredFreshSamples")).1;
  separation_least =
      secs-least (get parsed "minSampleSeparationSecs") _ default-IsUsable.separation_least;
  wait_least = secs-least (get parsed "gracefulWaitSecs") _ default-IsUsable.wait_least;
}

-- The preferences with every number that is out of its range replaced by its default.
abbrev pub checked : RotationPreferences → RotationPreferences
checked p = record p {
  required_fresh_samples = samples_or_default (num p.required_fresh_samples);
  min_sample_separation_secs =
      secs_or (num p.min_sample_separation_secs) default_preferences.min_sample_separation_secs;
  graceful_wait_secs = secs_or (num p.graceful_wait_secs) default_preferences.graceful_wait_secs;
}

preferences_of-preferences_value :
    (p : RotationPreferences)
    → IsPrompt p.continuation_prompt
    → preferences_of (preferences_value p) ≡ checked p
unfolding preferences_of preferences_value get find_field truthy
preferences_of-preferences_value p h = λ i. record (checked p) {
  continuation_prompt = prompt_or_of_IsPrompt p.continuation_prompt default_prompt h i;
}

module _ (parse : String → Option Value) where
  preferences_in-IsUsable : (raw : Option String) → IsUsable (preferences_in parse raw)
  unfolding preferences_in
  preferences_in-IsUsable none = default-IsUsable
  preferences_in-IsUsable (some raw) =
      if_holds IsUsable (is_empty raw) default-IsUsable (elim (Option-cases (parse raw)) [
        | inl e ↦ rw (e, preferences_in) default-IsUsable
        | inr (parsed, e) ↦
            rw (e, preferences_in)
              (if_holds IsUsable (is_object parsed) (preferences_of-IsUsable parsed)
                default-IsUsable)
      ])

  -- Whatever a storage holds, the preferences that are loaded are usable: the prompt is valid, 1 to 10 samples
  -- are required, and the separation and the wait are at least one second.
  pub load-IsUsable :
      (storage : Option Storage) → IsUsable (load_cli_rotation_preferences parse storage)
  unfolding load_cli_rotation_preferences
  load-IsUsable storage = preferences_in-IsUsable (read_raw storage preferences_key)

module _ (parse : String → Option Value) (stringify : Value → String) where
  -- The preferences are read again from the text that is written for them.
  abbrev pub Rereads : RotationPreferences → Type 0
  Rereads p =
      (is_empty (stringify (preferences_value p)) ≡ false)
      × (parse (stringify (preferences_value p)) ≡ some (preferences_value p))

  abbrev written : RotationPreferences → Storage → Storage
  written p s = set_item preferences_key (stringify (preferences_value p)) s

  load-written :
      (p : RotationPreferences) (s : Storage)
      → IsPrompt p.continuation_prompt
      → Rereads p
      → s.readable ≡ true
      → s.writable ≡ true
      → load_cli_rotation_preferences parse (some (written p s)) ≡ checked p
  unfolding load_cli_rotation_preferences preferences_in is_object preferences_value
  load-written p s prompt rereads readable writable =
      ap (preferences_in parse) (
        read_raw-set_item preferences_key (stringify (preferences_value p)) preferences_key s
          readable writable)
      ∙ if_false_holds (λ q. q ≡ checked p) (is_empty (stringify (preferences_value p))) _ _
          rereads.0 (rw (rereads.1, preferences_in) (preferences_of-preferences_value p prompt))

  -- What a save of updates that can be written returns: the updates over what is loaded.
  abbrev pub merged : RotationUpdates → Storage → RotationPreferences
  merged updates s = updated updates (load_cli_rotation_preferences parse (some s))

  updated-IsPrompt :
      (updates : RotationUpdates) (s : Storage) → IsPrompt (merged updates s).continuation_prompt
  unfolding updated
  updated-IsPrompt updates s =
      prompt_or-IsPrompt (str (given_or updates.new_prompt _)) _
        (load-IsUsable parse (some s)).prompt_valid

  -- On a storage that can be read and written, where JSON reads the saved preferences back, a save returns the
  -- updates over what was loaded, with a valid prompt in any case, and leaves a storage from which they are
  -- loaded again, each number that is out of its range as its default.
  pub load-save_rotation :
      (updates : RotationUpdates) (s : Storage)
      → s.readable ≡ true
      → s.writable ≡ true
      → Rereads (merged updates s)
      → (save_cli_rotation_preferences parse stringify updates (some s)
          ≡ some
              (record { next = merged updates s; storage = some (written (merged updates s) s) }))
        × IsPrompt (merged updates s).continuation_prompt
        × (load_cli_rotation_preferences parse (some (written (merged updates s) s))
            ≡ checked (merged updates s))
  unfolding save_cli_rotation_preferences store_preferences
  load-save_rotation updates s readable writable rereads = (
    rw writable,
    updated-IsPrompt updates s,
    load-written (merged updates s) s (updated-IsPrompt updates s) rereads readable writable,
  )
