-- ===== src/CliPools/Preferences.antt =====
-- The rotation preferences (src/utils/cli-pools/preferences.ts). `JSON.parse` and `JSON.stringify` are the
-- parameters `parse` (`none` where it throws) and `stringify`.
pub mod Saved
pub mod Hash
use quota_shift.Prelude.{
  ℕ, suc, ◌+◌, ◌*◌, String, Bool, true, false, not, ◌&&◌, Option, none, some, eqb, ltb, leb,
  if◌then◌else◌,
}
use quota_shift.Js.{
  Value, bool, num, str, obj, field, no_fields, Number, nan, infinite, ratio, of_nat, at_least, get,
  is_object, truthy, is_empty, trim, size, every_char,
}
use quota_shift.Browser.{Storage, set_item, read_raw}

abbrev pub preferences_key : String
preferences_key = "quotashift_cli_rotation_prompt_v1"

abbrev pub default_prompt : String
default_prompt = "continue remaining works"

pub record RotationPreferences : Type 0 where
  pub enabled : Bool
  pub continuation_prompt : String
  pub required_fresh_samples : Number
  pub min_sample_separation_secs : Number
  pub graceful_wait_secs : Number
  pub auto_restart : Bool

abbrev pub default_preferences : RotationPreferences
default_preferences = record {
  enabled = false;
  continuation_prompt = default_prompt;
  required_fresh_samples = of_nat 2;
  min_sample_separation_secs = of_nat 5;
  graceful_wait_secs = of_nat 15;
  auto_restart = false;
}

pub data PromptError : Type 0 where
  not_text : PromptError
  empty_prompt : PromptError
  too_long : ℕ → PromptError
  nul_bytes : PromptError

unfoldable pub text_error : String → Option PromptError
unfolding trim size every_char
text_error raw =
    if is_empty (trim raw)
    then some empty_prompt
    else if ltb 2000 (size raw)
    then some (too_long (size raw))
    else if not (every_char (λ c. not (eqb c 0)) raw)
    then some nul_bytes
    else none

-- `none` is a prompt that is valid.
unfoldable pub validate_continuation_prompt : Value → Option PromptError
unfolding text_error
validate_continuation_prompt (str raw) = text_error raw
validate_continuation_prompt _ = some not_text

-- A prompt where it is valid, and else the other one.
unfoldable pub prompt_or : Value → String → String
unfolding text_error
prompt_or (str raw) other = elim (text_error raw) [ none ↦ raw | some _ ↦ other ]
prompt_or _ other = other

-- `x <= k`
unfoldable pub at_most : Number → ℕ → Bool
at_most (ratio false n d) k = leb n (k * suc d)
at_most (ratio true n d) k = true
at_most (infinite negative) k = negative
at_most nan k = false

unfoldable pub samples_or_default : Value → Number
unfolding at_least at_most
samples_or_default (num x) =
    if at_least x 1 && at_most x 10 then x else default_preferences.required_fresh_samples
samples_or_default _ = default_preferences.required_fresh_samples

-- A number of seconds that is not below one, or the default.
unfoldable pub secs_or : Value → Number → Number
unfolding at_least
secs_or (num x) fallback = if at_least x 1 then x else fallback
secs_or _ fallback = fallback

-- What the object that is parsed stands for.
unfoldable pub preferences_of : Value → RotationPreferences
unfolding get truthy prompt_or samples_or_default secs_or
preferences_of parsed = record {
  enabled = truthy (get parsed "enabled");
  continuation_prompt = prompt_or (get parsed "continuationPrompt") default_prompt;
  required_fresh_samples = samples_or_default (get parsed "requiredFreshSamples");
  min_sample_separation_secs =
      secs_or (get parsed "minSampleSeparationSecs") default_preferences.min_sample_separation_secs;
  graceful_wait_secs =
      secs_or (get parsed "gracefulWaitSecs") default_preferences.graceful_wait_secs;
  auto_restart = truthy (get parsed "autoRestartAfterAppStart");
}

-- The value that is stored: the fields in their order.
unfoldable pub preferences_value : RotationPreferences → Value
preferences_value p = obj (
    field "enabled" (bool p.enabled) (
      field "continuationPrompt" (str p.continuation_prompt) (
        field "requiredFreshSamples" (num p.required_fresh_samples) (
          field "minSampleSeparationSecs" (num p.min_sample_separation_secs) (
            field "gracefulWaitSecs" (num p.graceful_wait_secs)
              (field "autoRestartAfterAppStart" (bool p.auto_restart) no_fields))))))

-- `Partial<CliRotationPreferencesV1>`; `none` is a field that is missing.
pub record RotationUpdates : Type 0 where
  pub new_enabled : Option Bool
  pub new_prompt : Option String
  pub new_samples : Option Number
  pub new_separation : Option Number
  pub new_wait : Option Number
  pub new_restart : Option Bool

unfoldable pub given_or {ℓ} : {A : Type ℓ} → Option A → A → A
given_or none old = old
given_or (some new) old = new

-- `{ ...current, ...updates, continuationPrompt }`
unfoldable pub updated : RotationUpdates → RotationPreferences → RotationPreferences
unfolding given_or prompt_or
updated u current = record {
  enabled = given_or u.new_enabled current.enabled;
  continuation_prompt =
      prompt_or (str (given_or u.new_prompt current.continuation_prompt))
        current.continuation_prompt;
  required_fresh_samples = given_or u.new_samples current.required_fresh_samples;
  min_sample_separation_secs = given_or u.new_separation current.min_sample_separation_secs;
  graceful_wait_secs = given_or u.new_wait current.graceful_wait_secs;
  auto_restart = given_or u.new_restart current.auto_restart;
}

-- `reset` of the prompt alone
abbrev pub prompt_reset : RotationUpdates
prompt_reset = record {
  new_enabled = none;
  new_prompt = some default_prompt;
  new_samples = none;
  new_separation = none;
  new_wait = none;
  new_restart = none;
}

module _ (parse : String → Option Value) where
  -- What a stored text stands for: the defaults where it is empty, no JSON, or no object.
  unfoldable pub preferences_in : Option String → RotationPreferences
  unfolding is_object preferences_of
  preferences_in none = default_preferences
  preferences_in (some raw) = if is_empty raw then default_preferences else elim (parse raw) [
    | none ↦ default_preferences
    | some parsed ↦ if is_object parsed then preferences_of parsed else default_preferences
  ]

  unfoldable pub load_cli_rotation_preferences : Option Storage → RotationPreferences
  unfolding read_raw preferences_in
  load_cli_rotation_preferences storage = preferences_in (read_raw storage preferences_key)

-- What a save returns and the storage it leaves.
pub record SavedRotation : Type 0 where
  pub next : RotationPreferences
  pub storage : Option Storage

module _ (stringify : Value → String) where
  -- `s.setItem(key, JSON.stringify(next)); return next`, or `none` where `setItem` throws.
  unfoldable pub store_preferences : RotationPreferences → Option Storage → Option SavedRotation
  unfolding preferences_value set_item
  store_preferences next none = some (record { next = next; storage = none })
  store_preferences next (some s) =
      if s.writable
      then some (record {
        next = next;
        storage = some (set_item preferences_key (stringify (preferences_value next)) s);
      })
      else none

  unfoldable pub reset_cli_rotation_preferences : Option Storage → Option SavedRotation
  unfolding store_preferences
  reset_cli_rotation_preferences storage = store_preferences default_preferences storage

module _ (parse : String → Option Value) (stringify : Value → String) where
  unfoldable pub save_cli_rotation_preferences :
      RotationUpdates → Option Storage → Option SavedRotation
  unfolding load_cli_rotation_preferences updated store_preferences
  save_cli_rotation_preferences updates storage =
      store_preferences stringify (updated updates (load_cli_rotation_preferences parse storage))
        storage

  unfoldable pub reset_continuation_prompt : Option Storage → Option SavedRotation
  unfolding save_cli_rotation_preferences
  reset_continuation_prompt storage = save_cli_rotation_preferences prompt_reset storage
