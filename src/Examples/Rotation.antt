-- ===== src/Examples/Rotation.antt =====
-- Runs and instances for the rotation preferences (src/utils/cli-pools/preferences.ts).
use quota_shift.Prelude.{
  String, ◌≡◌, refl, true, false, Option, none, some, [], ◌∷◌, if◌then◌else◌, ◌==◌, lookup,
}
use quota_shift.Js.{Value, bool, str, num, obj, field, no_fields, of_nat}
use quota_shift.Browser.{Storage, set_item}
use quota_shift.CliPools.Preferences.{
  RotationPreferences, RotationUpdates, validate_continuation_prompt, empty_prompt, nul_bytes,
  preferences_value, load_cli_rotation_preferences, save_cli_rotation_preferences, updated,
}
use quota_shift.CliPools.Preferences.Saved.{
  IsPrompt, IsUsable, checked, load-IsUsable, load-save_rotation,
}
use quota_shift.CliPools.Preferences.Hash.{hash_string}

abbrev stored_value : Value
stored_value = obj (
    field "enabled" (bool true) (
      field "continuationPrompt" (str " go on ")
        (field "requiredFreshSamples" (num (of_nat 11)) no_fields)))

abbrev saved_preferences : RotationPreferences
saved_preferences = record {
  enabled = true;
  continuation_prompt = " go on ";
  required_fresh_samples = of_nat 2;
  min_sample_separation_secs = of_nat 0;
  graceful_wait_secs = of_nat 15;
  auto_restart = false;
}

abbrev parse : String → Option Value
parse text =
    if text == "stored"
    then some stored_value
    else if text == "saved"
    then some (preferences_value saved_preferences)
    else none

abbrev stringify : Value → String
stringify _ = "saved"

abbrev storage : Storage
storage = record {
  entries = ("quotashift_cli_rotation_prompt_v1", "stored") ∷ [];
  readable = true;
  writable = true;
  removable = true;
}

-- A blank prompt, which is not taken over, and a separation that is out of its range, which is.
abbrev updates : RotationUpdates
updates = record {
  new_enabled = none;
  new_prompt = some "  ";
  new_samples = none;
  new_separation = some (of_nat 0);
  new_wait = none;
  new_restart = none;
}

blank_test : validate_continuation_prompt (str " \n") ≡ some empty_prompt
unfolding validate_continuation_prompt
blank_test = refl

nul_test : validate_continuation_prompt (str "a\0b") ≡ some nul_bytes
unfolding validate_continuation_prompt
nul_test = refl

merged_test :
    updated updates (load_cli_rotation_preferences parse (some storage)) ≡ saved_preferences
unfolding updated load_cli_rotation_preferences lookup
merged_test = refl

load-IsUsable_example : IsUsable (load_cli_rotation_preferences parse (some storage))
load-IsUsable_example = load-IsUsable parse (some storage)

abbrev merged_here : RotationPreferences
merged_here = updated updates (load_cli_rotation_preferences parse (some storage))

load-save_rotation_example :
    (save_cli_rotation_preferences parse stringify updates (some storage)
      ≡ some (record {
        next = merged_here;
        storage = some (set_item "quotashift_cli_rotation_prompt_v1" "saved" storage);
      }))
    × IsPrompt merged_here.continuation_prompt
    × (load_cli_rotation_preferences parse
          (some (set_item "quotashift_cli_rotation_prompt_v1" "saved" storage))
        ≡ checked merged_here)
unfolding updated load_cli_rotation_preferences lookup
load-save_rotation_example =
    load-save_rotation parse stringify updates storage refl refl (refl, refl)

hash_test : hash_string "go on" ≡ "0e57463c"
unfolding hash_string
hash_test = refl

empty_hash_test : hash_string "" ≡ "811c9dc5"
unfolding hash_string
empty_hash_test = refl
