-- ===== src/Examples/Shortcuts.antt =====
-- Runs and instances for the shortcuts (src/utils/common/settings/shortcuts.ts).
use quota_shift.Prelude.{String, ◌≡◌, refl, true, false, none, some, [], ◌∷◌, if◌then◌else◌, ◌==◌}
use quota_shift.Js.{every_char, trim}
use quota_shift.Browser.{Storage}
use quota_shift.Shortcuts.{
  KeyEvent, is_modifier, key_name_from_event, build_shortcut_from_key_event, matches_shortcut_event,
  format_shortcut_display,
}
use quota_shift.Shortcuts.Matching.{IsKeyName, same_combination, matches-built}
use quota_shift.Shortcuts.Preferences.{
  GivenPreferences, load_shortcut_preferences, save_shortcut_preferences,
}
use quota_shift.Shortcuts.Saved.{saved_over, load-save_shortcuts}

-- Capitals of the letters that the runs use.
abbrev capitals : String → String
capitals s = if s == "d" then "D" else s

abbrev control_alt_d : KeyEvent
control_alt_d = record {
  ctrl_key = true;
  alt_key = true;
  shift_key = false;
  meta_key = false;
  key = "d";
  code = some "KeyD";
}

abbrev command_alt_d : KeyEvent
command_alt_d = record control_alt_d { ctrl_key = false; meta_key = true; code = none }

build_test : build_shortcut_from_key_event capitals control_alt_d ≡ some "CommandOrControl+Alt+D"
unfolding build_shortcut_from_key_event
build_test = refl

modifier_alone_test :
    build_shortcut_from_key_event capitals (record control_alt_d { key = "Alt" }) ≡ none
unfolding build_shortcut_from_key_event
modifier_alone_test = refl

match_test : matches_shortcut_event capitals command_alt_d " CmdOrCtrl + Option +d" ≡ true
unfolding matches_shortcut_event
match_test = refl

control_only_test : matches_shortcut_event capitals command_alt_d "Control+Alt+D" ≡ false
unfolding matches_shortcut_event
control_only_test = refl

display_test : format_shortcut_display true "CommandOrControl+Shift+Q" ≡ "Cmd + Shift + Q"
unfolding format_shortcut_display
display_test = refl

d-IsKeyName : IsKeyName "D"
unfolding every_char trim is_modifier
d-IsKeyName = record { no_separator = refl; trimmed = refl; no_modifier = refl }

matches-built_example :
    matches_shortcut_event capitals command_alt_d "CommandOrControl+Alt+D"
    ≡ same_combination capitals "D" command_alt_d control_alt_d
unfolding build_shortcut_from_key_event key_name_from_event
matches-built_example =
    matches-built capitals control_alt_d command_alt_d "D" "CommandOrControl+Alt+D" refl d-IsKeyName
      refl

abbrev stored_shortcuts : Storage
stored_shortcuts = record {
  entries =
      ("quotashift_shortcut_toggle_overlay", "Alt+O")
      ∷ ("quotashift_in_app_shortcut_quit_app", "Alt+Q")
      ∷ [];
  readable = true;
  writable = true;
  removable = true;
}

abbrev given_shortcuts : GivenPreferences
given_shortcuts = record {
  given_toggle_overlay = none;
  given_toggle_overlay_enabled = some false;
  given_refresh_account = some "Alt+R";
  given_refresh_account_enabled = none;
  given_add_account = some "Alt+N";
  given_toggle_theme = none;
  given_toggle_card_view = none;
  given_focus_search = none;
  given_refresh_all = none;
  given_open_settings = none;
  given_quit_app = some "";
}

load-save_shortcuts_example :
    load_shortcut_preferences (save_shortcut_preferences given_shortcuts (some stored_shortcuts))
    ≡ saved_over given_shortcuts (load_shortcut_preferences (some stored_shortcuts))
load-save_shortcuts_example = load-save_shortcuts given_shortcuts stored_shortcuts refl refl
