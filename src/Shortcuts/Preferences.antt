-- ===== src/Shortcuts/Preferences.antt =====
-- The stored shortcuts: loadShortcutPreferences and saveShortcutPreferences of
-- src/utils/common/settings/shortcuts.ts.
use quota_shift.Prelude.{
  String, Bool, true, not, Option, none, some, List, [], ◌∷◌, map, if◌then◌else◌, ◌==◌,
}
use quota_shift.Js.{is_empty, show_bool}
use quota_shift.Browser.{Storage, read_raw, set_items}

abbrev pub toggle_overlay_key : String
toggle_overlay_key = "quotashift_shortcut_toggle_overlay"

abbrev pub refresh_account_key : String
refresh_account_key = "quotashift_shortcut_refresh_account"

abbrev pub toggle_overlay_enabled_key : String
toggle_overlay_enabled_key = "quotashift_shortcut_toggle_overlay_enabled"

abbrev pub refresh_account_enabled_key : String
refresh_account_enabled_key = "quotashift_shortcut_refresh_account_enabled"

abbrev pub default_toggle_overlay : String
default_toggle_overlay = "CommandOrControl+Alt+D"

abbrev pub default_refresh_account : String
default_refresh_account = "CommandOrControl+Alt+R"

pub data InAppShortcut : Type 0 where
  add_account : InAppShortcut
  toggle_theme : InAppShortcut
  toggle_card_view : InAppShortcut
  focus_search : InAppShortcut
  refresh_all : InAppShortcut
  open_settings : InAppShortcut
  quit_app : InAppShortcut

-- `Object.keys(IN_APP_SHORTCUT_DEFAULTS)`
abbrev pub in_app_shortcuts : List InAppShortcut
in_app_shortcuts =
    add_account ∷ toggle_theme ∷ toggle_card_view ∷ focus_search ∷ refresh_all ∷ open_settings
    ∷ quit_app ∷ []

abbrev pub in_app_default : InAppShortcut → String
in_app_default add_account = "CommandOrControl+N"
in_app_default toggle_theme = "CommandOrControl+L"
in_app_default toggle_card_view = "CommandOrControl+E"
in_app_default focus_search = "CommandOrControl+F"
in_app_default refresh_all = "CommandOrControl+R"
in_app_default open_settings = "CommandOrControl+,"
in_app_default quit_app = "CommandOrControl+Shift+Q"

abbrev pub in_app_key : InAppShortcut → String
in_app_key add_account = "quotashift_in_app_shortcut_add_account"
in_app_key toggle_theme = "quotashift_in_app_shortcut_toggle_theme"
in_app_key toggle_card_view = "quotashift_in_app_shortcut_toggle_card_view"
in_app_key focus_search = "quotashift_in_app_shortcut_focus_search"
in_app_key refresh_all = "quotashift_in_app_shortcut_refresh_all"
in_app_key open_settings = "quotashift_in_app_shortcut_open_settings"
in_app_key quit_app = "quotashift_in_app_shortcut_quit_app"

pub record ShortcutPreferences : Type 0 where
  pub toggle_overlay : String
  pub toggle_overlay_enabled : Bool
  pub refresh_account : String
  pub refresh_account_enabled : Bool
  pub add_account_shortcut : String
  pub toggle_theme_shortcut : String
  pub toggle_card_view_shortcut : String
  pub focus_search_shortcut : String
  pub refresh_all_shortcut : String
  pub open_settings_shortcut : String
  pub quit_app_shortcut : String

-- `Partial<ShortcutPreferences>`: what a save is given.
pub record GivenPreferences : Type 0 where
  pub given_toggle_overlay : Option String
  pub given_toggle_overlay_enabled : Option Bool
  pub given_refresh_account : Option String
  pub given_refresh_account_enabled : Option Bool
  pub given_add_account : Option String
  pub given_toggle_theme : Option String
  pub given_toggle_card_view : Option String
  pub given_focus_search : Option String
  pub given_refresh_all : Option String
  pub given_open_settings : Option String
  pub given_quit_app : Option String

-- `prefs[key]` of a save
abbrev pub given_in_app : InAppShortcut → GivenPreferences → Option String
given_in_app add_account prefs = prefs.given_add_account
given_in_app toggle_theme prefs = prefs.given_toggle_theme
given_in_app toggle_card_view prefs = prefs.given_toggle_card_view
given_in_app focus_search prefs = prefs.given_focus_search
given_in_app refresh_all prefs = prefs.given_refresh_all
given_in_app open_settings prefs = prefs.given_open_settings
given_in_app quit_app prefs = prefs.given_quit_app

-- `prefs[key] = text`
unfoldable pub set_in_app : InAppShortcut → String → ShortcutPreferences → ShortcutPreferences
set_in_app add_account text prefs = record prefs { add_account_shortcut = text }
set_in_app toggle_theme text prefs = record prefs { toggle_theme_shortcut = text }
set_in_app toggle_card_view text prefs = record prefs { toggle_card_view_shortcut = text }
set_in_app focus_search text prefs = record prefs { focus_search_shortcut = text }
set_in_app refresh_all text prefs = record prefs { refresh_all_shortcut = text }
set_in_app open_settings text prefs = record prefs { open_settings_shortcut = text }
set_in_app quit_app text prefs = record prefs { quit_app_shortcut = text }

-- `get(key) || fallback`
unfoldable pub text_or : Option String → String → String
text_or none fallback = fallback
text_or (some text) fallback = if is_empty text then fallback else text

-- `get(key) !== "false"`
unfoldable pub is_on : Option String → Bool
is_on none = true
is_on (some text) = not (text == "false")

-- The loop over the shortcuts inside the application.
unfoldable pub load_in_app :
    Option Storage → List InAppShortcut → ShortcutPreferences → ShortcutPreferences
unfolding set_in_app text_or read_raw
load_in_app storage [] prefs = prefs
load_in_app storage (key ∷ rest) prefs =
    load_in_app storage rest
      (set_in_app key (text_or (read_raw storage (in_app_key key)) (in_app_default key)) prefs)

unfoldable pub load_shortcut_preferences : Option Storage → ShortcutPreferences
unfolding load_in_app text_or is_on read_raw
load_shortcut_preferences storage = load_in_app storage in_app_shortcuts (record {
  toggle_overlay = text_or (read_raw storage toggle_overlay_key) default_toggle_overlay;
  toggle_overlay_enabled = is_on (read_raw storage toggle_overlay_enabled_key);
  refresh_account = text_or (read_raw storage refresh_account_key) default_refresh_account;
  refresh_account_enabled = is_on (read_raw storage refresh_account_enabled_key);
  add_account_shortcut = in_app_default add_account;
  toggle_theme_shortcut = in_app_default toggle_theme;
  toggle_card_view_shortcut = in_app_default toggle_card_view;
  focus_search_shortcut = in_app_default focus_search;
  refresh_all_shortcut = in_app_default refresh_all;
  open_settings_shortcut = in_app_default open_settings;
  quit_app_shortcut = in_app_default quit_app;
})

-- `String(flag)` of a flag that is given
unfoldable pub shown : Option Bool → Option String
unfolding show_bool
shown none = none
shown (some flag) = some (show_bool flag)

-- The writes of a save in their order, those of missing fields included.
unfoldable pub field_writes : GivenPreferences → List (String × Option String)
unfolding shown
field_writes prefs =
    (toggle_overlay_key, prefs.given_toggle_overlay)
    ∷ (toggle_overlay_enabled_key, shown prefs.given_toggle_overlay_enabled)
    ∷ (refresh_account_key, prefs.given_refresh_account)
    ∷ (refresh_account_enabled_key, shown prefs.given_refresh_account_enabled)
    ∷ map (λ key. (in_app_key key, given_in_app key prefs)) in_app_shortcuts

-- `if (value !== undefined) …`, write for write
unfoldable pub given_writes : List (String × Option String) → List (String × String)
given_writes [] = []
given_writes ((key, none) ∷ rest) = given_writes rest
given_writes ((key, some text) ∷ rest) = (key, text) ∷ given_writes rest

unfoldable pub save_shortcut_preferences : GivenPreferences → Option Storage → Option Storage
unfolding field_writes given_writes set_items
save_shortcut_preferences prefs none = none
save_shortcut_preferences prefs (some s) = some (set_items (given_writes (field_writes prefs)) s)
