-- ===== src/Shortcuts/Saved.antt =====
-- What saved shortcuts load as (src/utils/common/settings/shortcuts.ts).
use quota_shift.Prelude.{
  String, ◌≡◌, refl, ap, ◌∙◌, Bool, true, false, Option, none, some, List, [], ◌∷◌, if◌then◌else◌,
  ◌==◌, arith,
}
use quota_shift.Js.{is_empty, show_bool}
use quota_shift.Browser.{Storage, read_raw, set_items}
use quota_shift.Browser.Keys.{last_written, read_raw-set_items}
use quota_shift.Shortcuts.Preferences.{
  toggle_overlay_key, toggle_overlay_enabled_key, refresh_account_key, refresh_account_enabled_key,
  default_toggle_overlay, default_refresh_account, InAppShortcut, add_account, toggle_theme,
  toggle_card_view, focus_search, refresh_all, open_settings, quit_app, in_app_default, in_app_key,
  ShortcutPreferences, GivenPreferences, given_in_app, set_in_app, text_or, is_on, shown,
  load_in_app, load_shortcut_preferences, field_writes, given_writes, save_shortcut_preferences,
}

-- What is given, or else what was there.
abbrev given_or_old : Option String → Option String → Option String
given_or_old none old = old
given_or_old (some text) old = some text

abbrev last_given : String → List (String × Option String) → Option String → Option String
last_given key [] old = old
last_given key ((name, given) ∷ rest) old =
    last_given key rest (if name == key then given_or_old given old else old)

last_written-given_writes :
    (key : String) (fields : List (String × Option String)) (old : Option String)
    → last_written key (given_writes fields) old ≡ last_given key fields old
unfolding given_writes
last_written-given_writes key [] old = refl
last_written-given_writes key ((name, none) ∷ rest) old =
    last_written-given_writes key rest old ∙ ap (last_given key rest) (ground arith)
last_written-given_writes key ((name, some text) ∷ rest) old =
    last_written-given_writes key rest (if name == key then some text else old)

-- A field after a save: what was loaded before where none is given, and the default where the empty text is.
abbrev pub saved_text : Option String → String → String → String
saved_text none fallback old = old
saved_text (some text) fallback old = if is_empty text then fallback else text

abbrev pub saved_flag : Option Bool → Bool → Bool
saved_flag none old = old
saved_flag (some flag) old = flag

text_or-given :
    (given old : Option String) (fallback : String)
    → text_or (given_or_old given old) fallback ≡ saved_text given fallback (text_or old fallback)
unfolding text_or
text_or-given none old fallback = refl
text_or-given (some text) old fallback = refl

is_on-given :
    (given : Option Bool) (old : Option String)
    → is_on (given_or_old (shown given) old) ≡ saved_flag given (is_on old)
unfolding is_on shown show_bool
is_on-given none old = refl
is_on-given (some true) old = refl
is_on-given (some false) old = refl

-- The preferences that a save leaves, from those that were loaded before.
abbrev pub saved_over : GivenPreferences → ShortcutPreferences → ShortcutPreferences
saved_over prefs old = record {
  toggle_overlay = saved_text prefs.given_toggle_overlay default_toggle_overlay old.toggle_overlay;
  toggle_overlay_enabled = saved_flag prefs.given_toggle_overlay_enabled old.toggle_overlay_enabled;
  refresh_account =
      saved_text prefs.given_refresh_account default_refresh_account old.refresh_account;
  refresh_account_enabled =
      saved_flag prefs.given_refresh_account_enabled old.refresh_account_enabled;
  add_account_shortcut =
      saved_text prefs.given_add_account (in_app_default add_account) old.add_account_shortcut;
  toggle_theme_shortcut =
      saved_text prefs.given_toggle_theme (in_app_default toggle_theme) old.toggle_theme_shortcut;
  toggle_card_view_shortcut =
      saved_text prefs.given_toggle_card_view (in_app_default toggle_card_view)
        old.toggle_card_view_shortcut;
  focus_search_shortcut =
      saved_text prefs.given_focus_search (in_app_default focus_search) old.focus_search_shortcut;
  refresh_all_shortcut =
      saved_text prefs.given_refresh_all (in_app_default refresh_all) old.refresh_all_shortcut;
  open_settings_shortcut =
      saved_text prefs.given_open_settings (in_app_default open_settings)
        old.open_settings_shortcut;
  quit_app_shortcut =
      saved_text prefs.given_quit_app (in_app_default quit_app) old.quit_app_shortcut;
}

module _ (prefs : GivenPreferences) (s : Storage) (readable : s.readable ≡ true)
    (writable : s.writable ≡ true) where
  abbrev after : Storage
  after = set_items (given_writes (field_writes prefs)) s

  read :
      (key : String)
      → read_raw (some after) key ≡ last_given key (field_writes prefs) (read_raw (some s) key)
  read key =
      read_raw-set_items key (given_writes (field_writes prefs)) s readable writable
      ∙ last_written-given_writes key (field_writes prefs) (read_raw (some s) key)

  read_text :
      (key fallback : String) (given : Option String)
      → ((old : Option String) → last_given key (field_writes prefs) old ≡ given_or_old given old)
      → text_or (read_raw (some after) key) fallback
        ≡ saved_text given fallback (text_or (read_raw (some s) key) fallback)
  read_text key fallback given last =
      ap (λ text. text_or text fallback) (read key ∙ last (read_raw (some s) key))
      ∙ text_or-given given (read_raw (some s) key) fallback

  read_flag :
      (key : String) (given : Option Bool)
      → ((old : Option String)
          → last_given key (field_writes prefs) old ≡ given_or_old (shown given) old)
      → is_on (read_raw (some after) key) ≡ saved_flag given (is_on (read_raw (some s) key))
  read_flag key given last =
      ap is_on (read key ∙ last (read_raw (some s) key)) ∙ is_on-given given (read_raw (some s) key)

  read_in_app :
      (key : InAppShortcut)
      → text_or (read_raw (some after) (in_app_key key)) (in_app_default key)
        ≡ saved_text
            (given_in_app key prefs)
            (in_app_default key)
            (text_or (read_raw (some s) (in_app_key key)) (in_app_default key))
  unfolding field_writes
  read_in_app add_account =
      read_text (in_app_key add_account) (in_app_default add_account) prefs.given_add_account
        (λ old. refl)
  read_in_app toggle_theme =
      read_text (in_app_key toggle_theme) (in_app_default toggle_theme) prefs.given_toggle_theme
        (λ old. refl)
  read_in_app toggle_card_view =
      read_text (in_app_key toggle_card_view) (in_app_default toggle_card_view)
        prefs.given_toggle_card_view (λ old. refl)
  read_in_app focus_search =
      read_text (in_app_key focus_search) (in_app_default focus_search) prefs.given_focus_search
        (λ old. refl)
  read_in_app refresh_all =
      read_text (in_app_key refresh_all) (in_app_default refresh_all) prefs.given_refresh_all
        (λ old. refl)
  read_in_app open_settings =
      read_text (in_app_key open_settings) (in_app_default open_settings) prefs.given_open_settings
        (λ old. refl)
  read_in_app quit_app =
      read_text (in_app_key quit_app) (in_app_default quit_app) prefs.given_quit_app (λ old. refl)

  -- What is saved to a storage that can be read and written is loaded again, over what was loaded before: a
  -- field that is not given stays, one that is given is read back, and the empty text as the default shortcut.
  pub load-save_shortcuts :
      load_shortcut_preferences (save_shortcut_preferences prefs (some s))
      ≡ saved_over prefs (load_shortcut_preferences (some s))
  unfolding load_shortcut_preferences save_shortcut_preferences load_in_app set_in_app field_writes
  load-save_shortcuts =
      let overlay =
        read_text toggle_overlay_key default_toggle_overlay prefs.given_toggle_overlay
          (λ old. refl) in
      let refresh =
        read_text refresh_account_key default_refresh_account prefs.given_refresh_account
          (λ old. refl) in
      let overlay_on =
        read_flag toggle_overlay_enabled_key prefs.given_toggle_overlay_enabled (λ old. refl) in
      let refresh_on =
        read_flag refresh_account_enabled_key prefs.given_refresh_account_enabled (λ old. refl) in
      λ i. record {
        toggle_overlay = overlay i;
        toggle_overlay_enabled = overlay_on i;
        refresh_account = refresh i;
        refresh_account_enabled = refresh_on i;
        add_account_shortcut = read_in_app add_account i;
        toggle_theme_shortcut = read_in_app toggle_theme i;
        toggle_card_view_shortcut = read_in_app toggle_card_view i;
        focus_search_shortcut = read_in_app focus_search i;
        refresh_all_shortcut = read_in_app refresh_all i;
        open_settings_shortcut = read_in_app open_settings i;
        quit_app_shortcut = read_in_app quit_app i;
      }
