-- ===== src/Display.antt =====
-- src/utils/common/settings/display-mode.ts: where the quotas are shown.
pub mod Saved
use quota_shift.Prelude.{
  String, Bool, true, false, not, ◌&&◌, Option, none, some, if◌then◌else◌, ◌==◌,
}
use quota_shift.Browser.{Storage, set_item, read_raw}
use quota_shift.Tiers.Text.{has_word}

-- `hidden` is the mode "none".
pub data DisplayMode : Type 0 where
  hidden overlay taskbar : DisplayMode

abbrev pub display_mode_key : String
display_mode_key = "quotashift_display_mode_v1"

abbrev pub display_mode_last_key : String
display_mode_last_key = "quotashift_display_mode_last_v1"

abbrev pub overlay_enabled_key : String
overlay_enabled_key = "quotashift_overlay_enabled"

unfoldable pub mode_text : DisplayMode → String
mode_text hidden = "none"
mode_text overlay = "overlay"
mode_text taskbar = "taskbar"

-- The mode of a text, or `none` where `isDisplayMode` is false.
unfoldable pub mode_named : String → Option DisplayMode
mode_named s =
    if s == "none"
    then some hidden
    else if s == "overlay"
    then some overlay
    else if s == "taskbar"
    then some taskbar
    else none

unfoldable pub is_hidden : DisplayMode → Bool
is_hidden hidden = true
is_hidden _ = false

-- The mode of the legacy flag.
unfoldable pub legacy_mode : Option String → DisplayMode
legacy_mode none = taskbar
legacy_mode (some flag) =
    if flag == "false" then hidden else if flag == "true" then overlay else taskbar

unfoldable pub mode_or : Option DisplayMode → DisplayMode → DisplayMode
mode_or none mode = mode
mode_or (some saved) mode = saved

unfoldable pub saved_mode : Option String → Option DisplayMode
unfolding mode_named
saved_mode none = none
saved_mode (some s) = mode_named s

unfoldable pub load_display_mode : Option Storage → DisplayMode
unfolding mode_or saved_mode legacy_mode
load_display_mode storage =
    mode_or (saved_mode (read_raw storage display_mode_key))
      (legacy_mode (read_raw storage overlay_enabled_key))

-- The three writes of `saveDisplayMode`; the first that throws ends it.
unfoldable pub write_mode : DisplayMode → Storage → Storage
unfolding mode_text is_hidden
write_mode mode s =
    let flagged =
      set_item overlay_enabled_key (if is_hidden mode then "false" else "true")
        (set_item display_mode_key (mode_text mode) s) in
    if is_hidden mode then flagged else set_item display_mode_last_key (mode_text mode) flagged

unfoldable pub save_display_mode : DisplayMode → Option Storage → Option Storage
unfolding write_mode
save_display_mode mode none = none
save_display_mode mode (some s) = some (write_mode mode s)

module _ (lower : String → String) where
  -- The test of the platform ignores case.
  unfoldable pub is_taskbar_supported : String → Bool
  is_taskbar_supported platform =
      let text = lower platform in
      if has_word text "windows"
      then true
      else if has_word text "win32"
      then true
      else has_word text "win64"

  unfoldable pub next_quick_toggle_mode : DisplayMode → String → Bool → DisplayMode
  next_quick_toggle_mode current platform has_tracked_accounts =
      if not has_tracked_accounts then hidden else elim current [
        | hidden ↦ overlay
        | overlay ↦ if is_taskbar_supported platform then taskbar else hidden
        | taskbar ↦ hidden
      ]

  unfoldable pub effective_display_mode : DisplayMode → String → Bool → DisplayMode
  effective_display_mode mode platform has_tracked_accounts =
      if not has_tracked_accounts then hidden else elim mode [
        | hidden ↦ hidden
        | overlay ↦ overlay
        | taskbar ↦ if is_taskbar_supported platform then taskbar else overlay
      ]
