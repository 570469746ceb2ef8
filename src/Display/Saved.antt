-- ===== src/Display/Saved.antt =====
-- The saved display mode, and the modes that a platform can show.
use quota_shift.Prelude.{
  String, ◌≡◌, ◌≢◌, refl, true, some, if◌then◌else◌, arith, insert, lookup-insert,
}
use quota_shift.Browser.{Storage, set_item, read_raw}
use quota_shift.Display.{
  DisplayMode, hidden, overlay, taskbar, mode_text, mode_named, saved_mode, mode_or,
  load_display_mode, save_display_mode, write_mode, display_mode_key, display_mode_last_key,
  overlay_enabled_key, is_taskbar_supported, next_quick_toggle_mode, effective_display_mode,
}

mode_named-mode_text : (mode : DisplayMode) → mode_named (mode_text mode) ≡ some mode
unfolding mode_named mode_text
mode_named-mode_text hidden = refl
mode_named-mode_text overlay = refl
mode_named-mode_text taskbar = refl

read-write_mode :
    (mode : DisplayMode) (s : Storage)
    → s.readable ≡ true
    → s.writable ≡ true
    → read_raw (some (write_mode mode s)) display_mode_key ≡ some (mode_text mode)
unfolding read_raw write_mode set_item
read-write_mode mode s readable writable = ground (
  arith,
  lookup-insert display_mode_key display_mode_key (mode_text mode) s.entries,
  lookup-insert overlay_enabled_key display_mode_key "false"
      (insert display_mode_key (mode_text mode) s.entries),
  lookup-insert overlay_enabled_key display_mode_key "true"
      (insert display_mode_key (mode_text mode) s.entries),
  lookup-insert display_mode_last_key display_mode_key (mode_text mode)
      (insert overlay_enabled_key "true" (insert display_mode_key (mode_text mode) s.entries)),
)

-- A mode saved to a storage that can be read and written is the mode that is loaded.
pub load-save_mode :
    (mode : DisplayMode) (s : Storage)
    → s.readable ≡ true
    → s.writable ≡ true
    → load_display_mode (save_display_mode mode (some s)) ≡ mode
unfolding load_display_mode save_display_mode saved_mode mode_or
load-save_mode mode s readable writable =
    ground (arith, read-write_mode mode s readable writable, mode_named-mode_text mode)

module _ (lower : String → String) where
  -- With tracked accounts: the toggle leaves every mode; from the mode that is shown it is back after
  -- three steps where the taskbar is supported and after two where it is not; and the mode that it
  -- picks is shown as it is.
  pub toggle_cycle :
      (mode : DisplayMode) (platform : String)
      → (next_quick_toggle_mode lower mode platform true ≢ mode)
        × (next_quick_toggle_mode lower
              (if is_taskbar_supported lower platform
                then next_quick_toggle_mode lower
                    (next_quick_toggle_mode lower
                      (effective_display_mode lower mode platform true)
                      platform
                      true)
                    platform
                    true
                else next_quick_toggle_mode lower
                    (effective_display_mode lower mode platform true)
                    platform
                    true)
              platform
              true
            ≡ effective_display_mode lower mode platform true)
        × (effective_display_mode lower
              (next_quick_toggle_mode lower mode platform true)
              platform
              true
            ≡ next_quick_toggle_mode lower mode platform true)
  unfolding next_quick_toggle_mode effective_display_mode
  toggle_cycle mode platform = ground arith
