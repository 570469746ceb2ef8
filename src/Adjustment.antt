-- ===== src/Adjustment.antt =====
-- The scale and the theme of the overlay (src/utils/common/ui/ui-adjustment.ts). `JSON.parse` and
-- `JSON.stringify` are the parameters `parse` (`none` where it throws) and `stringify`, and `to_number` is
-- `Number(value)` of a value that is no number.
pub mod Bounds
use quota_shift.Prelude.{
  ℕ, ◌+◌, ◌*◌, ◌/◌, String, Bool, true, false, ◌||◌, Option, none, some, if◌then◌else◌, ◌==◌,
}
use quota_shift.Js.{
  Value, null, num, str, obj, field, no_fields, Number, is_finite, round_nat, of_nat, get, is_text,
  is_empty,
}
use quota_shift.Browser.{Storage, set_item, read_raw}
use quota_shift.Polling.{Limits, clamp}

-- `mono` is the theme "mono".
pub data OverlayTheme : Type 0 where
  glassmorphism mono : OverlayTheme

pub record UiPreferences : Type 0 where
  pub overlay_scale : ℕ
  pub overlay_theme : OverlayTheme

abbrev pub adjustment_key : String
adjustment_key = "quotashift_ui_adjustment_v1"

abbrev pub scale_limits : Limits
scale_limits = record { least = 80; most = 200; default = 100 }

abbrev pub base_width_wide : ℕ
base_width_wide = 340

abbrev pub base_width_compact : ℕ
base_width_compact = 220

abbrev pub base_height_wide : ℕ
base_height_wide = 80

abbrev pub base_height_compact : ℕ
base_height_compact = 68

unfoldable pub clamp_number : Limits → Number → ℕ
unfolding is_finite clamp round_nat
clamp_number l parsed = if is_finite parsed then clamp l (round_nat parsed) else l.default

unfoldable pub normalize_overlay_theme : Value → OverlayTheme
unfolding is_text
normalize_overlay_theme value =
    if is_text value "mono" || is_text value "black-white" then mono else glassmorphism

unfoldable pub theme_text : OverlayTheme → String
theme_text glassmorphism = "glassmorphism"
theme_text mono = "mono"

unfoldable pub preferences_value : UiPreferences → Value
unfolding theme_text
preferences_value p = obj (
    field "overlayScale" (num (of_nat p.overlay_scale))
      (field "overlayTheme" (str (theme_text p.overlay_theme)) no_fields))

unfoldable pub is_compact : Option String → Bool
is_compact none = false
is_compact (some provider) = provider == "codex" || provider == "claude"

unfoldable pub get_overlay_base_width : Option String → ℕ
unfolding is_compact
get_overlay_base_width provider =
    if is_compact provider then base_width_compact else base_width_wide

unfoldable pub get_overlay_base_height : Option String → ℕ
unfolding is_compact
get_overlay_base_height provider =
    if is_compact provider then base_height_compact else base_height_wide

-- `Math.round((base * scale) / 100)`, with ties up. The product is whole, so that its hundredth is a tie in
-- doubles only where it is one.
unfoldable pub scaled : (base scale : ℕ) → ℕ
scaled base scale = (base * scale + 50) / 100

unfoldable pub get_overlay_window_width : UiPreferences → Option String → ℕ
unfolding scaled get_overlay_base_width
get_overlay_window_width preferences provider =
    scaled (get_overlay_base_width provider) preferences.overlay_scale

unfoldable pub get_overlay_window_height : UiPreferences → Option String → ℕ
unfolding scaled get_overlay_base_height
get_overlay_window_height preferences provider =
    scaled (get_overlay_base_height provider) preferences.overlay_scale

module _ (to_number : Value → Number) where
  unfoldable pub number_of : Value → Number
  number_of (num x) = x
  number_of value = to_number value

  unfoldable pub normalize_ui_adjustment_preferences : Value → UiPreferences
  unfolding number_of clamp_number normalize_overlay_theme get
  normalize_ui_adjustment_preferences input = record {
    overlay_scale = clamp_number scale_limits (number_of (get input "overlayScale"));
    overlay_theme = normalize_overlay_theme (get input "overlayTheme");
  }

  module _ (parse : String → Option Value) where
    unfoldable pub preferences_in : Option String → UiPreferences
    unfolding normalize_ui_adjustment_preferences
    preferences_in none = normalize_ui_adjustment_preferences null
    preferences_in (some raw) =
        if is_empty raw then normalize_ui_adjustment_preferences null else elim (parse raw) [
          | none ↦ normalize_ui_adjustment_preferences null
          | some parsed ↦ normalize_ui_adjustment_preferences parsed
        ]

    unfoldable pub load_ui_adjustment_preferences : Option Storage → UiPreferences
    unfolding preferences_in read_raw
    load_ui_adjustment_preferences storage = preferences_in (read_raw storage adjustment_key)

  module _ (stringify : Value → String) where
    -- The storage that a save leaves, or `none` where `setItem` throws.
    unfoldable pub save_ui_adjustment_preferences : Value → Option Storage → Option (Option Storage)
    unfolding normalize_ui_adjustment_preferences preferences_value set_item
    save_ui_adjustment_preferences preferences none = some none
    save_ui_adjustment_preferences preferences (some s) =
        if s.writable
        then some (
            some (
              set_item adjustment_key
                (stringify (preferences_value (normalize_ui_adjustment_preferences preferences)))
                s))
        else none
