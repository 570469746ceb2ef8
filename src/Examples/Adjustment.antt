-- ===== src/Examples/Adjustment.antt =====
-- Runs and instances for the overlay's scale and theme (src/utils/common/ui/ui-adjustment.ts).
use quota_shift.Prelude.{
  ◌+◌, ◌*◌, ◌≤◌, String, ◌≡◌, refl, true, false, Option, none, some, [], ◌∷◌, if◌then◌else◌, ◌==◌,
  lookup,
}
use quota_shift.Js.{Value, str, num, obj, field, no_fields, Number, nan, of_nat}
use quota_shift.Browser.{Storage}
use quota_shift.Adjustment.{
  mono, glassmorphism, load_ui_adjustment_preferences, get_overlay_window_width,
  get_overlay_window_height, get_overlay_base_width, get_overlay_base_height,
}
use quota_shift.Adjustment.Bounds.{overlay_size-bounds}

abbrev no_number : Value → Number
no_number _ = nan

abbrev parse : String → Option Value
parse text =
    if text == "huge"
    then some (
        obj (
          field "overlayScale" (num (of_nat 900))
            (field "overlayTheme" (str "black-white") no_fields)))
    else none

abbrev storage : Storage
storage = record {
  entries = ("quotashift_ui_adjustment_v1", "huge") ∷ [];
  readable = true;
  writable = true;
  removable = true;
}

huge_test :
    load_ui_adjustment_preferences no_number parse (some storage)
    ≡ record { overlay_scale = 200; overlay_theme = mono }
unfolding load_ui_adjustment_preferences lookup
huge_test = refl

unreadable_test :
    load_ui_adjustment_preferences no_number parse (some (record storage { readable = false }))
    ≡ record { overlay_scale = 100; overlay_theme = glassmorphism }
unfolding load_ui_adjustment_preferences
unreadable_test = refl

overlay_size-bounds_example :
    (8 * get_overlay_base_width (some "codex")
      ≤ 10
          * get_overlay_window_width
              (load_ui_adjustment_preferences no_number parse (some storage))
              (some "codex")
        + 5)
    × (get_overlay_window_width
          (load_ui_adjustment_preferences no_number parse (some storage))
          (some "codex")
        ≤ 2 * get_overlay_base_width (some "codex"))
    × (8 * get_overlay_base_height (some "codex")
        ≤ 10
            * get_overlay_window_height
                (load_ui_adjustment_preferences no_number parse (some storage))
                (some "codex")
          + 5)
    × (get_overlay_window_height
          (load_ui_adjustment_preferences no_number parse (some storage))
          (some "codex")
        ≤ 2 * get_overlay_base_height (some "codex"))
overlay_size-bounds_example = overlay_size-bounds no_number parse (some storage) (some "codex")
