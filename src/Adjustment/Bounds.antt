-- ===== src/Adjustment/Bounds.antt =====
-- The bounds of the overlay's scale and size, and saved preferences that are loaded (src/utils/common/ui/ui-adjustment.ts).
use quota_shift.Prelude.{
  ℕ, ◌+◌, ◌*◌, ◌≤◌, String, ◌≡◌, refl, ap, ◌∙◌, true, false, Option, none, some, if_holds,
  if_false_holds, Option-cases, inl, inr, arith,
}
use quota_shift.Js.{
  Value, null, str, Number, is_finite, round_nat, of_nat, get, find_field, is_text, is_empty,
  round_nat-of_nat,
}
use quota_shift.Browser.{Storage, set_item, read_raw}
use quota_shift.Browser.Keys.{read_raw-set_item}
use quota_shift.Polling.{clamp}
use quota_shift.Polling.Bounds.{Within, clamp-Within, clamp_of_Within}
use quota_shift.Adjustment.{
  OverlayTheme, glassmorphism, mono, UiPreferences, adjustment_key, scale_limits, clamp_number,
  normalize_overlay_theme, theme_text, preferences_value, get_overlay_base_width,
  get_overlay_base_height, scaled, get_overlay_window_width, get_overlay_window_height, number_of,
  normalize_ui_adjustment_preferences, preferences_in, load_ui_adjustment_preferences,
  save_ui_adjustment_preferences,
}

clamp_number-Within : (x : Number) → Within scale_limits (clamp_number scale_limits x)
unfolding clamp_number
clamp_number-Within x =
    if_holds (Within scale_limits) (is_finite x)
      (clamp-Within scale_limits (round_nat x) (omega arith)) (omega arith, omega arith)

clamp_number_of_Within : (n : ℕ) → Within scale_limits n → clamp_number scale_limits (of_nat n) ≡ n
unfolding clamp_number is_finite
clamp_number_of_Within n h =
    ap (clamp scale_limits) (round_nat-of_nat n) ∙ clamp_of_Within scale_limits n h

theme-theme_text : (t : OverlayTheme) → normalize_overlay_theme (str (theme_text t)) ≡ t
unfolding normalize_overlay_theme theme_text is_text
theme-theme_text glassmorphism = refl
theme-theme_text mono = refl

times_least : (base m n : ℕ) → m ≤ n → base * m ≤ base * n
times_least base m n h = grind (arith, h)

-- A size that was scaled by 80 to 200 percent is between four fifths of the base and twice the base, up to
-- rounding.
scaled-bounds :
    (base scale : ℕ)
    → Within scale_limits scale
    → (8 * base ≤ 10 * scaled base scale + 5) × (scaled base scale ≤ 2 * base)
unfolding scaled
scaled-bounds base scale h =
    let low = times_least base 80 scale h.0 in
    let high = times_least base scale 200 h.1 in (omega (arith, low), omega (arith, high))

module _ (to_number : Value → Number) where
  normalize-preferences_value :
      (p : UiPreferences)
      → Within scale_limits p.overlay_scale
      → normalize_ui_adjustment_preferences to_number (preferences_value p) ≡ p
  unfolding normalize_ui_adjustment_preferences preferences_value number_of get find_field
  normalize-preferences_value p h = λ i. record {
    overlay_scale = clamp_number_of_Within p.overlay_scale h i;
    overlay_theme = theme-theme_text p.overlay_theme i;
  }

  -- The scale is in its limits.
  abbrev InScale : UiPreferences → Type 0
  InScale p = Within scale_limits p.overlay_scale

  normalize-InScale : (v : Value) → InScale (normalize_ui_adjustment_preferences to_number v)
  unfolding normalize_ui_adjustment_preferences
  normalize-InScale v = clamp_number-Within (number_of to_number (get v "overlayScale"))

  module _ (parse : String → Option Value) where
    preferences_in-InScale : (raw : Option String) → InScale (preferences_in to_number parse raw)
    unfolding preferences_in
    preferences_in-InScale none = normalize-InScale null
    preferences_in-InScale (some raw) =
        if_holds InScale (is_empty raw) (normalize-InScale null) (elim (Option-cases (parse raw)) [
          | inl e ↦ rw (e, preferences_in) (normalize-InScale null)
          | inr (parsed, e) ↦ rw (e, preferences_in) (normalize-InScale parsed)
        ])

    load-InScale :
        (storage : Option Storage)
        → InScale (load_ui_adjustment_preferences to_number parse storage)
    unfolding load_ui_adjustment_preferences
    load-InScale storage = preferences_in-InScale (read_raw storage adjustment_key)

    -- Whatever a storage holds, the overlay with the loaded scale is between four fifths of its base size and
    -- twice that, up to rounding, in both directions and for every provider.
    pub overlay_size-bounds :
        (storage : Option Storage) (provider : Option String)
        → (8 * get_overlay_base_width provider
            ≤ 10
                * get_overlay_window_width
                    (load_ui_adjustment_preferences to_number parse storage)
                    provider
              + 5)
          × (get_overlay_window_width
                (load_ui_adjustment_preferences to_number parse storage)
                provider
              ≤ 2 * get_overlay_base_width provider)
          × (8 * get_overlay_base_height provider
              ≤ 10
                  * get_overlay_window_height
                      (load_ui_adjustment_preferences to_number parse storage)
                      provider
                + 5)
          × (get_overlay_window_height
                (load_ui_adjustment_preferences to_number parse storage)
                provider
              ≤ 2 * get_overlay_base_height provider)
    unfolding get_overlay_window_width get_overlay_window_height
    overlay_size-bounds storage provider =
        let scale = (load_ui_adjustment_preferences to_number parse storage).overlay_scale in
        let width = scaled-bounds (get_overlay_base_width provider) scale (load-InScale storage) in
        let height =
          scaled-bounds (get_overlay_base_height provider) scale (load-InScale storage) in
        (width.0, width.1, height.0, height.1)

  module _ (parse : String → Option Value) (stringify : Value → String) where
    abbrev written : Value → Storage → Storage
    written given s =
        set_item adjustment_key
          (stringify (preferences_value (normalize_ui_adjustment_preferences to_number given))) s

    -- Where JSON reads the saved preferences back, what is saved to a storage that can be read and written is
    -- loaded from the storage that is left, in its normal form.
    pub load-save_adjustment :
        (given : Value) (s : Storage)
        → s.readable ≡ true
        → s.writable ≡ true
        → is_empty
            (stringify (preferences_value (normalize_ui_adjustment_preferences to_number given)))
          ≡ false
        → parse
            (stringify (preferences_value (normalize_ui_adjustment_preferences to_number given)))
          ≡ some (preferences_value (normalize_ui_adjustment_preferences to_number given))
        → (save_ui_adjustment_preferences to_number stringify given (some s)
            ≡ some (some (written given s)))
          × (load_ui_adjustment_preferences to_number parse (some (written given s))
              ≡ normalize_ui_adjustment_preferences to_number given)
    unfolding load_ui_adjustment_preferences save_ui_adjustment_preferences preferences_in
    load-save_adjustment given s readable writable nonempty rereads =
        let p = normalize_ui_adjustment_preferences to_number given in
        (
          rw writable,
          ap (preferences_in to_number parse) (
                read_raw-set_item adjustment_key (stringify (preferences_value p)) adjustment_key s
                  readable writable)
              ∙ if_false_holds (λ q. q ≡ p) (is_empty (stringify (preferences_value p))) _ _
                  nonempty
                  (rw (rereads, preferences_in)
                    (normalize-preferences_value p (normalize-InScale given))),
        )
