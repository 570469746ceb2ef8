-- ===== src/Examples/Tracked.antt =====
-- Tracked accounts at concrete inputs.
use quota_shift.Prelude.{
  String, ◌≡◌, refl, true, false, not, ◌&&◌, Option, none, some, List, [], ◌∷◌, lookup,
  if◌then◌else◌, ◌==◌,
}
use quota_shift.Js.{is_object, get, Value, trim}
use quota_shift.Browser.{Storage, read_raw}
use quota_shift.Tracked.{
  TrackedEntry, antigravity, codex, claude, same_entry, is_tracked, clean_from, entry_of,
  provider_text, toggle_tracked_entry,
}
use quota_shift.Tracked.Lists.{toggle-is_tracked}
use quota_shift.Tracked.Storage.{list_value, load_tracked_list, untrack_account, is_primary}
use quota_shift.Tracked.Storage.Untrack.{untrack-is_tracked}

abbrev first : TrackedEntry
first = record { provider = codex; id = "a" }

abbrev second : TrackedEntry
second = record { provider = claude; id = "a" }

abbrev third : TrackedEntry
third = record { provider = codex; id = "b" }

abbrev list : List TrackedEntry
list = first ∷ second ∷ []

abbrev storage : Storage
storage = record {
  entries =
      ("quotashift_overlay_tracked_provider", "codex")
      ∷ ("quotashift_overlay_tracked_account_id", "a")
      ∷ ("quotashift_overlay_tracked_v2", "[first,second]")
      ∷ [];
  readable = true;
  writable = true;
  removable = true;
}

-- The two texts of the examples are read.
abbrev parse : String → Option Value
parse text =
    if text == "[first,second]"
    then some (list_value (first ∷ second ∷ []))
    else if text == "[second]"
    then some (list_value (second ∷ []))
    else none

abbrev write_two : Value → String
write_two _ = "[first,second]"

abbrev write_one : Value → String
write_one _ = "[second]"

no_limit_test :
    (toggle_tracked_entry (third ∷ list) (record { provider = antigravity; id = "x" }) true).list
    ≡ third ∷ first ∷ second ∷ record { provider = antigravity; id = "x" } ∷ []
unfolding toggle_tracked_entry is_tracked same_entry
no_limit_test = refl

toggle-is_tracked_example :
    (is_tracked (toggle_tracked_entry list second false).list first
      ≡ (not (is_tracked list second) && same_entry second first))
    × (is_tracked (toggle_tracked_entry list second true).list first
        ≡ (if same_entry second first then not (is_tracked list second) else is_tracked list first))
toggle-is_tracked_example = toggle-is_tracked list second first

untrack-is_tracked_example :
    (is_tracked (untrack_account parse write_one first (some storage)).list second ≡ (
      not (same_entry first second) && is_tracked (load_tracked_list parse (some storage)) second))
    × (is_tracked
          (load_tracked_list parse (untrack_account parse write_one first (some storage)).storage)
          first
        ≡ false)
    × (is_primary (untrack_account parse write_one first (some storage)).storage first ≡ false)
unfolding untrack_account load_tracked_list list_value is_tracked same_entry read_raw clean_from
    trim lookup entry_of is_object get provider_text
untrack-is_tracked_example =
    untrack-is_tracked parse write_one first second storage refl refl (refl, refl)
