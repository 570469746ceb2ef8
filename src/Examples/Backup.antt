-- ===== src/Examples/Backup.antt =====
-- Restored accounts at concrete inputs.
use quota_shift.Prelude.{ℕ, ◌+◌, String, ◌≡◌, refl, List, [], ◌∷◌, filter, length}
use quota_shift.Js.{
  Value, null, str, obj, field, no_fields, Fields, find_field, is_object, get, trim, truthy,
  trimmed_text,
}
use quota_shift.Backup.{
  merge_restored_codex_accounts, merge_restored_antigravity_accounts, not_merged, put_field, spread,
  norm_id, same_value, or_value, note_id, fields_of,
}
use quota_shift.Backup.Loop.{IsMerge}
use quota_shift.Backup.Merge.{restore_antigravity-IsMerge}

-- The inputs are in lower case already.
abbrev lower : String → String
lower s = s

abbrev fresh : ℕ → Value
fresh _ = str "new"

abbrev saved : List Fields
saved = field "id" (str "a") (field "email" (str "x@y.z") no_fields) ∷ []

abbrev imports : List Value
imports =
    obj (field "id" (str "b") (field "email" (str " x@y.z ") no_fields))
    ∷ null
    ∷ obj (field "apiKey" (str "k") no_fields)
    ∷ []

same_email_test :
    (merge_restored_codex_accounts lower fresh imports saved).imported_id_map
    ≡ (str "b", str "a") ∷ []
unfolding merge_restored_codex_accounts not_merged put_field spread norm_id same_value or_value
    note_id fields_of find_field is_object get trim truthy trimmed_text
same_email_test = refl

restore_antigravity-IsMerge_example :
    IsMerge saved (merge_restored_antigravity_accounts lower fresh imports saved)
    × ((merge_restored_antigravity_accounts lower fresh imports saved).imported
          + (merge_restored_antigravity_accounts lower fresh imports saved).updated
        ≡ length (filter is_object imports))
restore_antigravity-IsMerge_example = restore_antigravity-IsMerge lower fresh imports saved
