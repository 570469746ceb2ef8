-- ===== src/Backup/Merge.antt =====
-- What a restore of Codex and of Antigravity accounts keeps and adds.
use quota_shift.Prelude.{
  ℕ, ◌+◌, String, ◌≡◌, refl, ◌∙◌, false, List, length, filter, if◌then◌else◌, ◌==◌, eq_iff, arith,
}
use quota_shift.Js.{Value, Fields, no_fields, field, find_field, is_object, truthy}
use quota_shift.Backup.{
  put_field, delete_field, spread, fields_of, id_of, or_value, not_merged,
  merge_restored_codex_accounts, merge_restored_antigravity_accounts, merged_codex, created_codex,
  refresh_token_of, merged_antigravity, created_antigravity, matches_codex, matches_antigravity,
}
use quota_shift.Backup.Loop.{
  IsMerge, not_merged-IsMerge, merge_imports-IsMerge, merge_imports-count,
}

find-put_field :
    (key other : String) (value : Value) (fs : Fields)
    → find_field (put_field key value fs) other
      ≡ (if key == other then value else find_field fs other)
unfolding put_field find_field
find-put_field key other value no_fields = refl
find-put_field key other value (field name old fs) =
    ground (
      arith,
      find-put_field key other value fs,
      eq_iff name key,
      eq_iff name other,
      eq_iff key other,
    )

find-delete_field :
    (key other : String) (fs : Fields)
    → (key == other) ≡ false
    → find_field (delete_field key fs) other ≡ find_field fs other
unfolding delete_field find_field
find-delete_field key other no_fields h = refl
find-delete_field key other (field name old fs) h =
    ground (
      arith,
      find-delete_field key other fs h,
      eq_iff name key,
      eq_iff name other,
      eq_iff key other,
    )

module _ (lower : String → String) (fresh : ℕ → Value) where
  codex-keeps :
      (existing : Fields) (imp : Value)
      → id_of (merged_codex lower fresh existing imp) ≡ id_of existing
  unfolding merged_codex
  codex-keeps existing imp =
      find-put_field "id" "id" (id_of existing) (spread existing (fields_of imp))

  codex-names : (imp id : Value) → id_of (created_codex lower fresh imp id) ≡ id
  unfolding created_codex
  codex-names imp id = find-put_field "id" "id" id (fields_of imp)

  -- Restoring Codex accounts: the saved accounts keep their ids and places, the imported ones follow,
  -- every noted import points to an id of the result, and each object of the backup is counted once, as
  -- imported or as updated.
  pub restore_codex-IsMerge :
      (imports : List Value) (current : List Fields)
      → IsMerge current (merge_restored_codex_accounts lower fresh imports current)
        × ((merge_restored_codex_accounts lower fresh imports current).imported
              + (merge_restored_codex_accounts lower fresh imports current).updated
            ≡ length (filter is_object imports))
  unfolding merge_restored_codex_accounts not_merged
  restore_codex-IsMerge imports current = (
    merge_imports-IsMerge (matches_codex lower fresh) (merged_codex lower fresh)
        (created_codex lower fresh) fresh codex-keeps codex-names imports current
        (not_merged current) (not_merged-IsMerge current),
    merge_imports-count (matches_codex lower fresh) (merged_codex lower fresh)
          (created_codex lower fresh) fresh codex-keeps codex-names imports (not_merged current)
        ∙ omega arith,
  )

  antigravity-keeps :
      (existing : Fields) (imp : Value)
      → id_of (merged_antigravity lower fresh existing imp) ≡ id_of existing
  unfolding merged_antigravity
  antigravity-keeps existing imp =
      let token =
        or_value (refresh_token_of lower fresh imp) (find_field existing "refreshToken") in
      let named = put_field "id" (id_of existing) (spread existing (fields_of imp)) in
      let merged = put_field "refreshToken" token named in
      find-delete_field "refresh_token" "id"
        (if truthy token then merged else delete_field "refreshToken" merged) refl
      ∙ ground (
        arith,
        find-delete_field "refreshToken" "id" merged refl,
        find-put_field "refreshToken" "id" token named,
        find-put_field "id" "id" (id_of existing) (spread existing (fields_of imp)),
      )

  antigravity-names : (imp id : Value) → id_of (created_antigravity lower fresh imp id) ≡ id
  unfolding created_antigravity
  antigravity-names imp id =
      let token = refresh_token_of lower fresh imp in
      let account = put_field "id" id (fields_of imp) in
      find-delete_field "refresh_token" "id"
        (if truthy token then put_field "refreshToken" token account else account) refl
      ∙ ground (
        arith,
        find-put_field "refreshToken" "id" token account,
        find-put_field "id" "id" id (fields_of imp),
      )

  -- Restoring Antigravity accounts: the saved accounts keep their ids and places, the imported ones
  -- follow, every noted import points to an id of the result, and each object of the backup is counted
  -- once, as imported or as updated.
  pub restore_antigravity-IsMerge :
      (imports : List Value) (current : List Fields)
      → IsMerge current (merge_restored_antigravity_accounts lower fresh imports current)
        × ((merge_restored_antigravity_accounts lower fresh imports current).imported
              + (merge_restored_antigravity_accounts lower fresh imports current).updated
            ≡ length (filter is_object imports))
  unfolding merge_restored_antigravity_accounts not_merged
  restore_antigravity-IsMerge imports current = (
    merge_imports-IsMerge (matches_antigravity lower fresh) (merged_antigravity lower fresh)
        (created_antigravity lower fresh) fresh antigravity-keeps antigravity-names imports current
        (not_merged current) (not_merged-IsMerge current),
    merge_imports-count (matches_antigravity lower fresh) (merged_antigravity lower fresh)
          (created_antigravity lower fresh) fresh antigravity-keeps antigravity-names imports
          (not_merged current)
        ∙ omega arith,
  )
