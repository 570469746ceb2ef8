-- ===== src/Tracked/Storage/Untrack.antt =====
-- Loads, saves and removals of tracked accounts, over any storage.
use quota_shift.Prelude.{
  String, ◌≡◌, refl, sym, subst, ◌∙◌, true, false, not, ◌&&◌, Option, some, List, [], ◌∷◌, All, map,
  filter, arith, Option-cases, inl, inr,
}
use quota_shift.Js.{Value, arr, is_empty, elems, elems-items}
use quota_shift.Tracked.{
  TrackedProvider, TrackedEntry, provider_named, is_tracked, same_entry, clean_from,
}
use quota_shift.Tracked.Lists.{same_entry_iff, DistinctEntries, is_tracked-without}
use quota_shift.Browser.{Storage, set_item, read_raw}
use quota_shift.Browser.Keys.{read_raw-set_item}
use quota_shift.Tracked.Storage.{
  entry_value, list_value, write_list, save_tracked_list, load_tracked_list, migrate_legacy_list,
  list_or_legacy_id, list_or_migrated, read_json, is_primary, reassign, untrack_account,
  tracked_list_key, overlay_tracked_provider_key,
}
use quota_shift.Tracked.Storage.Keys.{reassign-is_primary, read_list-reassign}
use quota_shift.Tracked.Storage.Laws.{
  HasId, clean-entry_values, clean-DistinctEntries, clean-values_absent,
}

-- `JSON.stringify` writes a list of entries as a non-empty text that `JSON.parse` reads back.
abbrev pub ReadsBack : (String → Option Value) → (Value → String) → List TrackedEntry → Type 0
ReadsBack parse stringify list =
    (is_empty (stringify (list_value list)) ≡ false)
    × (parse (stringify (list_value list)) ≡ some (list_value list))

module _ (parse : String → Option Value) where
  list_or_legacy_id-DistinctEntries :
      (storage : Option Storage) (p : TrackedProvider) (list : List TrackedEntry)
      → DistinctEntries list
      → DistinctEntries (list_or_legacy_id parse storage p list)
  unfolding list_or_legacy_id is_tracked
  list_or_legacy_id-DistinctEntries storage p (e ∷ list) h = h
  list_or_legacy_id-DistinctEntries storage p [] h = ground arith

  migrate-DistinctEntries :
      (storage : Option Storage) → DistinctEntries (migrate_legacy_list parse storage)
  unfolding migrate_legacy_list
  migrate-DistinctEntries storage =
      elim (Option-cases (read_raw storage overlay_tracked_provider_key)) [
        | inl e ↦ rw (e, DistinctEntries) tt
        | inr e ↦
            rw (e.1, DistinctEntries)
              (elim (Option-cases (provider_named e.0)) [
                | inl n ↦ rw (n, DistinctEntries) tt
                | inr n ↦
                    rw (n.1, DistinctEntries)
                      (list_or_legacy_id-DistinctEntries storage n.0 _ (clean-DistinctEntries [] _))
              ])
      ]

  list_or_migrated-DistinctEntries :
      (storage : Option Storage) (v : Value) → DistinctEntries (list_or_migrated parse storage v)
  unfolding list_or_migrated
  list_or_migrated-DistinctEntries storage (arr vs) = clean-DistinctEntries [] (elems vs)
  list_or_migrated-DistinctEntries storage _ = migrate-DistinctEntries storage

  -- No storage, whatever it holds, loads a list of tracked accounts with an entry that stands twice.
  pub load-DistinctEntries :
      (storage : Option Storage) → DistinctEntries (load_tracked_list parse storage)
  unfolding load_tracked_list
  load-DistinctEntries storage =
      list_or_migrated-DistinctEntries storage (read_json parse storage tracked_list_key)

  read_json-some :
      (storage : Option Storage) (key raw : String) (v : Value)
      → read_raw storage key ≡ some raw
      → is_empty raw ≡ false
      → parse raw ≡ some v
      → read_json parse storage key ≡ v
  unfolding read_json
  read_json-some storage key raw v read full parsed =
      rw (read, read_json) (rw full (rw parsed refl))

module _ (parse : String → Option Value) (stringify : Value → String) where
  -- Distinct entries with ids that are not blank, saved to a storage that can be written and read, load
  -- as they were, where JSON reads them back.
  pub load-save :
      (list : List TrackedEntry) (s : Storage)
      → s.readable ≡ true
      → s.writable ≡ true
      → DistinctEntries list
      → All HasId list
      → ReadsBack parse stringify list
      → load_tracked_list parse (save_tracked_list stringify list (some s)) ≡ list
  unfolding load_tracked_list save_tracked_list write_list set_item read_json read_raw
      list_or_migrated list_value
  load-save list s readable writable distinct ids codec =
      let text = stringify (list_value list) in
      let saved = some (set_item tracked_list_key text s) in
      rw (clean-entry_values list distinct ids) (
        subst (λ v. list_or_migrated parse saved v ≡ list)
          (sym (
            read_json-some parse saved tracked_list_key text (list_value list)
              (read_raw-set_item tracked_list_key text tracked_list_key s readable writable) codec.0
              codec.1))
          (rw (elems-items (map entry_value list)) (clean-entry_values list distinct ids)))

  set_item-writable :
      (key text : String) (s : Storage) → s.writable ≡ true → (set_item key text s).writable ≡ true
  unfolding set_item
  set_item-writable key text s h = ground arith

  -- Untracking an account of a storage that can be read and written: the result and a later load both
  -- lack the account, the result keeps every other account that was tracked, and the account is not
  -- the primary one any more, where JSON reads the saved list back.
  pub untrack-is_tracked :
      (entry other : TrackedEntry) (s : Storage)
      → s.readable ≡ true
      → s.writable ≡ true
      → ReadsBack parse stringify
          (clean_from [] (map entry_value (untrack_account parse stringify entry (some s)).list))
      → (is_tracked (untrack_account parse stringify entry (some s)).list other
          ≡ (not (same_entry entry other) && is_tracked (load_tracked_list parse (some s)) other))
        × (is_tracked
              (load_tracked_list parse (untrack_account parse stringify entry (some s)).storage)
              entry
            ≡ false)
        × (is_primary (untrack_account parse stringify entry (some s)).storage entry ≡ false)
  unfolding untrack_account write_list load_tracked_list list_value list_or_migrated
  untrack-is_tracked entry other s readable writable codec =
      let updated =
        filter (λ existing. not (same_entry existing entry)) (load_tracked_list parse (some s)) in
      let absent =
        (is_tracked-without (load_tracked_list parse (some s)) entry entry
          ∙ ground (arith, same_entry_iff entry entry)) in
      let cleaned = clean_from [] (map entry_value updated) in
      let text = stringify (list_value cleaned) in
      let saved = set_item tracked_list_key text s in
      let after = some (reassign updated entry saved) in
      (
        is_tracked-without (load_tracked_list parse (some s)) entry other,
        subst (λ v. is_tracked (list_or_migrated parse after v) entry ≡ false)
            (sym (
              read_json-some parse after tracked_list_key text (list_value cleaned)
                (read_list-reassign updated entry saved
                  ∙ read_raw-set_item tracked_list_key text tracked_list_key s readable writable)
                codec.0 codec.1))
            (rw (elems-items (map entry_value cleaned))
              (clean-values_absent [] cleaned entry (clean-values_absent [] updated entry absent))),
        reassign-is_primary updated entry saved (set_item-writable tracked_list_key text s writable)
            absent,
      )
