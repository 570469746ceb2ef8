-- ===== src/Tracked/Storage.antt =====
-- The stored part of src/utils/common/accounts/tracked-accounts.ts. A storage holds texts by key;
-- `JSON.parse` and `JSON.stringify` are the parameters `parse` (`none` where it throws) and `stringify`.
pub mod Laws
pub mod Keys
pub mod Untrack
use quota_shift.Prelude.{
  String, Bool, true, false, not, ◌||◌, Option, none, some, List, [], ◌∷◌, any, filter, is_nil, map,
  if◌then◌else◌, ◌==◌, lookup, insert, contains,
}
use quota_shift.Js.{
  Value, null, bool, str, arr, obj, field, no_fields, get, is_true, is_empty, array_or_empty, elems,
  items,
}
use quota_shift.Browser.{Storage, set_item, remove_key, remove_item, read_raw}
use quota_shift.Tracked.{
  TrackedProvider, antigravity, codex, claude, TrackedEntry, TrackedIds, provider_text,
  provider_named, same_provider, same_entry, clean_from, ids_of, tracked_ids_by_provider,
}

abbrev pub overlay_tracked_provider_key : String
overlay_tracked_provider_key = "quotashift_overlay_tracked_provider"

abbrev pub overlay_tracked_account_id_key : String
overlay_tracked_account_id_key = "quotashift_overlay_tracked_account_id"

abbrev pub tracked_list_key : String
tracked_list_key = "quotashift_overlay_tracked_v2"

abbrev pub legacy_tracked_ids_key : String
legacy_tracked_ids_key = "quotashift_overlay_tracked_ids_v1"

abbrev pub multi_track_key : String
multi_track_key = "quotashift_multi_track_v2"

abbrev pub legacy_multi_track_key : String
legacy_multi_track_key = "quotashift_multi_track_v1"

unfoldable pub read_primary_entry : Option Storage → Option TrackedEntry
unfolding read_raw
read_primary_entry storage = elim (read_raw storage overlay_tracked_provider_key) [
  | none ↦ none
  | some provider ↦ elim (provider_named provider) [
    | none ↦ none
    | some p ↦ elim (read_raw storage overlay_tracked_account_id_key) [
      | none ↦ none
      | some id ↦ if is_empty id then none else some (record { provider = p; id = id })
    ]
  ]
]

unfoldable pub entry_value : TrackedEntry → Value
entry_value e =
    obj (field "provider" (str (provider_text e.provider)) (field "id" (str e.id) no_fields))

unfoldable pub list_value : List TrackedEntry → Value
unfolding entry_value
list_value list = arr (items (map entry_value list))

-- `typeof storage?.removeItem === "function"` decides between removing the primary entry and emptying it.
unfoldable pub forget_primary : Storage → Storage
unfolding set_item remove_item
forget_primary s =
    if s.removable
    then remove_item overlay_tracked_provider_key (remove_item overlay_tracked_account_id_key s)
    else set_item overlay_tracked_provider_key "" (set_item overlay_tracked_account_id_key "" s)

unfoldable pub write_primary : TrackedEntry → Storage → Storage
unfolding set_item
write_primary e s =
    set_item overlay_tracked_account_id_key e.id
      (set_item overlay_tracked_provider_key (provider_text e.provider) s)

unfoldable pub next_primary : List TrackedEntry → Storage → Storage
unfolding write_primary forget_primary
next_primary [] s = forget_primary s
next_primary (e ∷ _) s = write_primary e s

unfoldable pub is_primary : Option Storage → TrackedEntry → Bool
unfolding read_primary_entry
is_primary storage entry = elim (read_primary_entry storage) [
  | none ↦ false
  | some primary ↦ same_entry primary entry
]

module _ (parse : String → Option Value) where
  unfoldable pub read_json : Option Storage → String → Value
  unfolding read_raw
  read_json storage key = elim (read_raw storage key) [
    | none ↦ null
    | some raw ↦ if is_empty raw then null else elim (parse raw) [ none ↦ null | some v ↦ v ]
  ]

  -- `list` where it is not empty, and else the one legacy id.
  unfoldable pub list_or_legacy_id :
      Option Storage → TrackedProvider → List TrackedEntry → List TrackedEntry
  unfolding read_raw
  list_or_legacy_id storage p (e ∷ list) = e ∷ list
  list_or_legacy_id storage p [] = elim (read_raw storage overlay_tracked_account_id_key) [
    | none ↦ []
    | some id ↦ if is_empty id then [] else record { provider = p; id = id } ∷ []
  ]

  unfoldable pub legacy_values : Option Storage → TrackedProvider → List Value
  unfolding read_json
  legacy_values storage p =
      map (λ id. obj (field "provider" (str (provider_text p)) (field "id" id no_fields)))
        (array_or_empty (get (read_json storage legacy_tracked_ids_key) (provider_text p)))

  unfoldable pub migrate_legacy_list : Option Storage → List TrackedEntry
  unfolding read_raw list_or_legacy_id legacy_values
  migrate_legacy_list storage = elim (read_raw storage overlay_tracked_provider_key) [
    | none ↦ []
    | some provider ↦ elim (provider_named provider) [
      | none ↦ []
      | some p ↦ list_or_legacy_id storage p (clean_from [] (legacy_values storage p))
    ]
  ]

  unfoldable pub list_or_migrated : Option Storage → Value → List TrackedEntry
  unfolding migrate_legacy_list
  list_or_migrated storage (arr vs) = clean_from [] (elems vs)
  list_or_migrated storage _ = migrate_legacy_list storage

  unfoldable pub load_tracked_list : Option Storage → List TrackedEntry
  unfolding read_json list_or_migrated
  load_tracked_list storage = list_or_migrated storage (read_json storage tracked_list_key)

  pub load_tracked_ids : Option Storage → TrackedIds
  load_tracked_ids storage = tracked_ids_by_provider (load_tracked_list storage)

  unfoldable pub tracked_claude_account_ids : Option Storage → List String
  unfolding load_tracked_list ids_of read_primary_entry
  tracked_claude_account_ids storage =
      let ids = ids_of (load_tracked_list storage) claude in
      elim (read_primary_entry storage) [
        | none ↦ ids
        | some primary ↦
            if same_provider primary.provider claude
            then if contains ids primary.id then ids else primary.id ∷ ids
            else ids
      ]

  pub load_multi_track_enabled : Option Storage → Bool
  unfolding read_json
  load_multi_track_enabled storage = elim (read_json storage multi_track_key) [
    | bool saved ↦ saved
    | _ ↦
        let legacy = read_json storage legacy_multi_track_key in
        any (λ p. is_true (get legacy (provider_text p))) (antigravity ∷ codex ∷ claude ∷ [])
  ]

module _ (stringify : Value → String) where
  unfoldable pub write_list : List TrackedEntry → Storage → Storage
  unfolding set_item list_value
  write_list list s =
      set_item tracked_list_key (stringify (list_value (clean_from [] (map entry_value list)))) s

  unfoldable pub save_tracked_list : List TrackedEntry → Option Storage → Option Storage
  unfolding write_list
  save_tracked_list list none = none
  save_tracked_list list (some s) = some (write_list list s)

  pub save_multi_track_enabled : Bool → Option Storage → Option Storage
  unfolding set_item
  save_multi_track_enabled enabled none = none
  save_multi_track_enabled enabled (some s) =
      some (set_item multi_track_key (stringify (bool enabled)) s)

  pub clear_tracked_accounts : Option Storage → Option Storage
  unfolding write_list forget_primary set_item
  clear_tracked_accounts none = none
  clear_tracked_accounts (some s) =
      some
        (forget_primary (set_item tracked_list_key (stringify (list_value [])) (write_list [] s)))

pub record Untracked : Type 0 where
  pub list : List TrackedEntry
  pub storage : Option Storage

unfoldable pub reassign : List TrackedEntry → TrackedEntry → Storage → Storage
unfolding is_primary next_primary
reassign updated entry s = if is_primary (some s) entry then next_primary updated s else s

module _ (parse : String → Option Value) (stringify : Value → String) where
  unfoldable pub untrack_account : TrackedEntry → Option Storage → Untracked
  unfolding load_tracked_list write_list reassign
  untrack_account entry storage =
      let updated =
        filter (λ existing. not (same_entry existing entry)) (load_tracked_list parse storage) in
      record {
        list = updated;
        storage = elim storage [
          | none ↦ none
          | some s ↦ some (reassign updated entry (write_list stringify updated s))
        ];
      }
