-- ===== src/Suspension.antt =====
-- Accounts whose polling is paused (src/utils/account/capture/account-poll-suspension.ts). `JSON.parse` and
-- `JSON.stringify` are the parameters `parse` (`none` where it throws) and `stringify`. A provider's list
-- holds texts, as the code writes it.
pub mod Laws
pub mod Written
use quota_shift.Prelude.{
  String, Bool, true, false, not, Option, none, some, List, [], ◌∷◌, ◌++◌, filter, map,
  if◌then◌else◌, ◌==◌, contains,
}
use quota_shift.Js.{
  Value, str, arr, obj, Fields, no_fields, field, find_field, array_or_empty, texts_of, items,
  is_empty,
}
use quota_shift.Browser.{Storage, set_item, read_raw}
use quota_shift.Backup.{put_field}

abbrev pub storage_key : String
storage_key = "quotashift_auth_poll_suspensions_v1"

pub data PollingProvider : Type 0 where
  antigravity : PollingProvider
  codex : PollingProvider

abbrev pub name_of : PollingProvider → String
name_of antigravity = "antigravity"
name_of codex = "codex"

-- The fields of the value that is parsed: none where it is no object, or an array.
unfoldable pub state_of : Option Value → Fields
state_of (some (obj state)) = state
state_of _ = no_fields

-- `storage.getItem(key) || "{}"`
unfoldable pub stored_text : Option String → String
stored_text none = "{}"
stored_text (some raw) = if is_empty raw then "{}" else raw

-- `state[provider] || []`
unfoldable pub suspended_ids : Fields → PollingProvider → List String
unfolding find_field array_or_empty texts_of
suspended_ids state provider = texts_of (array_or_empty (find_field state (name_of provider)))

-- `{ ...state, [provider]: ids }`
unfoldable pub with_ids : PollingProvider → List String → Fields → Fields
unfolding put_field
with_ids provider ids state = put_field (name_of provider) (arr (items (map str ids))) state

-- `[...new Set(ids)]` from the first id on, without those that are `seen`.
unfoldable pub distinct_from : List String → List String → List String
unfolding contains
distinct_from seen [] = []
distinct_from seen (id ∷ rest) =
    let repeated = distinct_from seen rest in
    let added = distinct_from (id ∷ seen) rest in if contains seen id then repeated else id ∷ added

module _ (parse : String → Option Value) where
  unfoldable pub read_state : Option Storage → Fields
  unfolding read_raw stored_text state_of
  read_state none = no_fields
  read_state (some s) =
      if s.readable
      then state_of (parse (stored_text (read_raw (some s) storage_key)))
      else no_fields

  unfoldable pub is_account_polling_suspended : PollingProvider → String → Option Storage → Bool
  unfolding read_state suspended_ids contains
  is_account_polling_suspended provider account_id storage =
      if is_empty account_id
      then false
      else contains (suspended_ids (read_state storage) provider) account_id

module _ (parse : String → Option Value) (stringify : Value → String) where
  unfoldable pub write_state : Fields → Option Storage → Option Storage
  unfolding set_item
  write_state state none = none
  write_state state (some s) = some (set_item storage_key (stringify (obj state)) s)

  unfoldable pub suspend_account_polling :
      PollingProvider → String → Option Storage → Option Storage
  unfolding read_state suspended_ids distinct_from with_ids write_state
  suspend_account_polling provider account_id storage =
      let state = read_state parse storage in
      if is_empty account_id
      then storage
      else write_state
          (with_ids provider (distinct_from [] (suspended_ids state provider ++ account_id ∷ []))
            state)
          storage

  unfoldable pub resume_account_polling : PollingProvider → String → Option Storage → Option Storage
  unfolding read_state suspended_ids contains with_ids write_state
  resume_account_polling provider account_id storage =
      let state = read_state parse storage in
      let current = suspended_ids state provider in
      if is_empty account_id
      then storage
      else if not (contains current account_id)
      then storage
      else write_state (with_ids provider (filter (λ id. not (id == account_id)) current) state)
          storage
