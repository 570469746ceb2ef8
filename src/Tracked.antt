-- ===== src/Tracked.antt =====
-- Accounts shown in the overlay: the list part of src/utils/common/accounts/tracked-accounts.ts.
pub mod Lists
pub mod Storage
use quota_shift.Prelude.{
  ℕ, String, Bool, true, false, not, ◌&&◌, ◌||◌, Option, none, some, List, [], ◌∷◌, ◌++◌, any,
  filter, find, is_nil, leb, length, if◌then◌else◌, ◌==◌,
}
use quota_shift.Js.{Value, str, get, is_object, trim, is_empty}

pub data TrackedProvider : Type 0 where
  antigravity codex claude : TrackedProvider

pub record TrackedEntry : Type 0 where
  pub provider : TrackedProvider
  pub id : String

pub data ToggleOutcome : Type 0 where
  added removed replaced : ToggleOutcome

pub record Toggled : Type 0 where
  pub list : List TrackedEntry
  pub outcome : ToggleOutcome

unfoldable pub provider_text : TrackedProvider → String
provider_text antigravity = "antigravity"
provider_text codex = "codex"
provider_text claude = "claude"

-- The provider that a text names, or `none` where `isTrackedProvider` is false.
unfoldable pub provider_named : String → Option TrackedProvider
provider_named s =
    if s == "antigravity"
    then some antigravity
    else if s == "codex"
    then some codex
    else if s == "claude"
    then some claude
    else none

unfoldable pub provider_of : Value → Option TrackedProvider
unfolding provider_named
provider_of (str s) = provider_named s
provider_of _ = none

-- `typeof id === "string" && id.trim()`, with the id as it is
unfoldable pub id_of : Value → Option String
id_of (str s) = if is_empty (trim s) then none else some s
id_of _ = none

pub same_provider : TrackedProvider → TrackedProvider → Bool
same_provider antigravity antigravity = true
same_provider codex codex = true
same_provider claude claude = true
same_provider _ _ = false

unfoldable pub same_entry : TrackedEntry → TrackedEntry → Bool
unfolding same_provider
same_entry a b = same_provider a.provider b.provider && a.id == b.id

-- `list.some((existing) => sameEntry(existing, entry))`
unfoldable pub is_tracked : List TrackedEntry → TrackedEntry → Bool
is_tracked list entry = any (λ existing. same_entry existing entry) list

-- The entry of an item of the stored list, if it has one.
unfoldable pub entry_of : Value → Option TrackedEntry
unfolding provider_of id_of
entry_of v = if not (is_object v) then none else elim (provider_of (get v "provider")) [
  | none ↦ none
  | some p ↦ elim (id_of (get v "id")) [
    | none ↦ none
    | some id ↦ some (record { provider = p; id = id })
  ]
]

-- The loop of `cleanList`; `list` has what was pushed, the last one first.
unfoldable pub clean_from : List TrackedEntry → List Value → List TrackedEntry
clean_from list [] = []
clean_from list (v ∷ rest) = elim (entry_of v) [
  | none ↦ clean_from list rest
  | some entry ↦
      let skipping = clean_from list rest in
      let pushing = clean_from (entry ∷ list) rest in
      if is_tracked list entry then skipping else entry ∷ pushing
]

unfoldable pub toggle_tracked_entry : List TrackedEntry → TrackedEntry → Bool → Toggled
toggle_tracked_entry list entry multi =
    if not multi
    then if is_tracked list entry
      then record { list = []; outcome = removed }
      else record { list = entry ∷ []; outcome = replaced }
    else if is_tracked list entry
    then record {
      list = filter (λ existing. not (same_entry existing entry)) list;
      outcome = removed;
    }
    else record { list = list ++ entry ∷ []; outcome = added }

unfoldable pub replace_first : List TrackedEntry → TrackedEntry → List TrackedEntry
replace_first [] entry = entry ∷ []
replace_first (_ ∷ rest) entry = entry ∷ rest

unfoldable pub ensure_primary_entry : List TrackedEntry → TrackedEntry → Bool → List TrackedEntry
unfolding replace_first
ensure_primary_entry list entry multi =
    if is_tracked list entry
    then list
    else if multi && not (is_nil list)
    then replace_first list entry
    else entry ∷ []

-- `primary ? list.find((existing) => sameEntry(existing, primary)) : undefined`
unfoldable pub kept : List TrackedEntry → Option TrackedEntry → Option TrackedEntry
kept list none = none
kept list (some primary) = find (λ existing. same_entry existing primary) list

unfoldable pub trim_tracked_list : List TrackedEntry → Option TrackedEntry → List TrackedEntry
unfolding kept
trim_tracked_list [] primary = []
trim_tracked_list (first ∷ []) primary = first ∷ []
trim_tracked_list (first ∷ second ∷ rest) primary = elim (kept (first ∷ second ∷ rest) primary) [
  | none ↦ first ∷ []
  | some keep ↦ keep ∷ []
]

unfoldable pub ids_of : List TrackedEntry → TrackedProvider → List String
ids_of [] p = []
ids_of (e ∷ rest) p =
    let later = ids_of rest p in if same_provider e.provider p then e.id ∷ later else later

pub record TrackedIds : Type 0 where
  pub antigravity : List String
  pub codex : List String
  pub claude : List String

pub tracked_ids_by_provider : List TrackedEntry → TrackedIds
unfolding ids_of same_provider
tracked_ids_by_provider list = record {
  antigravity = ids_of list antigravity;
  codex = ids_of list codex;
  claude = ids_of list claude;
}
