-- ===== src/CliPools/Normalize.antt =====
-- `normalizeCliRotationPools` and `reconcileCliRotationPools` of src/utils/cli-pools/normalize.ts.
-- `lower` stands for `toLowerCase`.
pub mod Invariant
pub mod Roundtrip
use quota_shift.Prelude.{
  String, Bool, true, false, not, ◌&&◌, ◌||◌, Option, none, some, List, [], ◌∷◌, map, contains,
  unique, filter, is_nil, get_by, if◌then◌else◌, ◌==◌,
}
use quota_shift.Js.{
  Value, undefined, null, bool, num, str, arr, obj, no_fields, field, items, elems, get, is_object,
  is_text, is_false, truthy, trimmed_text, array_or_empty, texts_of, is_empty, trim,
}
use quota_shift.CliPools.{CliProvider, agy, codex, CliRotationPool, Account}

abbrev pub valid_windows : List String
valid_windows = "5h" ∷ "weekly" ∷ "monthly" ∷ []

abbrev default_windows : List String
default_windows = "5h" ∷ "weekly" ∷ []

-- `VALID_PROVIDERS.includes(item.provider)`, with the provider that it is
provider_of : Value → Option CliProvider
provider_of v = if is_text v "agy" then some agy else if is_text v "codex" then some codex else none

-- `[...new Set(filtered)]` unless nothing was left
windows_or_default : List String → List String
windows_or_default filtered = if is_nil filtered then default_windows else unique filtered

normalize_trigger_windows : Value → List String
unfolding windows_or_default
normalize_trigger_windows (arr vs) =
    windows_or_default (filter (contains valid_windows) (texts_of (elems vs)))
normalize_trigger_windows _ = default_windows

module _ (lower : String → String) where
  pub matches_provider : Option String → CliProvider → Bool
  matches_provider none p = false
  matches_provider (some account_provider) agy =
      let norm = lower account_provider in
      not (is_empty account_provider) && (norm == "antigravity" || norm == "agy")
  matches_provider (some account_provider) codex =
      not (is_empty account_provider) && lower account_provider == "codex"

  -- The account passes the inner loop's test against the known accounts.
  admits : Option (List Account) → CliProvider → String → Bool
  unfolding matches_provider
  admits none provider id = true
  admits (some accounts) provider id = elim (get_by (λ (a : Account). a.id) accounts id) [
    | none ↦ false
    | some acc ↦ matches_provider acc.provider provider
  ]

  -- The inner loop, over the strings among the account ids.
  collect_from : Option (List Account) → CliProvider → List String → List String → List String
  collect_from known provider seen [] = []
  collect_from known provider seen (raw ∷ raws) =
      let id = trim raw in
      let rest = collect_from known provider seen raws in
      let added = collect_from known provider (id ∷ seen) raws in
      if is_empty id || contains seen id || not (admits known provider id) then rest else id ∷ added

  -- The outer loop's body, past its guard.
  pool_of : Option (List Account) → String → String → CliProvider → Value → CliRotationPool
  pool_of known id name provider item = record {
    id = id;
    provider = provider;
    name = name;
    account_ids =
        collect_from known provider [] (texts_of (array_or_empty (get item "accountIds")));
    enabled = truthy (get item "enabled");
    auto_switch = truthy (get item "autoSwitch");
    trigger_windows = normalize_trigger_windows (get item "triggerWindows");
    fallback_latest_enabled = truthy (get item "fallbackLatestEnabled");
    switch_when_idle_only = not (is_false (get item "switchWhenIdleOnly"));
  }

  -- The pool of an item, or `none` where the loop goes on to the next one.
  read_pool : Option (List Account) → List String → Value → Option CliRotationPool
  read_pool known seen item =
      let id = trimmed_text (get item "id") in
      let name = trimmed_text (get item "name") in
      if not (is_object item) || is_empty id || is_empty name || contains seen id
      then none
      else elim (provider_of (get item "provider")) [
        | none ↦ none
        | some provider ↦ some (pool_of known id name provider item)
      ]

  normalize_from : Option (List Account) → List String → List Value → List CliRotationPool
  normalize_from known seen [] = []
  normalize_from known seen (item ∷ rest) = elim (read_pool known seen item) [
    | none ↦ normalize_from known seen rest
    | some pool ↦ pool ∷ normalize_from known (pool.id ∷ seen) rest
  ]

  unfoldable pub normalize_cli_rotation_pools : Value → Option (List Account) → List CliRotationPool
  unfolding normalize_from read_pool pool_of collect_from admits provider_of
      normalize_trigger_windows
  normalize_cli_rotation_pools value known = normalize_from known [] (array_or_empty value)

-- A pool as the JavaScript object that it is.
provider_text : CliProvider → String
provider_text agy = "agy"
provider_text codex = "codex"

to_value : CliRotationPool → Value
to_value p = obj (
    field "id" (str p.id) (
      field "provider" (str (provider_text p.provider)) (
        field "name" (str p.name) (
          field "accountIds" (arr (items (map str p.account_ids))) (
            field "enabled" (bool p.enabled) (
              field "autoSwitch" (bool p.auto_switch) (
                field "triggerWindows" (arr (items (map str p.trigger_windows))) (
                  field "fallbackLatestEnabled" (bool p.fallback_latest_enabled)
                    (field "switchWhenIdleOnly" (bool p.switch_when_idle_only) no_fields)))))))))

pub pools_value : List CliRotationPool → Value
unfolding to_value provider_text
pools_value pools = arr (items (map to_value pools))

pub reconcile_cli_rotation_pools :
    (String → String) → List CliRotationPool → List Account → List CliRotationPool
unfolding normalize_cli_rotation_pools pools_value
reconcile_cli_rotation_pools lower pools accounts =
    normalize_cli_rotation_pools lower (pools_value pools) (some accounts)
