-- ===== src/Examples/CliPools.antt =====
-- Rotation pools at concrete inputs.
use quota_shift.Prelude.{
  String, ◌≡◌, refl, true, false, some, List, [], ◌∷◌, contains, All, Distinct, get_by, subst,
}
use quota_shift.Js.{
  Value, bool, str, arr, obj, no_items, element, no_fields, field, get, is_object, trimmed_text,
  array_or_empty, texts_of, is_text, is_false, truthy, trim,
}
use quota_shift.CliPools.{agy, codex, CliRotationPool, Account}
use quota_shift.CliPools.Normalize.{normalize_cli_rotation_pools, pools_value}
use quota_shift.CliPools.Normalize.Invariant.{IsNormal, ids, normalize_cli-IsNormal}
use quota_shift.CliPools.Normalize.Roundtrip.{normalize_cli-pools_value}
use quota_shift.CliPools.Binding.{validate_cli_pool_binding, IsBound, validate_binding-IsBound}
use quota_shift.CliPools.Restore.{RestoredAccounts}

-- The inputs are in lower case already.
abbrev lower : String → String
lower s = s

abbrev accounts : List Account
accounts =
    record { id = "a"; provider = some "codex" }
    ∷ record { id = "b"; provider = some "antigravity" }
    ∷ record { id = "c"; provider = some "codex" }
    ∷ []

abbrev raw_pool : Value
raw_pool = obj (
    field "id" (str " n1") (
      field "provider" (str "codex") (
        field "name" (str "Night") (
          field "enabled" (bool true) (
            field "accountIds"
              (arr (element (str "a") (element (str "b") (element (str " a ") no_items))))
              no_fields)))))

abbrev raw_pools : Value
raw_pools = arr (element raw_pool (element raw_pool no_items))

abbrev night : CliRotationPool
night = record {
  id = "n1";
  provider = codex;
  name = "Night";
  account_ids = "a" ∷ [];
  enabled = true;
  auto_switch = false;
  trigger_windows = "5h" ∷ "weekly" ∷ [];
  fallback_latest_enabled = false;
  switch_when_idle_only = true;
}

normalize_run : normalize_cli_rotation_pools lower raw_pools (some accounts) ≡ night ∷ []
unfolding normalize_cli_rotation_pools get is_object trimmed_text array_or_empty texts_of is_text
    is_false truthy trim contains get_by
normalize_run = refl

normalize_cli-IsNormal_example :
    All
      (IsNormal lower (some accounts))
      (normalize_cli_rotation_pools lower raw_pools (some accounts))
    × Distinct (ids (normalize_cli_rotation_pools lower raw_pools (some accounts)))
normalize_cli-IsNormal_example = normalize_cli-IsNormal lower raw_pools (some accounts)

normal : All (IsNormal lower (some accounts)) (night ∷ []) × Distinct (ids (night ∷ []))
normal =
    subst (λ ps. All (IsNormal lower (some accounts)) ps × Distinct (ids ps)) normalize_run
      normalize_cli-IsNormal_example

normalize_cli-pools_value_example :
    normalize_cli_rotation_pools lower (pools_value (night ∷ [])) (some accounts) ≡ night ∷ []
normalize_cli-pools_value_example =
    normalize_cli-pools_value lower (some accounts) (night ∷ []) normal.0 normal.1

abbrev bindings : Value
bindings = obj (field "codexActivePoolId" (str "n1") (field "agyActivePoolId" (str "n1") no_fields))

validate_binding-IsBound_example :
    (let b = validate_cli_pool_binding bindings (night ∷ []) in
      IsBound (night ∷ []) agy b.agy_active_pool_id
      × IsBound (night ∷ []) codex b.codex_active_pool_id)
validate_binding-IsBound_example = validate_binding-IsBound bindings (night ∷ [])

abbrev restored : RestoredAccounts
restored = record { agy = []; codex = "x" ∷ []; agy_id_map = []; codex_id_map = ("a", "x") ∷ [] }
