-- ===== src/Backup.antt =====
-- src/utils/common/backup/app-backup-merge.ts: accounts of a backup are merged into the saved ones. An
-- account is its fields. `toLowerCase` and the generated ids are parameters.
pub mod Loop
pub mod Merge
use quota_shift.Prelude.{
  ℕ, ◌+◌, String, Bool, true, false, not, ◌&&◌, ◌||◌, Option, none, some, List, [], ◌∷◌, ◌++◌,
  find_index, get_elem?, set, length, eqb, ◌*◌, suc, if◌then◌else◌, ◌==◌,
}
use quota_shift.Js.{
  Value, undefined, null, bool, num, str, arr, obj, Fields, no_fields, field, Number, nan, infinite,
  ratio, get, find_field, is_object, truthy, trimmed_text, is_empty,
}

-- `object[key] = value`
unfoldable pub put_field : String → Value → Fields → Fields
put_field key value no_fields = field key value no_fields
put_field key value (field name old fs) =
    let later = put_field key value fs in
    if name == key then field name value fs else field name old later

-- `{ ...base, ...more }`
unfoldable pub spread : Fields → Fields → Fields
unfolding put_field
spread base no_fields = base
spread base (field name value more) = spread (put_field name value base) more

-- `delete object[key]`
unfoldable pub delete_field : String → Fields → Fields
delete_field key no_fields = no_fields
delete_field key (field name value fs) =
    let later = delete_field key fs in if name == key then later else field name value later

-- The fields that a spread copies; an array of a backup has none that the code reads.
unfoldable pub fields_of : Value → Fields
fields_of (obj fs) = fs
fields_of _ = no_fields

same_sign : Bool → Bool → Bool
same_sign true b = b
same_sign false b = not b

unfoldable pub same_number : Number → Number → Bool
unfolding same_sign
same_number nan _ = false
same_number _ nan = false
same_number (infinite a) (infinite b) = same_sign a b
same_number (ratio a n d) (ratio b m e) = eqb (n * suc e) (m * suc d) && (same_sign a b || eqb n 0)
same_number _ _ = false

-- `a === b`; objects of a backup are never the saved ones.
unfoldable pub same_value : Value → Value → Bool
unfolding same_number same_sign
same_value undefined undefined = true
same_value null null = true
same_value (bool a) (bool b) = same_sign a b
same_value (num x) (num y) = same_number x y
same_value (str s) (str t) = s == t
same_value _ _ = false

-- `a || b`
unfoldable pub or_value : Value → Value → Value
or_value a b = if truthy a then a else b

-- `importedIdMap` is the list of its `set` calls, the last one first.
pub record MergedAccounts : Type 0 where
  pub next : List Fields
  pub imported : ℕ
  pub updated : ℕ
  pub imported_id_map : List (Value × Value)

abbrev pub id_of : Fields → Value
id_of account = find_field account "id"

unfoldable pub note_id : Value → Value → List (Value × Value) → List (Value × Value)
note_id old new m = if truthy old then (old, new) ∷ m else m

-- The loop, for one kind of account: which saved account an import is, and the two new objects.
module _ (matches : Value → Fields → Bool) (merged : Fields → Value → Fields)
    (created : Value → Value → Fields) (fresh : ℕ → Value) where
  update_at : ℕ → Value → MergedAccounts → MergedAccounts
  update_at i imp m = elim (get_elem? m.next i) [
    | none ↦ m
    | some existing ↦ record {
      next = set m.next i (merged existing imp);
      imported = m.imported;
      updated = m.updated + 1;
      imported_id_map = note_id (get imp "id") (id_of existing) m.imported_id_map;
    }
  ]

  add_new : Value → MergedAccounts → MergedAccounts
  add_new imp m =
      let id = or_value (get imp "id") (fresh (length m.next)) in
      record {
        next = m.next ++ created imp id ∷ [];
        imported = m.imported + 1;
        updated = m.updated;
        imported_id_map = note_id (get imp "id") id m.imported_id_map;
      }

  pub merge_one : Value → MergedAccounts → MergedAccounts
  unfolding update_at add_new
  merge_one imp m = if not (is_object imp) then m else elim (find_index (matches imp) m.next) [
    | some i ↦ update_at i imp m
    | none ↦ add_new imp m
  ]

  pub merge_imports : List Value → MergedAccounts → MergedAccounts
  unfolding merge_one
  merge_imports [] m = m
  merge_imports (imp ∷ imps) m = merge_imports imps (merge_one imp m)

unfoldable pub not_merged : List Fields → MergedAccounts
not_merged current = record { next = current; imported = 0; updated = 0; imported_id_map = [] }

module _ (lower : String → String) (fresh : ℕ → Value) where
  unfoldable pub norm_id : Value → String
  norm_id v = lower (trimmed_text v)

  -- Neither side has an email, and both have the same credential.
  same_credential : Value → Fields → Value → Value → Bool
  same_credential imp a mine theirs =
      is_empty (norm_id (get imp "email"))
      && is_empty (norm_id (find_field a "email"))
      && truthy mine
      && truthy theirs
      && same_value mine theirs

  same_id_or_email : Value → Fields → Bool
  same_id_or_email imp a =
      (truthy (get imp "id") && same_value (id_of a) (get imp "id"))
      || (not (is_empty (norm_id (get imp "email")))
          && norm_id (find_field a "email") == norm_id (get imp "email"))

  refresh_token_of : Value → Value
  refresh_token_of imp = or_value (get imp "refreshToken") (get imp "refresh_token")

  matches_antigravity : Value → Fields → Bool
  matches_antigravity imp a =
      same_id_or_email imp a
      || same_credential imp a (refresh_token_of imp) (find_field a "refreshToken")
      || same_credential imp a (get imp "token") (find_field a "token")

  merged_antigravity : Fields → Value → Fields
  merged_antigravity existing imp =
      let token = or_value (refresh_token_of imp) (find_field existing "refreshToken") in
      let merged =
        put_field "refreshToken" token
          (put_field "id" (id_of existing) (spread existing (fields_of imp))) in
      delete_field "refresh_token"
        (if truthy token then merged else delete_field "refreshToken" merged)

  created_antigravity : Value → Value → Fields
  created_antigravity imp id =
      let account = put_field "id" id (fields_of imp) in
      delete_field "refresh_token" (
        if truthy (refresh_token_of imp)
        then put_field "refreshToken" (refresh_token_of imp) account
        else account)

  unfoldable pub merge_restored_antigravity_accounts : List Value → List Fields → MergedAccounts
  unfolding merge_imports merge_one update_at add_new matches_antigravity merged_antigravity
      created_antigravity refresh_token_of same_id_or_email same_credential
  merge_restored_antigravity_accounts imports current =
      merge_imports matches_antigravity merged_antigravity created_antigravity fresh imports
        (not_merged current)

  matches_codex : Value → Fields → Bool
  matches_codex imp a =
      same_id_or_email imp a || same_credential imp a (get imp "apiKey") (find_field a "apiKey")

  merged_codex : Fields → Value → Fields
  merged_codex existing imp = put_field "id" (id_of existing) (spread existing (fields_of imp))

  created_codex : Value → Value → Fields
  created_codex imp id = put_field "id" id (fields_of imp)

  unfoldable pub merge_restored_codex_accounts : List Value → List Fields → MergedAccounts
  unfolding merge_imports merge_one update_at add_new matches_codex merged_codex created_codex
      same_id_or_email same_credential
  merge_restored_codex_accounts imports current =
      merge_imports matches_codex merged_codex created_codex fresh imports (not_merged current)
