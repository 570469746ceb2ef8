-- ===== src/Secure/Migration.antt =====
-- The first loading of the secure values and the move of plaintext copies into the backend
-- (src/utils/auth/secure-storage-migration.ts, and `hydrate` of secure-storage.ts).
use quota_shift.Prelude.{
  String, Bool, true, false, ◌&&◌, Option, none, some, List, [], ◌∷◌, ◌++◌, filter, contains,
  unique, lookup, insert, keys, if◌then◌else◌,
}
use quota_shift.Js.{Value, obj, Fields, no_fields, field, find_field}
use quota_shift.Browser.{Storage, remove_item}
use quota_shift.Secure.{Adapter, is_sensitive_storage_key, sensitive_storage_keys}
use quota_shift.Secure.Services.{Services, Result, ok, failed, read_string}

-- `Object.keys(fields)`
unfoldable pub field_names : Fields → List String
field_names no_fields = []
field_names (field name _ rest) = name ∷ field_names rest

-- What the reading phase found: the keys to look at, the backend's values, and the plaintext copies.
pub record Plan : Type 0 where
  pub sensitive_keys : List String
  pub secure_fields : Fields
  pub decrypted : List (String × String)
  pub store_values : List (String × String)
  pub native_values : List (String × String)

-- The sensitive names of all sources, one source after the other.
unfoldable pub sensitive_names : Fields → List String → List String → List String → List String
unfolding field_names
sensitive_names fields store_keys native_keys decrypted_keys =
    sensitive_storage_keys
    ++ (filter is_sensitive_storage_key (field_names fields)
        ++ (filter is_sensitive_storage_key store_keys
            ++ (filter is_sensitive_storage_key native_keys
                ++ filter is_sensitive_storage_key decrypted_keys)))

unfoldable pub all_sensitive_keys : Fields → List String → List String → List String → List String
unfolding sensitive_names unique is_sensitive_storage_key
all_sensitive_keys fields store_keys native_keys decrypted_keys =
    unique (sensitive_names fields store_keys native_keys decrypted_keys)

-- A value that a source has is put under the key.
unfoldable pub note_copy : String → Option String → List (String × String) → List (String × String)
unfolding insert
note_copy key none copies = copies
note_copy key (some value) copies = insert key value copies

module _ {ℓ} {S : Type ℓ} (service : Services S) where
  -- The loop that reads the copies of each key in the store and in the native storage; a native storage
  -- that cannot be read throws.
  unfoldable pub read_copies :
      (store_keys : List String) (native : Storage) (s : S) (names : List String)
      → (store_values native_values : List (String × String))
      → Result (List (String × String) × List (String × String))
  unfolding note_copy read_string contains lookup
  read_copies store_keys native s [] store_values native_values = ok (store_values, native_values)
  read_copies store_keys native s (key ∷ names) store_values native_values =
      elim (service.store_get key s) [
        | failed error ↦ failed error
        | ok value ↦
            (let copy = if contains store_keys key then read_string value else none in
              if native.readable
              then read_copies store_keys native s names (note_copy key copy store_values)
                  (note_copy key (lookup key native.entries) native_values)
              else failed "storage access")
      ]

  -- The phase that only reads.
  unfoldable pub plan_for :
      (native : Storage) (decrypted : List (String × String)) (s : S) (loaded : Value) → Result Plan
  unfolding all_sensitive_keys read_copies
  plan_for native decrypted s (obj fields) = elim (service.store_keys s) [
    | failed error ↦ failed error
    | ok store_keys ↦
        (let names = all_sensitive_keys fields store_keys (keys native.entries) (keys decrypted) in
          elim (read_copies store_keys native s names [] []) [
            | failed error ↦ failed error
            | ok (store_values, native_values) ↦ ok (record {
              sensitive_keys = names;
              secure_fields = fields;
              decrypted = decrypted;
              store_values = store_values;
              native_values = native_values;
            })
          ])
  ]
  plan_for native decrypted s _ = failed "Secure storage returned an invalid value map"

-- `a ?? b`
unfoldable pub or_else : Option String → Option String → Option String
or_else none b = b
or_else (some a) b = some a

-- Decrypted values come before the store's copies, and these before the native ones.
unfoldable pub legacy_value : Plan → String → Option String
unfolding lookup or_else
legacy_value plan key =
    or_else (lookup key plan.decrypted)
      (or_else (lookup key plan.store_values) (lookup key plan.native_values))

module _ {ℓ} {S : Type ℓ} (service : Services S) where
  -- The loop that writes to the backend what it lacks.
  unfoldable pub write_values :
      Plan → List String → List (String × String) → S → S × Result (List (String × String))
  unfolding legacy_value read_string find_field insert
  write_values plan [] migrated s = (s, ok migrated)
  write_values plan (key ∷ names) migrated s =
      elim (read_string (find_field plan.secure_fields key)) [
        | some value ↦ write_values plan names (insert key value migrated) s
        | none ↦ elim (legacy_value plan key) [
          | none ↦ write_values plan names migrated s
          | some value ↦
              (let called = service.set key value s in
                elim called.1 [
                  | some error ↦ (called.0, failed error)
                  | none ↦ write_values plan names (insert key value migrated) called.0
                ])
        ]
      ]

  -- The loop that deletes the store's copies of migrated values; the result says whether any was.
  unfoldable pub delete_copies :
      Plan → List (String × String) → List String → Bool → S → S × Result Bool
  unfolding contains
  delete_copies plan migrated [] changed s = (s, ok changed)
  delete_copies plan migrated (key ∷ names) changed s =
      let called = service.store_delete key s in
      elim (contains (keys migrated) key && contains (keys plan.store_values) key) [
        | false ↦ delete_copies plan migrated names changed s
        | true ↦ elim called.1 [
          | some error ↦ (called.0, failed error)
          | none ↦ delete_copies plan migrated names true called.0
        ]
      ]

-- The loop that removes the native copies of migrated values; a storage that cannot be written throws.
unfoldable pub remove_copies :
    Plan
    → List (String × String)
    → List String
    → Storage
    → Storage × Result (List (String × String))
unfolding remove_item contains
remove_copies plan migrated [] native = (native, ok migrated)
remove_copies plan migrated (key ∷ names) native =
    elim (contains (keys migrated) key && contains (keys plan.native_values) key) [
      | false ↦ remove_copies plan migrated names native
      | true ↦ elim native.writable [
        | true ↦ remove_copies plan migrated names (remove_item key native)
        | false ↦ (native, failed "storage access")
      ]
    ]

module _ {ℓ} {S : Type ℓ} (service : Services S) where
  -- `if (changedStore) await store.save()`
  unfoldable pub save_changed : Bool → S → S × Option String
  save_changed changed s = if changed then service.store_save s else (s, none)

  -- The phases that follow the writes.
  unfoldable pub drop_copies :
      Plan → List (String × String) → Storage → S → S × Storage × Result (List (String × String))
  unfolding delete_copies save_changed remove_copies
  drop_copies plan migrated native s =
      let deleted = delete_copies service plan migrated plan.sensitive_keys false s in
      elim deleted.1 [
        | failed error ↦ (deleted.0, native, failed error)
        | ok changed ↦
            (let saved = save_changed changed deleted.0 in
              elim saved.1 [
                | some error ↦ (saved.0, native, failed error)
                | none ↦
                    (let removed = remove_copies plan migrated plan.sensitive_keys native in
                      (saved.0, removed.0, removed.1))
              ])
      ]

  unfoldable pub carry_out : Plan → Storage → S → S × Storage × Result (List (String × String))
  unfolding write_values drop_copies
  carry_out plan native s =
      let written = write_values service plan plan.sensitive_keys [] s in
      elim written.1 [
        | failed error ↦ (written.0, native, failed error)
        | ok migrated ↦ drop_copies plan migrated native written.0
      ]

  unfoldable pub migrate_legacy_sensitive_values :
      Storage → List (String × String) → S → S × Storage × Result (List (String × String))
  unfolding plan_for carry_out
  migrate_legacy_sensitive_values native decrypted s = elim (service.load s) [
    | failed error ↦ (s, native, failed error)
    | ok loaded ↦ elim (plan_for service native decrypted s loaded) [
      | failed error ↦ (s, native, failed error)
      | ok plan ↦ carry_out plan native s
    ]
  ]

-- The maps after the migration.
unfoldable pub fill_values : List (String × String) → Adapter → Adapter
fill_values migrated a = record a {
  secure_values = migrated;
  persisted_values = migrated;
  mutation_revisions = [];
  hydrated = true;
}

-- Where the migration fails, its error is thrown on.
unfoldable pub after_migration {ℓ} :
    {S : Type ℓ}
    → S × Storage × Result (List (String × String))
    → Adapter
    → S × Adapter × Option String
unfolding fill_values
after_migration (s, native, failed error) a = (s, record a { native = native }, some error)
after_migration (s, native, ok migrated) a =
    (s, fill_values migrated (record a { native = native }), none)

unfoldable pub hydrate {ℓ} :
    {S : Type ℓ} → Services S → List (String × String) → S × Adapter → S × Adapter × Option String
unfolding migrate_legacy_sensitive_values after_migration
hydrate service decrypted (s, a) =
    if a.hydrated
    then (s, a, none)
    else after_migration (migrate_legacy_sensitive_values service a.native decrypted s) a
