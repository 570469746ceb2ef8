-- ===== src/Secure.antt =====
-- The adapter for account credentials (src/utils/auth/secure-storage.ts and secure-storage-types.ts):
-- a map that the renderer reads at once, and a chain of writes to the backend of the system.
pub mod Services
pub mod Chain
pub mod Facade
pub mod Settled
pub mod Finishing
pub mod Operations
pub mod Access
pub mod Views
pub mod Separate
pub mod Apart
pub mod Enumeration
pub mod Runs
pub mod Durable
pub mod Failures
pub mod Migration
pub mod Hydration
pub mod Started
pub mod Ending
pub mod Ready
pub mod Migrated
pub mod Planning
pub mod Plans
use text.Mathlib.Text.{starts_with}
use quota_shift.Prelude.{
  ℕ, ◌+◌, String, ◌≡◌, refl, Bool, true, false, not, ◌&&◌, ◌||◌, Option, none, some, List, [], ◌∷◌,
  ◌++◌, contains, lookup, insert, keys, eqb, if◌then◌else◌,
}
use quota_shift.Js.{ends_with}
use quota_shift.Browser.{Storage, set_item, remove_key, remove_item, clear_items, read_raw}

abbrev pub sensitive_storage_keys : List String
sensitive_storage_keys =
    "antigravity-accounts-list" ∷ "antigravity-codex-accounts"
    ∷ "quotashift_local_antigravity_session_v1" ∷ []

unfoldable pub is_sensitive_storage_key : String → Bool
unfolding contains ends_with
is_sensitive_storage_key key =
    contains sensitive_storage_keys key
    || starts_with key "antigravity-" && ends_with key "-accounts"

-- The test that holds where the options give none.
unfoldable pub default_store_backed : String → Bool
default_store_backed key = starts_with key "antigravity-"

-- A queued write; the value `none` is a removal. A secure task keeps the revision of its mutation.
pub data Task : Type 0 where
  store_task : String → Option String → Task
  secure_task : String → Option String → ℕ → Task

-- `write_chain` holds the tasks that have not run yet, oldest first. `mutations` and `errors` are the
-- calls of `onMutation` and `onError`, the newest first.
pub record Adapter : Type 0 where
  pub native : Storage
  pub secure_values : List (String × String)
  pub persisted_values : List (String × String)
  pub mutation_revisions : List (String × ℕ)
  pub write_chain : List Task
  pub queued_failure : Option String
  pub hydrated : Bool
  pub mutations : List String
  pub errors : List String

-- What `Map.set` and `Map.delete` make of a map.
unfoldable pub put : String → Option String → List (String × String) → List (String × String)
unfolding insert remove_key
put key none m = remove_key key m
put key (some value) m = insert key value m

-- `this.mutationRevisions.get(key)`, with 0 for a key without mutations
unfoldable pub revision_of : String → List (String × ℕ) → ℕ
unfolding lookup
revision_of key m = elim (lookup key m) [ none ↦ 0 | some revision ↦ revision ]

unfoldable pub next_revision : String → Adapter → ℕ × Adapter
unfolding revision_of insert
next_revision key a =
    let revision = revision_of key a.mutation_revisions + 1 in
    (revision, record a { mutation_revisions = insert key revision a.mutation_revisions })

unfoldable pub enqueue : Task → Adapter → Adapter
enqueue task a = record a { write_chain = a.write_chain ++ task ∷ [] }

-- `this.mutationRevisions.get(key) === revision`
unfoldable pub is_current : String → ℕ → List (String × ℕ) → Bool
unfolding lookup
is_current key revision m = elim (lookup key m) [ none ↦ false | some now ↦ eqb now revision ]

unfoldable pub restore_to_persisted_value : String → ℕ → Adapter → Adapter
unfolding put lookup is_current
restore_to_persisted_value key revision a =
    if is_current key revision a.mutation_revisions
    then record a { secure_values = put key (lookup key a.persisted_values) a.secure_values }
    else a

unfoldable pub get_item : String → Adapter → Option String
unfolding lookup is_sensitive_storage_key read_raw
get_item key a =
    if is_sensitive_storage_key key
    then lookup key a.secure_values
    else read_raw (some a.native) key

-- The mutation of one sensitive key: `setItem` and `removeItem` after their first branch.
unfoldable pub mutate_secure : String → Option String → Adapter → Adapter
unfolding next_revision enqueue put
mutate_secure key value a =
    let numbered = next_revision key a in
    let changed = numbered.1 in
    enqueue (secure_task key value numbered.0) (record changed {
      secure_values = put key value changed.secure_values;
      mutations = key ∷ changed.mutations;
    })

-- Where the native storage throws, the call ends there.
unfoldable pub set_secure_item : (String → Bool) → String → String → Adapter → Adapter
unfolding is_sensitive_storage_key mutate_secure enqueue set_item
set_secure_item store_backed key value a =
    if is_sensitive_storage_key key
    then mutate_secure key (some value) a
    else if a.native.writable
    then (let written = record a { native = set_item key value a.native } in
        if store_backed key then enqueue (store_task key (some value)) written else written)
    else a

unfoldable pub remove_secure_item : (String → Bool) → String → Adapter → Adapter
unfolding is_sensitive_storage_key mutate_secure enqueue remove_item
remove_secure_item store_backed key a =
    if is_sensitive_storage_key key
    then mutate_secure key none a
    else if a.native.writable
    then (let removed = record a { native = remove_item key a.native } in
        if store_backed key then enqueue (store_task key none) removed else removed)
    else a

-- One round of the loop of `clear`.
unfoldable pub clear_key : String → Adapter → Adapter
unfolding next_revision enqueue
clear_key key a =
    let numbered = next_revision key a in enqueue (secure_task key none numbered.0) numbered.1

-- The loop over the keys that the map had.
unfoldable pub clear_keys : List String → Adapter → Adapter
unfolding clear_key
clear_keys [] a = a
clear_keys (key ∷ names) a = clear_keys names (clear_key key a)

-- The map is emptied first; where the native storage throws, no removal is queued.
unfoldable pub clear_storage : Adapter → Adapter
unfolding clear_keys clear_items
clear_storage a =
    let emptied = record a { secure_values = []; native = clear_items a.native } in
    if a.native.writable then clear_keys (keys a.secure_values) emptied else emptied

-- `await this.writeChain` stands before it: the chain is empty when the failure is read.
unfoldable pub take_failure : Adapter → Option String × Adapter
take_failure a = (a.queued_failure, record a { queued_failure = none })

sensitive_test : is_sensitive_storage_key "antigravity-claude-accounts" ≡ true
unfolding is_sensitive_storage_key
sensitive_test = refl

plain_test : is_sensitive_storage_key "antigravity-theme" ≡ false
unfolding is_sensitive_storage_key
plain_test = refl
