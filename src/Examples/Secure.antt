-- ===== src/Examples/Secure.antt =====
-- The credential adapter at concrete inputs, beside a disk that refuses one key.
use quota_shift.Prelude.{
  String, ◌≡◌, refl, ap, ◌∙◌, true, false, Option, none, some, List, [], ◌∷◌, lookup, insert,
  lookup-insert, keys, if◌then◌else◌, ◌==◌, arith, contains, length,
}
use quota_shift.Browser.{remove_key}
use quota_shift.Browser.Keys.{lookup-remove_key}
use quota_shift.Js.{Value, str, obj, undefined, Fields, no_fields, field, find_field}
use quota_shift.Secure.{
  store_task, Adapter, get_item, is_sensitive_storage_key, default_store_backed, set_secure_item,
  remove_secure_item, clear_storage,
}
use quota_shift.Secure.Services.{Services, Result, Observed, ok, read_string}
use quota_shift.Secure.Chain.{flush, flush-flush}
use quota_shift.Secure.Migration.{hydrate, migrate_legacy_sensitive_values}
use quota_shift.Secure.Runs.{
  Event, set_call, remove_call, task_step, flush_call, perform, run, Sound,
}
use quota_shift.Secure.Ready.{session, session-agrees}
use quota_shift.Secure.Durable.{flush-set-kept}
use quota_shift.Secure.Failures.{failures, earliest, flush-first_failure}
use quota_shift.Secure.Views.{adapter-refines_map}
use quota_shift.Secure.Separate.{Separate, AllPlain}
use quota_shift.Secure.Apart.{run-Separate}
use quota_shift.Secure.Facade.{key_list, storage_length}
use quota_shift.Secure.Enumeration.{key_list_complete, is_some}
use quota_shift.Secure.Migrated.{Saved, migrate-keeps_copies}

-- The texts of the backend and of the plain store, and the key that the backend refuses.
record Disk : Type 0 where
  secure : List (String × String)
  plain : List (String × String)
  refused : String

fields_of : List (String × String) → Fields
fields_of [] = no_fields
fields_of ((key, text) ∷ rest) = field key (str text) (fields_of rest)

write_disk : String → String → Disk → Disk × Option String
write_disk key text d =
    if key == d.refused
    then (d, some "refused")
    else (record d { secure = insert key text d.secure }, none)

erase_disk : String → Disk → Disk × Option String
erase_disk key d =
    if key == d.refused
    then (d, some "refused")
    else (record d { secure = remove_key key d.secure }, none)

stored : String → Disk → Value
unfolding lookup
stored key d = elim (lookup key d.plain) [ none ↦ undefined | some text ↦ str text ]

abbrev disk_services : Services Disk
disk_services = record {
  load = λ d. ok (obj (fields_of d.secure));
  set = write_disk;
  delete = erase_disk;
  store_keys = λ d. ok (keys d.plain);
  store_get = λ key d. ok (stored key d);
  store_set = λ key text d. (record d { plain = insert key text d.plain }, none);
  store_delete = λ key d. (record d { plain = remove_key key d.plain }, none);
  store_save = λ d. (d, none);
}

lookup-fields_of :
    (m : List (String × String)) (key : String)
    → lookup key m ≡ read_string (find_field (fields_of m) key)
unfolding lookup fields_of find_field read_string
lookup-fields_of [] key = refl
lookup-fields_of ((name, text) ∷ m) key = ground (arith, lookup-fields_of m key)

write_ok :
    (key value other : String) (d : Disk)
    → (write_disk key value d).1 ≡ none
    → lookup other (write_disk key value d).0.secure
      ≡ (if key == other then some value else lookup other d.secure)
unfolding write_disk
write_ok key value other d e = ground (arith, lookup-insert key other value d.secure)

write_failed :
    (key value other error : String) (d : Disk)
    → (write_disk key value d).1 ≡ some error
    → lookup other (write_disk key value d).0.secure ≡ lookup other d.secure
unfolding write_disk
write_failed key value other error d e = ground arith

erase_ok :
    (key other : String) (d : Disk)
    → (erase_disk key d).1 ≡ none
    → lookup other (erase_disk key d).0.secure
      ≡ (if key == other then none else lookup other d.secure)
unfolding erase_disk
erase_ok key other d e = ground (arith, lookup-remove_key key other d.secure)

erase_failed :
    (key other error : String) (d : Disk)
    → (erase_disk key d).1 ≡ some error
    → lookup other (erase_disk key d).0.secure ≡ lookup other d.secure
unfolding erase_disk
erase_failed key other error d e = ground arith

object_fields : Result Value → Fields
object_fields (ok (obj fs)) = fs
object_fields _ = no_fields

load_agrees :
    (fs : Fields) (key : String) (d : Disk)
    → disk_services.load d ≡ ok (obj fs)
    → lookup key d.secure ≡ read_string (find_field fs key)
unfolding object_fields
load_agrees fs key d e =
    lookup-fields_of d.secure key ∙ ap (λ r. read_string (find_field (object_fields r) key)) e

abbrev disk_observed : Observed disk_services
disk_observed = record {
  kept = λ key d. lookup key d.secure;
  load_ok = load_agrees;
  set_ok = write_ok;
  set_failed = write_failed;
  delete_ok = erase_ok;
  delete_failed = erase_failed;
  store_set_apart = λ key value other s. refl;
  store_delete_apart = λ key other s. refl;
  store_save_apart = λ other s. refl;
}

abbrev fresh_adapter : Adapter
fresh_adapter = record {
  native = record {
    entries = ("antigravity-theme", "dark") ∷ ("antigravity-claude-accounts", "old") ∷ [];
    readable = true;
    writable = true;
    removable = true;
  };
  secure_values = [];
  persisted_values = [];
  mutation_revisions = [];
  write_chain = [];
  queued_failure = none;
  hydrated = false;
  mutations = [];
  errors = [];
}

-- The backend has one value, and refuses to change it.
abbrev disk : Disk
disk = record {
  secure = ("antigravity-codex-accounts", "first") ∷ [];
  plain = ("antigravity-theme", "light") ∷ [];
  refused = "antigravity-codex-accounts";
}

abbrev calls : List Event
calls =
    set_call "antigravity-codex-accounts" "second"
    ∷ set_call "antigravity-claude-accounts" "new"
    ∷ set_call "antigravity-theme" "light"
    ∷ task_step
    ∷ remove_call "antigravity-claude-accounts"
    ∷ flush_call
    ∷ []

codex_sensitive : is_sensitive_storage_key "antigravity-codex-accounts" ≡ true
unfolding is_sensitive_storage_key
codex_sensitive = refl

claude_sensitive : is_sensitive_storage_key "antigravity-claude-accounts" ≡ true
unfolding is_sensitive_storage_key
claude_sensitive = refl

hydrated_well : (hydrate disk_services [] (disk, fresh_adapter)).2 ≡ none
unfolding hydrate write_disk erase_disk fields_of stored
hydrated_well = refl

abbrev ended : Disk × Adapter
ended = session disk_services default_store_backed [] calls (disk, fresh_adapter)

session-agrees_example :
    (get_item "antigravity-codex-accounts" ended.1
      ≡ lookup "antigravity-codex-accounts" ended.0.secure)
    × AllPlain ended.1.native
session-agrees_example =
    session-agrees disk_observed default_store_backed [] calls "antigravity-codex-accounts" disk
      fresh_adapter refl refl refl hydrated_well codex_sensitive

-- The refused write is rolled back, the removed key is gone, and the plain key is written.
session_test :
    (get_item "antigravity-codex-accounts" ended.1 ≡ some "first")
    × (get_item "antigravity-claude-accounts" ended.1 ≡ none)
    × (get_item "antigravity-theme" ended.1 ≡ some "light")
    × (ended.1.errors ≡ "refused" ∷ [])
    × (lookup "antigravity-theme" ended.0.plain ≡ some "light")
unfolding session get_item perform write_disk erase_disk fields_of stored default_store_backed flush
    remove_secure_item set_secure_item
session_test = (refl, refl, refl, refl, refl)

-- An adapter with one queued write, after its hydration.
abbrev ready_adapter : Adapter
ready_adapter = record fresh_adapter {
  native = record {
    entries = ("antigravity-theme", "dark") ∷ [];
    readable = true;
    writable = true;
    removable = true;
  };
  secure_values = ("antigravity-codex-accounts", "first") ∷ [];
  persisted_values = ("antigravity-codex-accounts", "first") ∷ [];
  write_chain = store_task "antigravity-theme" (some "dark") ∷ [];
  hydrated = true;
}

ready_Separate : Separate ready_adapter
unfolding is_sensitive_storage_key
ready_Separate = record {
  native_plain = (refl, tt);
  secure_sensitive = (refl, tt);
  secure_distinct = (refl, tt);
  chain_sensitive = (tt, tt);
}

ready_Sound : (key : String) → Sound disk_observed key (disk, ready_adapter)
ready_Sound key = record {
  writable = refl;
  settled = record { tail = tt; agreed = λ _. refl };
  persisted = refl;
}

claude_copy : lookup "antigravity-claude-accounts" fresh_adapter.native.entries ≡ some "old"
unfolding lookup
claude_copy = refl

new_set_quietly :
    (flush disk_services (
      disk,
      set_secure_item default_store_backed "antigravity-claude-accounts" "new" ready_adapter,
    )).0
    ≡ none
unfolding flush set_secure_item write_disk
new_set_quietly = refl

run-Separate_example :
    Separate (run disk_services default_store_backed calls (disk, ready_adapter)).1
run-Separate_example =
    run-Separate disk_services default_store_backed calls disk ready_adapter ready_Separate

key_list_complete_example :
    (contains (key_list ready_adapter) "antigravity-theme"
      ≡ is_some (get_item "antigravity-theme" ready_adapter))
    × (length (key_list ready_adapter) ≡ storage_length ready_adapter)
key_list_complete_example = key_list_complete ready_adapter "antigravity-theme" ready_Separate refl

key_list_test : key_list ready_adapter ≡ "antigravity-theme" ∷ "antigravity-codex-accounts" ∷ []
unfolding key_list
key_list_test = refl

adapter-refines_map_example :
    (get_item "antigravity-codex-accounts"
        (set_secure_item default_store_backed "antigravity-theme" "light" ready_adapter)
      ≡ get_item "antigravity-codex-accounts" ready_adapter)
    × (get_item "antigravity-codex-accounts"
          (remove_secure_item default_store_backed "antigravity-theme" ready_adapter)
        ≡ get_item "antigravity-codex-accounts" ready_adapter)
    × (get_item "antigravity-codex-accounts" (clear_storage ready_adapter) ≡ none)
adapter-refines_map_example =
    adapter-refines_map default_store_backed "antigravity-theme" "light"
      "antigravity-codex-accounts" ready_adapter refl refl

migrate-keeps_copies_example :
    Saved disk_observed fresh_adapter.native "antigravity-claude-accounts" "old"
      (migrate_legacy_sensitive_values disk_services fresh_adapter.native [] disk)
migrate-keeps_copies_example =
    migrate-keeps_copies disk_observed fresh_adapter.native [] "antigravity-claude-accounts" "old"
      disk claude_sensitive claude_copy

flush-first_failure_example :
    (flush disk_services (disk, ready_adapter)).0
    ≡ earliest none
        (failures disk_services (store_task "antigravity-theme" (some "dark") ∷ []) disk)
flush-first_failure_example = flush-first_failure disk_services disk ready_adapter

flush-flush_example :
    ((flush disk_services (disk, ready_adapter)).2.write_chain ≡ [])
    × (flush disk_services (
      (flush disk_services (disk, ready_adapter)).1,
      (flush disk_services (disk, ready_adapter)).2,
    )
        ≡ (
          none,
          (flush disk_services (disk, ready_adapter)).1,
          (flush disk_services (disk, ready_adapter)).2,
        ))
flush-flush_example = flush-flush disk_services disk ready_adapter

flush-set-kept_example :
    lookup "antigravity-claude-accounts"
      (flush disk_services (
        disk,
        set_secure_item default_store_backed "antigravity-claude-accounts" "new" ready_adapter,
      )).1.secure
    ≡ some "new"
flush-set-kept_example =
    flush-set-kept disk_services disk_observed default_store_backed "antigravity-claude-accounts"
      "new" disk ready_adapter (ready_Sound "antigravity-claude-accounts") claude_sensitive
      new_set_quietly
