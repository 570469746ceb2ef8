-- ===== src/Secure/Separate.antt =====
-- Sensitive keys stay out of the native storage, and plain keys out of the secure map
-- (src/utils/auth/secure-storage.ts).
use quota_shift.Prelude.{
  String, ◌≡◌, Bool, true, false, Option, none, some, List, [], ◌∷◌, keys, All, if◌then◌else◌,
  All-append, All-keys-insert, Distinct, Distinct-keys-insert, if_holds, if_true_holds,
  if_false_holds, Bool-cases, inl, inr,
}
use quota_shift.Browser.{Storage, set_item, remove_item, clear_items}
use quota_shift.Browser.Keys.{All-keys-remove_key, Distinct-keys-remove_key}
use quota_shift.Secure.{
  Task, store_task, secure_task, Adapter, is_sensitive_storage_key, mutate_secure, set_secure_item,
  remove_secure_item, clear_storage, clear_key, clear_keys, next_revision, enqueue, put,
}

abbrev pub Plain : String → Type 0
Plain key = is_sensitive_storage_key key ≡ false

abbrev pub Sensitive : String → Type 0
Sensitive key = is_sensitive_storage_key key ≡ true

abbrev pub AllPlain : Storage → Type 0
AllPlain s = All Plain (keys s.entries)

abbrev pub Guarded : Task → Type 0
Guarded (store_task _ _) = Unit
Guarded (secure_task key _ _) = Sensitive key

pub record Separate (a : Adapter) : Type 0 where
  pub native_plain : All Plain (keys a.native.entries)
  pub secure_sensitive : All Sensitive (keys a.secure_values)
  pub secure_distinct : Distinct (keys a.secure_values)
  pub chain_sensitive : All Guarded a.write_chain

pub All-keys-put :
    (P : String → Type 0) (key : String) (value : Option String) (m : List (String × String))
    → P key
    → All P (keys m)
    → All P (keys (put key value m))
unfolding put
All-keys-put P key none m p h = All-keys-remove_key P key m h
All-keys-put P key (some value) m p h = All-keys-insert P key value m p h

pub Distinct-keys-put :
    (key : String) (value : Option String) (m : List (String × String))
    → Distinct (keys m)
    → Distinct (keys (put key value m))
unfolding put
Distinct-keys-put key none m h = Distinct-keys-remove_key key m h
Distinct-keys-put key (some value) m h = Distinct-keys-insert key value m h

mutate-Separate :
    (key : String) (value : Option String) (a : Adapter)
    → Sensitive key
    → Separate a
    → Separate (mutate_secure key value a)
unfolding mutate_secure next_revision enqueue
mutate-Separate key value a e h = record {
  native_plain = h.native_plain;
  secure_sensitive = All-keys-put Sensitive key value a.secure_values e h.secure_sensitive;
  secure_distinct = Distinct-keys-put key value a.secure_values h.secure_distinct;
  chain_sensitive = All-append Guarded a.write_chain _ h.chain_sensitive (e, tt);
}

-- A change of the native storage that keeps it plain, and one task of the store.
native-Separate :
    (native : Storage) (a : Adapter)
    → All Plain (keys native.entries)
    → Separate a
    → Separate (record a { native = native })
native-Separate native a e h = record {
  native_plain = e;
  secure_sensitive = h.secure_sensitive;
  secure_distinct = h.secure_distinct;
  chain_sensitive = h.chain_sensitive;
}

enqueue_store-Separate :
    (key : String) (value : Option String) (a : Adapter)
    → Separate a
    → Separate (enqueue (store_task key value) a)
unfolding enqueue
enqueue_store-Separate key value a h = record {
  native_plain = h.native_plain;
  secure_sensitive = h.secure_sensitive;
  secure_distinct = h.secure_distinct;
  chain_sensitive = All-append Guarded a.write_chain _ h.chain_sensitive (tt, tt);
}

set_item-AllPlain :
    (key text : String) (s : Storage)
    → Plain key
    → All Plain (keys s.entries)
    → All Plain (keys (set_item key text s).entries)
unfolding set_item
set_item-AllPlain key text s e h =
    if_holds AllPlain s.writable (All-keys-insert Plain key text s.entries e h) h

remove_item-AllPlain :
    (key : String) (s : Storage)
    → All Plain (keys s.entries)
    → All Plain (keys (remove_item key s).entries)
unfolding remove_item
remove_item-AllPlain key s h =
    if_holds AllPlain s.writable (All-keys-remove_key Plain key s.entries h) h

-- The test decides which branch a key takes.
by_sensitivity :
    (key : String) (P : Adapter → Type 0) (x y : Adapter)
    → (Sensitive key → P x)
    → (Plain key → P y)
    → P (if is_sensitive_storage_key key then x else y)
by_sensitivity key P x y f g = elim (Bool-cases (is_sensitive_storage_key key)) [
  | inl e ↦ if_true_holds P (is_sensitive_storage_key key) x y e (f e)
  | inr e ↦ if_false_holds P (is_sensitive_storage_key key) x y e (g e)
]

pub set-Separate :
    (store_backed : String → Bool) (key value : String) (a : Adapter)
    → Separate a
    → Separate (set_secure_item store_backed key value a)
unfolding set_secure_item
set-Separate store_backed key value a h =
    by_sensitivity key Separate _ _ (λ e. mutate-Separate key (some value) a e h)
      (λ e.
        let written =
          native-Separate (set_item key value a.native) a
            (set_item-AllPlain key value a.native e h.native_plain) h in
        if_holds Separate a.native.writable
          (if_holds Separate (store_backed key)
            (enqueue_store-Separate key (some value)
              (record a { native = set_item key value a.native }) written)
            written)
          h)

pub remove-Separate :
    (store_backed : String → Bool) (key : String) (a : Adapter)
    → Separate a
    → Separate (remove_secure_item store_backed key a)
unfolding remove_secure_item
remove-Separate store_backed key a h =
    by_sensitivity key Separate _ _ (λ e. mutate-Separate key none a e h)
      (λ e.
        let removed =
          native-Separate (remove_item key a.native) a
            (remove_item-AllPlain key a.native h.native_plain) h in
        if_holds Separate a.native.writable
          (if_holds Separate (store_backed key)
            (enqueue_store-Separate key none (record a { native = remove_item key a.native })
              removed)
            removed)
          h)

clear_keys-Separate :
    (names : List String) (a : Adapter)
    → All Sensitive names
    → Separate a
    → Separate (clear_keys names a)
unfolding clear_keys clear_key next_revision enqueue
clear_keys-Separate [] a e h = h
clear_keys-Separate (name ∷ names) a e h =
    clear_keys-Separate names (clear_key name a) e.1 (record {
      native_plain = h.native_plain;
      secure_sensitive = h.secure_sensitive;
      secure_distinct = h.secure_distinct;
      chain_sensitive = All-append Guarded a.write_chain _ h.chain_sensitive (e.0, tt);
    })

clear_items-AllPlain : (s : Storage) → AllPlain s → AllPlain (clear_items s)
unfolding clear_items
clear_items-AllPlain s h = if_holds AllPlain s.writable tt h

pub clear-Separate : (a : Adapter) → Separate a → Separate (clear_storage a)
unfolding clear_storage
clear-Separate a h =
    let emptied : Separate (record a { secure_values = []; native = clear_items a.native }) =
      record {
        native_plain = clear_items-AllPlain a.native h.native_plain;
        secure_sensitive = tt;
        secure_distinct = tt;
        chain_sensitive = h.chain_sensitive;
      } in
    if_holds Separate a.native.writable
      (clear_keys-Separate (keys a.secure_values) _ h.secure_sensitive emptied) emptied
