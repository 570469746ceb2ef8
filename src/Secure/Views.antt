-- ===== src/Secure/Views.antt =====
-- The adapter, read at once, is a plain map of keys to values (`getItem` after `setItem`, `removeItem` and
-- `clear` of src/utils/auth/secure-storage.ts).
use quota_shift.Prelude.{
  String, ◌≡◌, refl, ap, ◌∙◌, Bool, true, false, Option, none, some, List, [], ◌∷◌, lookup, keys,
  if◌then◌else◌, ◌==◌, eq_iff, arith, if_holds, if_true_holds, if_false_holds, Bool-cases, inl, inr,
}
use quota_shift.Browser.{Storage, read_raw, set_item, remove_item, clear_items}
use quota_shift.Browser.Keys.{read_raw-set_item, read_raw-remove_item}
use quota_shift.Secure.{
  Adapter, is_sensitive_storage_key, get_item, mutate_secure, set_secure_item, remove_secure_item,
  clear_storage, clear_key, clear_keys, next_revision, enqueue,
}
use quota_shift.Secure.Access.{set_sensitive, remove_sensitive}
use quota_shift.Secure.Settled.{lookup-put}

-- A value that depends on the key alone, after a write at one key.
abbrev updated : String → Option String → (String → Option String) → String → Option String
updated key value view other = if key == other then value else view other

pub read_raw_lem :
    (key : String) (s : Storage) → s.readable ≡ true → read_raw (some s) key ≡ lookup key s.entries
unfolding read_raw
read_raw_lem key s h = rw h refl

pub get_item_lem :
    (key : String) (a : Adapter)
    → get_item key a ≡ (
        if is_sensitive_storage_key key
        then lookup key a.secure_values
        else read_raw (some a.native) key)
unfolding get_item
get_item_lem key a = refl

mutate-views :
    (key other : String) (value : Option String) (a : Adapter)
    → (lookup other (mutate_secure key value a).secure_values
        ≡ (if key == other then value else lookup other a.secure_values))
      × ((mutate_secure key value a).native ≡ a.native)
unfolding mutate_secure enqueue next_revision
mutate-views key other value a = (lookup-put key other value a.secure_values, refl)

-- A plain key changes the native storage alone, with and without a write to the store.
module _ (store_backed : String → Bool) (key : String) (a : Adapter)
    (plain : is_sensitive_storage_key key ≡ false) (writable : a.native.writable ≡ true) where
  set_plain :
      (value : String)
      → ((set_secure_item store_backed key value a).secure_values ≡ a.secure_values)
        × ((set_secure_item store_backed key value a).native ≡ set_item key value a.native)
  unfolding set_secure_item enqueue
  set_plain value =
      let P = λ (b : Adapter).
        (b.secure_values ≡ a.secure_values) × (b.native ≡ set_item key value a.native) in
      if_false_holds P (is_sensitive_storage_key key) _ _ plain (
        if_true_holds P a.native.writable _ _ writable
          (if_holds P (store_backed key) (refl, refl) (refl, refl)))

  remove_plain :
      ((remove_secure_item store_backed key a).secure_values ≡ a.secure_values)
      × ((remove_secure_item store_backed key a).native ≡ remove_item key a.native)
  unfolding remove_secure_item enqueue
  remove_plain =
      let P = λ (b : Adapter).
        (b.secure_values ≡ a.secure_values) × (b.native ≡ remove_item key a.native) in
      if_false_holds P (is_sensitive_storage_key key) _ _ plain (
        if_true_holds P a.native.writable _ _ writable
          (if_holds P (store_backed key) (refl, refl) (refl, refl)))

clear_keys-views :
    (names : List String) (a : Adapter)
    → ((clear_keys names a).secure_values ≡ a.secure_values)
      × ((clear_keys names a).native ≡ a.native)
unfolding clear_keys clear_key next_revision enqueue
clear_keys-views [] a = (refl, refl)
clear_keys-views (name ∷ names) a = clear_keys-views names (clear_key name a)

read_raw-clear_items :
    (key : String) (s : Storage) → s.writable ≡ true → read_raw (some (clear_items s)) key ≡ none
unfolding read_raw clear_items lookup
read_raw-clear_items key s w = ground arith

clear-views :
    (other : String) (a : Adapter)
    → a.native.writable ≡ true
    → get_item other (clear_storage a) ≡ none
unfolding clear_storage get_item lookup
clear-views other a writable =
    let emptied = record a { secure_values = []; native = clear_items a.native } in
    if_true_holds (λ b. get_item other b ≡ none) a.native.writable _ _ writable
      (if_holds (λ o. o ≡ none) (is_sensitive_storage_key other)
        (ap (lookup other) (clear_keys-views (keys a.secure_values) emptied).0)
        (ap (λ n. read_raw (some n) other) (clear_keys-views (keys a.secure_values) emptied).1
          ∙ read_raw-clear_items other a.native writable))

mutate-get_item :
    (key other : String) (value : Option String) (a : Adapter)
    → is_sensitive_storage_key key ≡ true
    → get_item other (mutate_secure key value a) ≡ updated key value (λ k. get_item k a) other
mutate-get_item key other value a e = ground (
  arith,
  get_item_lem other (mutate_secure key value a),
  get_item_lem other a,
  mutate-views key other value a,
  eq_iff key other,
)

set-get_item :
    (store_backed : String → Bool) (key value other : String) (a : Adapter)
    → a.native.readable ≡ true
    → a.native.writable ≡ true
    → get_item other (set_secure_item store_backed key value a)
      ≡ updated key (some value) (λ k. get_item k a) other
set-get_item store_backed key value other a readable writable =
    elim (Bool-cases (is_sensitive_storage_key key)) [
      | inl e ↦
          ap (get_item other) (set_sensitive store_backed key value a e)
          ∙ mutate-get_item key other (some value) a e
      | inr e ↦ ground (
        arith,
        get_item_lem other (set_secure_item store_backed key value a),
        get_item_lem other a,
        set_plain store_backed key a e writable value,
        read_raw-set_item key value other a.native readable writable,
        read_raw_lem other a.native readable,
        eq_iff key other,
      )
    ]

remove-get_item :
    (store_backed : String → Bool) (key other : String) (a : Adapter)
    → a.native.readable ≡ true
    → a.native.writable ≡ true
    → get_item other (remove_secure_item store_backed key a)
      ≡ updated key none (λ k. get_item k a) other
remove-get_item store_backed key other a readable writable =
    elim (Bool-cases (is_sensitive_storage_key key)) [
      | inl e ↦
          ap (get_item other) (remove_sensitive store_backed key a e)
          ∙ mutate-get_item key other none a e
      | inr e ↦ ground (
        arith,
        get_item_lem other (remove_secure_item store_backed key a),
        get_item_lem other a,
        remove_plain store_backed key a e writable,
        read_raw-remove_item key other a.native readable writable,
        read_raw_lem other a.native readable,
        eq_iff key other,
      )
    ]

-- With a native storage that can be read and written, the values that the adapter answers change as those
-- of a map do: setting a key changes that key alone, removing it removes that key alone, and clearing
-- removes all of them, whatever is queued.
pub adapter-refines_map :
    (store_backed : String → Bool) (key value other : String) (a : Adapter)
    → a.native.readable ≡ true
    → a.native.writable ≡ true
    → (get_item other (set_secure_item store_backed key value a)
        ≡ updated key (some value) (λ k. get_item k a) other)
      × (get_item other (remove_secure_item store_backed key a)
          ≡ updated key none (λ k. get_item k a) other)
      × (get_item other (clear_storage a) ≡ none)
adapter-refines_map store_backed key value other a readable writable = (
  set-get_item store_backed key value other a readable writable,
  remove-get_item store_backed key other a readable writable,
  clear-views other a writable,
)
