-- ===== src/Secure/Planning.antt =====
-- What the reading phase of the migration finds (src/utils/auth/secure-storage-migration.ts).
use quota_shift.Prelude.{
  String, ◌≡◌, refl, ap, sym, ◌∙◌, Bool, true, false, ◌||◌, Option, none, some, List, [], ◌∷◌, ◌++◌,
  lookup, lookup-insert, contains, contains-append, contains-filter, contains-unique, All, filter,
  Distinct, if◌then◌else◌, ◌==◌, eq_iff, arith, Bool-cases, inl, inr, unique,
}
use quota_shift.Js.{Value, Fields, no_fields, field, obj, find_field}
use quota_shift.Browser.{Storage}
use quota_shift.Secure.{is_sensitive_storage_key, sensitive_storage_keys}
use quota_shift.Secure.Services.{
  Services, Result-cases, ok_injective, ok-not-failed, ok, failed, read_string,
}
use quota_shift.Secure.Migration.{
  Plan, all_sensitive_keys, sensitive_names, field_names, note_copy, or_else, read_copies,
}

-- The plan belongs to the loaded values; each sensitive key that a source has is in it, once, and with the
-- native storage's value.
pub record Planned {ℓ} {S : Type ℓ} (service : Services S) (native : Storage) (s : S) (plan : Plan)
    : Type ℓ where
  pub loaded : service.load s ≡ ok (obj plan.secure_fields)
  pub distinct : Distinct plan.sensitive_keys
  pub sensitive : All (λ key. is_sensitive_storage_key key ≡ true) plan.sensitive_keys
  pub missing :
      (key : String)
      → is_sensitive_storage_key key ≡ true
      → contains plan.sensitive_keys key ≡ false
      → (read_string (find_field plan.secure_fields key) ≡ none)
        × (lookup key native.entries ≡ none)
  pub native_copies :
      (key : String)
      → contains plan.sensitive_keys key ≡ true
      → lookup key plan.native_values ≡ lookup key native.entries

pub find_field-absent :
    (fields : Fields) (key : String)
    → contains (field_names fields) key ≡ false
    → read_string (find_field fields key) ≡ none
unfolding find_field field_names contains read_string
find_field-absent no_fields key h = refl
find_field-absent (field name value rest) key h = ground (arith, find_field-absent rest key)

contains-append-filter :
    (p : String → Bool) (xs ys : List String) (key : String)
    → p key ≡ true
    → contains (filter p xs ++ ys) key ≡ (contains xs key || contains ys key)
contains-append-filter p xs ys key e =
    ground (arith, contains-append (filter p xs) ys key, contains-filter p xs key)

contains-union :
    (p : String → Bool) (first a b c d : List String) (key : String)
    → p key ≡ true
    → contains (unique (first ++ (filter p a ++ (filter p b ++ (filter p c ++ filter p d))))) key
      ≡ (contains first key
          || (contains a key || (contains b key || (contains c key || contains d key))))
contains-union p first a b c d key e = ground (
  arith,
  contains-unique (first ++ (filter p a ++ (filter p b ++ (filter p c ++ filter p d)))) key,
  contains-append first (filter p a ++ (filter p b ++ (filter p c ++ filter p d))) key,
  contains-append-filter p a (filter p b ++ (filter p c ++ filter p d)) key e,
  contains-append-filter p b (filter p c ++ filter p d) key e,
  contains-append-filter p c (filter p d) key e,
  contains-filter p d key,
)

-- Every source's sensitive names are among all of them.
pub contains-all_sensitive_keys :
    (values : Fields) (store_keys native_keys decrypted_keys : List String) (key : String)
    → is_sensitive_storage_key key ≡ true
    → contains (all_sensitive_keys values store_keys native_keys decrypted_keys) key ≡ (
        contains sensitive_storage_keys key
        || (contains (field_names values) key
            || (contains store_keys key
                || (contains native_keys key || contains decrypted_keys key))))
unfolding all_sensitive_keys sensitive_names
contains-all_sensitive_keys values store_keys native_keys decrypted_keys key e =
    contains-union is_sensitive_storage_key sensitive_storage_keys (field_names values) store_keys
      native_keys decrypted_keys key e

lookup-note_copy :
    (key name : String) (value : Option String) (copies : List (String × String))
    → lookup key (note_copy name value copies)
      ≡ (if name == key then or_else value (lookup key copies) else lookup key copies)
unfolding note_copy or_else
lookup-note_copy key name none copies = ground arith
lookup-note_copy key name (some value) copies = lookup-insert name key value copies

module _ {ℓ} {S : Type ℓ} (service : Services S) where
  -- One round of the reading loop, by what it finds.
  module _ (store_keys : List String) (native : Storage) (s : S) (name : String)
      (names : List String) (store_values native_values : List (String × String)) where
    read_failed :
        (error : String)
        → service.store_get name s ≡ failed error
        → read_copies service store_keys native s (name ∷ names) store_values native_values
          ≡ failed error
    unfolding read_copies
    read_failed error f = rw (f, read_copies) refl

    read_refused :
        (value : Value)
        → service.store_get name s ≡ ok value
        → native.readable ≡ false
        → read_copies service store_keys native s (name ∷ names) store_values native_values
          ≡ failed "storage access"
    unfolding read_copies
    read_refused value f g = rw (f, g, read_copies) refl

    read_next :
        (value : Value)
        → service.store_get name s ≡ ok value
        → native.readable ≡ true
        → read_copies service store_keys native s (name ∷ names) store_values native_values
          ≡ read_copies service store_keys native s names
              (note_copy name
                (if contains store_keys name then read_string value else none)
                store_values)
              (note_copy name (lookup name native.entries) native_values)
    unfolding read_copies
    read_next value f g = rw (f, g, read_copies) refl

  pub read_copies-native :
      (store_keys : List String) (native : Storage) (s : S) (key : String) (names : List String)
      → (store_values native_values : List (String × String))
        (result : List (String × String) × List (String × String))
      → read_copies service store_keys native s names store_values native_values ≡ ok result
      → lookup key result.1 ≡ (
          if contains names key
          then or_else (lookup key native.entries) (lookup key native_values)
          else lookup key native_values)
  unfolding contains or_else read_copies
  read_copies-native store_keys native s key [] store_values native_values result e =
      ap (λ r. lookup key r.1) (sym (ok_injective e))
  read_copies-native store_keys native s key (name ∷ names) store_values native_values result e =
      elim (Result-cases (service.store_get name s)) [
        | inr (error, f) ↦ absurd (
            ok-not-failed (
              sym (read_failed store_keys native s name names store_values native_values error f)
              ∙ e))
        | inl (value, f) ↦ elim (Bool-cases native.readable) [
          | inr g ↦ absurd (
              ok-not-failed (
                sym
                  (read_refused store_keys native s name names store_values native_values value f g)
                ∙ e))
          | inl g ↦
              (let copy = if contains store_keys name then read_string value else none in
                let noted = note_copy name (lookup name native.entries) native_values in
                ground (
                  arith,
                  read_copies-native store_keys native s key names
                      (note_copy name copy store_values) noted result
                      (sym (
                          read_next store_keys native s name names store_values native_values value
                            f g)
                        ∙ e),
                  lookup-note_copy key name (lookup name native.entries) native_values,
                  eq_iff name key,
                ))
        ]
      ]
