-- ===== src/Secure/Enumeration.antt =====
-- `key` and `length` of the adapter against `getItem` (src/utils/auth/secure-storage.ts).
use quota_shift.Prelude.{
  ◌+◌, String, ◌≡◌, refl, ap, ◌∙◌, Bool, true, false, not, ◌||◌, Option, none, some, List, [], ◌∷◌,
  ◌++◌, lookup, keys, contains, All, All-imp, Avoids, Distinct, length, length-append,
  filter_of_All, contains-append, lookup-eq-none_iff, arith, eq_iff, Bool-cases, inl, inr,
}
use quota_shift.Browser.{Storage, read_raw}
use quota_shift.Secure.{Adapter, is_sensitive_storage_key, get_item}
use quota_shift.Secure.Facade.{push_missing, plain_keys, key_list, count_secure, storage_length}
use quota_shift.Secure.Views.{read_raw_lem, get_item_lem}
use quota_shift.Secure.Separate.{Separate, Plain, Sensitive, AllPlain}

Avoids-append_one :
    (names rest : List String) (key : String)
    → Avoids names rest
    → contains rest key ≡ false
    → Avoids (names ++ key ∷ []) rest
unfolding contains
Avoids-append_one names [] key h e = tt
Avoids-append_one names (x ∷ rest) key h e = ground (
  arith,
  Avoids-append_one names rest key h.1,
  contains-append names (key ∷ []) x,
  eq_iff key x,
  eq_iff x key,
)

-- New names are all pushed.
length-push_missing :
    (names rest : List String)
    → Avoids names rest
    → Distinct rest
    → length (push_missing names rest) ≡ length names + length rest
unfolding push_missing
length-push_missing names [] h d = omega arith
length-push_missing names (key ∷ rest) h d = rw h.0 (
    omega (
      arith,
      length-push_missing (names ++ key ∷ []) rest (Avoids-append_one names rest key h.1 d.0) d.1,
      length-append names (key ∷ []),
    ))

contains-push_missing :
    (names rest : List String) (k : String)
    → contains (push_missing names rest) k ≡ (contains names k || contains rest k)
unfolding push_missing contains
contains-push_missing names [] k = ground arith
contains-push_missing names (key ∷ rest) k = elim (Bool-cases (contains names key)) [
  | inl e ↦ rw e (ground (arith, contains-push_missing names rest k, eq_iff key k))
  | inr e ↦ rw e (
      ground (
        arith,
        contains-push_missing (names ++ key ∷ []) rest k,
        contains-append names (key ∷ []) k,
      ))
]

Plain-contains-Sensitive :
    (names : List String) (key : String)
    → All Plain names
    → Sensitive key
    → contains names key ≡ false
unfolding contains
Plain-contains-Sensitive [] key p e = refl
Plain-contains-Sensitive (name ∷ names) key p e =
    ground (arith, Plain-contains-Sensitive names key p.1 e, eq_iff name key, p.0)

Sensitive-contains-Plain :
    (names : List String) (key : String)
    → All Sensitive names
    → Plain key
    → contains names key ≡ false
unfolding contains
Sensitive-contains-Plain [] key p e = refl
Sensitive-contains-Plain (name ∷ names) key p e =
    ground (arith, Sensitive-contains-Plain names key p.1 e, eq_iff name key, p.0)

Plain-Avoids-Sensitive :
    (plain names : List String) → All Plain plain → All Sensitive names → Avoids plain names
Plain-Avoids-Sensitive plain names p h =
    All-imp (λ key e. Plain-contains-Sensitive plain key p e) names h

-- A native storage without sensitive keys answers none of the secure map's keys.
count_secure_all :
    (native : Storage) (names : List String)
    → AllPlain native
    → All Sensitive names
    → count_secure native names ≡ length names
unfolding count_secure read_raw
count_secure_all native [] p h = refl
count_secure_all native (key ∷ names) p h = ground (
  arith,
  count_secure_all native names p h.1,
  (lookup-eq-none_iff key native.entries).1
      (Plain-contains-Sensitive (keys native.entries) key p h.0),
)

plain_keys_all : (s : Storage) → AllPlain s → plain_keys s ≡ keys s.entries
unfolding plain_keys
plain_keys_all s h =
    filter_of_All _ (keys s.entries) (All-imp (λ key e. ap not e) (keys s.entries) h)

abbrev pub is_some : Option String → Bool
is_some none = false
is_some (some _) = true

is_some-lookup :
    (key : String) (m : List (String × String)) → is_some (lookup key m) ≡ contains (keys m) key
unfolding lookup contains
is_some-lookup key [] = refl
is_some-lookup key ((name, value) ∷ m) = ground (arith, is_some-lookup key m)

key_list_plain :
    (a : Adapter)
    → Separate a
    → key_list a ≡ push_missing (keys a.native.entries) (keys a.secure_values)
unfolding key_list
key_list_plain a h =
    ap (λ names. push_missing names (keys a.secure_values)) (plain_keys_all a.native h.native_plain)

contains-key_list :
    (a : Adapter) (key : String)
    → Separate a
    → a.native.readable ≡ true
    → contains (key_list a) key ≡ is_some (get_item key a)
contains-key_list a key h readable =
    let listed =
      ap (λ names. contains names key) (key_list_plain a h)
      ∙ contains-push_missing (keys a.native.entries) (keys a.secure_values) key in
    elim (Bool-cases (is_sensitive_storage_key key)) [
      | inl e ↦ ground (
        arith,
        listed,
        get_item_lem key a,
        Plain-contains-Sensitive (keys a.native.entries) key h.native_plain e,
        is_some-lookup key a.secure_values,
      )
      | inr e ↦ ground (
        arith,
        listed,
        get_item_lem key a,
        read_raw_lem key a.native readable,
        Sensitive-contains-Plain (keys a.secure_values) key h.secure_sensitive e,
        is_some-lookup key a.native.entries,
      )
    ]

length-key_list : (a : Adapter) → Separate a → length (key_list a) ≡ storage_length a
unfolding storage_length
length-key_list a h = ground (
  arith,
  key_list_plain a h,
  plain_keys_all a.native h.native_plain,
  count_secure_all a.native (keys a.secure_values) h.native_plain h.secure_sensitive,
  length-push_missing (keys a.native.entries) (keys a.secure_values)
      (Plain-Avoids-Sensitive (keys a.native.entries) (keys a.secure_values) h.native_plain
        h.secure_sensitive)
      h.secure_distinct,
)

-- With a native storage that can be read and holds plain keys alone beside a secure map of sensitive ones,
-- the enumeration has exactly the keys for which the adapter answers a value, and as many as `length` says.
pub key_list_complete :
    (a : Adapter) (key : String)
    → Separate a
    → a.native.readable ≡ true
    → (contains (key_list a) key ≡ is_some (get_item key a))
      × (length (key_list a) ≡ storage_length a)
key_list_complete a key h readable = (contains-key_list a key h readable, length-key_list a h)
