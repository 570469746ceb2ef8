-- ===== src/Secure/Access.antt =====
-- What a mutation leaves as it was, and its two branches (src/utils/auth/secure-storage.ts).
use quota_shift.Prelude.{
  String, ◌≡◌, refl, Bool, true, none, some, List, [], ◌∷◌, lookup, keys, if_holds, if_true_holds,
}
use quota_shift.Browser.Keys.{
  SameAccess, set_item-SameAccess, remove_item-SameAccess, clear_items-SameAccess,
}
use quota_shift.Secure.{
  Adapter, next_revision, enqueue, get_item, is_sensitive_storage_key, mutate_secure,
  set_secure_item, remove_secure_item, clear_key, clear_keys, clear_storage,
}

-- A mutation writes nothing itself, and leaves what the native storage allows.
abbrev pub Unwritten : Adapter → Adapter → Type 0
Unwritten a b = (b.persisted_values ≡ a.persisted_values) × SameAccess a.native b.native

pub set-Unwritten :
    (store_backed : String → Bool) (name value : String) (a : Adapter)
    → Unwritten a (set_secure_item store_backed name value a)
unfolding set_secure_item
set-Unwritten store_backed name value a =
    let same = set_item-SameAccess name value a.native in
    if_holds (Unwritten a) (is_sensitive_storage_key name) (refl, (refl, refl))
      (if_holds (Unwritten a) a.native.writable
        (if_holds (Unwritten a) (store_backed name) (refl, same) (refl, same)) (refl, (refl, refl)))

pub remove-Unwritten :
    (store_backed : String → Bool) (name : String) (a : Adapter)
    → Unwritten a (remove_secure_item store_backed name a)
unfolding remove_secure_item
remove-Unwritten store_backed name a =
    let same = remove_item-SameAccess name a.native in
    if_holds (Unwritten a) (is_sensitive_storage_key name) (refl, (refl, refl))
      (if_holds (Unwritten a) a.native.writable
        (if_holds (Unwritten a) (store_backed name) (refl, same) (refl, same)) (refl, (refl, refl)))

clear_keys-Unwritten :
    (names : List String) (a b : Adapter) → Unwritten a b → Unwritten a (clear_keys names b)
unfolding clear_keys clear_key next_revision enqueue
clear_keys-Unwritten [] a b h = h
clear_keys-Unwritten (name ∷ names) a b h = clear_keys-Unwritten names a (clear_key name b) h

pub clear-Unwritten : (a : Adapter) → Unwritten a (clear_storage a)
unfolding clear_storage
clear-Unwritten a =
    let same = clear_items-SameAccess a.native in
    if_holds (Unwritten a) a.native.writable
      (clear_keys-Unwritten (keys a.secure_values) a _ (refl, same)) (refl, same)

pub get_item-sensitive :
    (key : String) (a : Adapter)
    → is_sensitive_storage_key key ≡ true
    → get_item key a ≡ lookup key a.secure_values
unfolding get_item
get_item-sensitive key a e =
    if_true_holds (λ read. read ≡ lookup key a.secure_values) (is_sensitive_storage_key key) _ _ e
      refl

pub set_sensitive :
    (store_backed : String → Bool) (key value : String) (a : Adapter)
    → is_sensitive_storage_key key ≡ true
    → set_secure_item store_backed key value a ≡ mutate_secure key (some value) a
unfolding set_secure_item
set_sensitive store_backed key value a e =
    if_true_holds (λ b. b ≡ mutate_secure key (some value) a) (is_sensitive_storage_key key) _ _ e
      refl

pub remove_sensitive :
    (store_backed : String → Bool) (key : String) (a : Adapter)
    → is_sensitive_storage_key key ≡ true
    → remove_secure_item store_backed key a ≡ mutate_secure key none a
unfolding remove_secure_item
remove_sensitive store_backed key a e =
    if_true_holds (λ b. b ≡ mutate_secure key none a) (is_sensitive_storage_key key) _ _ e refl
