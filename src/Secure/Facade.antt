-- ===== src/Secure/Facade.antt =====
-- What the facade of the adapter shows at once: `getItem`, `key` and `length` of
-- src/utils/auth/secure-storage.ts.
use quota_shift.Prelude.{
  ℕ, suc, ◌+◌, ◌/◌, ◌%◌, String, not, Option, none, some, List, [], ◌∷◌, ◌++◌, get_elem?, length,
  filter, lookup, keys, contains, eqb, if◌then◌else◌,
}
use quota_shift.Js.{Number, ratio}
use quota_shift.Browser.{Storage, read_raw}
use quota_shift.Secure.{Adapter, is_sensitive_storage_key}

-- The second loop of `key`: the names that are not there yet.
unfoldable pub push_missing : List String → List String → List String
unfolding contains
push_missing names [] = names
push_missing names (key ∷ rest) =
    push_missing (if contains names key then names else names ++ key ∷ []) rest

-- The names that the native storage enumerates, less the sensitive ones.
unfoldable pub plain_keys : Storage → List String
unfolding is_sensitive_storage_key
plain_keys s = filter (λ key. not (is_sensitive_storage_key key)) (keys s.entries)

unfoldable pub key_list : Adapter → List String
unfolding push_missing plain_keys
key_list a = push_missing (plain_keys a.native) (keys a.secure_values)

-- `Number.isInteger(index) && index >= 0`
unfoldable pub natural_index : Number → Option ℕ
natural_index (ratio negative n d) =
    if eqb (n % suc d) 0
    then (if negative then (if eqb n 0 then some 0 else none) else some (n / suc d))
    else none
natural_index _ = none

unfoldable pub key_at : Number → Adapter → Option String
unfolding natural_index key_list
key_at index a = elim (natural_index index) [ none ↦ none | some i ↦ get_elem? (key_list a) i ]

-- The second loop of `length`.
unfoldable pub count_secure : Storage → List String → ℕ
unfolding read_raw lookup
count_secure native [] = 0
count_secure native (key ∷ rest) =
    let later = count_secure native rest in
    elim (read_raw (some native) key) [ none ↦ suc later | some _ ↦ later ]

unfoldable pub storage_length : Adapter → ℕ
unfolding plain_keys count_secure
storage_length a = length (plain_keys a.native) + count_secure a.native (keys a.secure_values)
