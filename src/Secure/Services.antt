-- ===== src/Secure/Services.antt =====
-- The interface of what the adapter calls and this repository does not implement in TypeScript: the
-- secure backend (SecureStorageBackend) and the plain store (LegacyStoreLike) of secure-storage-types.ts.
use quota_shift.Prelude.{
  String, ◌≡◌, refl, ◌⊎◌, inl, inr, Option, none, some, List, if◌then◌else◌, ◌==◌,
}
use quota_shift.Js.{Value, Fields, obj, str, find_field}

-- What an awaited call hands over: a value, or the text of its error.
pub data Result {ℓ} (A : Type ℓ) : Type ℓ where
  ok : A → Result A
  failed : String → Result A

pub ok_injective {ℓ} : {A : Type ℓ} {a b : A} → ok a ≡ ok b → a ≡ b
ok_injective h = cc

pub ok-not-failed {ℓ} : {A : Type ℓ} {a : A} {error : String} → failed error ≡ ok a → ⊥
ok-not-failed h = cc

pub Result-cases {ℓ} :
    {A : Type ℓ} (r : Result A) → ((a : A) × (r ≡ ok a)) ⊎ ((error : String) × (r ≡ failed error))
Result-cases (ok a) = inl (a, refl)
Result-cases (failed error) = inr (error, refl)

-- Calls on the state `S` of the outside world; a call that changes it also says whether it failed.
pub record Services {ℓ} (S : Type ℓ) : Type ℓ where
  pub load : S → Result Value
  pub set : String → String → S → S × Option String
  pub delete : String → S → S × Option String
  pub store_keys : S → Result (List String)
  pub store_get : String → S → Result Value
  pub store_set : String → String → S → S × Option String
  pub store_delete : String → S → S × Option String
  pub store_save : S → S × Option String

-- `readString`: `typeof value === "string" ? value : undefined`
unfoldable pub read_string : Value → Option String
read_string (str text) = some text
read_string _ = none

-- What the backend keeps for a key.
pub record Observed {ℓ} {S : Type ℓ} (service : Services S) : Type ℓ where
  pub kept : String → S → Option String
  -- What is loaded is what is kept.
  pub load_ok :
      (fields : Fields) (key : String) (s : S)
      → service.load s ≡ ok (obj fields)
      → kept key s ≡ read_string (find_field fields key)
  -- A write that succeeds is kept, and one that fails changes nothing.
  pub set_ok :
      (key value other : String) (s : S)
      → (service.set key value s).1 ≡ none
      → kept other (service.set key value s).0 ≡ (if key == other then some value else kept other s)
  pub set_failed :
      (key value other error : String) (s : S)
      → (service.set key value s).1 ≡ some error
      → kept other (service.set key value s).0 ≡ kept other s
  pub delete_ok :
      (key other : String) (s : S)
      → (service.delete key s).1 ≡ none
      → kept other (service.delete key s).0 ≡ (if key == other then none else kept other s)
  pub delete_failed :
      (key other error : String) (s : S)
      → (service.delete key s).1 ≡ some error
      → kept other (service.delete key s).0 ≡ kept other s
  -- The plain store is apart from the backend.
  pub store_set_apart :
      (key value other : String) (s : S)
      → kept other (service.store_set key value s).0 ≡ kept other s
  pub store_delete_apart :
      (key other : String) (s : S) → kept other (service.store_delete key s).0 ≡ kept other s
  pub store_save_apart :
      (other : String) (s : S) → kept other (service.store_save s).0 ≡ kept other s
