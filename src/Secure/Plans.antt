-- ===== src/Secure/Plans.antt =====
-- The plan of a migration belongs to what was loaded (src/utils/auth/secure-storage-migration.ts).
use quota_shift.Prelude.{
  String, ◌≡◌, refl, sym, ◌∙◌, subst, true, List, [], lookup, keys, All, All-append, All-unique,
  filter-holds, unique-Distinct, lookup-eq-none_iff, Distinct, arith, inl, inr,
}
use quota_shift.Js.{Value, null, bool, num, str, arr, Fields, undefined, obj}
use quota_shift.Browser.{Storage}
use quota_shift.Secure.{is_sensitive_storage_key, sensitive_storage_keys}
use quota_shift.Secure.Services.{Services, Result-cases, ok_injective, ok-not-failed, ok}
use quota_shift.Secure.Migration.{
  Plan, all_sensitive_keys, sensitive_names, field_names, or_else, read_copies, plan_for,
}
use quota_shift.Secure.Planning.{
  Planned, contains-all_sensitive_keys, find_field-absent, read_copies-native,
}

all_sensitive_keys-Distinct :
    (values : Fields) (store_keys native_keys decrypted_keys : List String)
    → Distinct (all_sensitive_keys values store_keys native_keys decrypted_keys)
unfolding all_sensitive_keys
all_sensitive_keys-Distinct values store_keys native_keys decrypted_keys =
    unique-Distinct (sensitive_names values store_keys native_keys decrypted_keys)

known_sensitive : All (λ key. is_sensitive_storage_key key ≡ true) sensitive_storage_keys
unfolding is_sensitive_storage_key
known_sensitive = (refl, (refl, (refl, tt)))

all_sensitive_keys-All :
    (values : Fields) (store_keys native_keys decrypted_keys : List String)
    → All
        (λ key. is_sensitive_storage_key key ≡ true)
        (all_sensitive_keys values store_keys native_keys decrypted_keys)
unfolding all_sensitive_keys sensitive_names
all_sensitive_keys-All values store_keys native_keys decrypted_keys =
    let P = λ (key : String). is_sensitive_storage_key key ≡ true in
    let kept = λ (names : List String). filter-holds is_sensitive_storage_key names in
    All-unique P (sensitive_names values store_keys native_keys decrypted_keys) (
      All-append P sensitive_storage_keys _ known_sensitive (
        All-append P _ _ (kept (field_names values)) (
          All-append P _ _ (kept store_keys)
            (All-append P _ _ (kept native_keys) (kept decrypted_keys)))))

module _ {ℓ} {S : Type ℓ} (service : Services S) (native : Storage)
    (decrypted : List (String × String)) (s : S) (fs : Fields) (store_keys : List String) where
  abbrev names_of : List String
  names_of = all_sensitive_keys fs store_keys (keys native.entries) (keys decrypted)

  abbrev plan_of : List (String × String) × List (String × String) → Plan
  plan_of copies = record {
    sensitive_keys = names_of;
    secure_fields = fs;
    decrypted = decrypted;
    store_values = copies.0;
    native_values = copies.1;
  }

  plan_of-Planned :
      (copies : List (String × String) × List (String × String))
      → service.load s ≡ ok (obj fs)
      → read_copies service store_keys native s names_of [] [] ≡ ok copies
      → Planned service native s (plan_of copies)
  unfolding lookup or_else
  plan_of-Planned copies l g = record {
    loaded = l;
    distinct = all_sensitive_keys-Distinct fs store_keys (keys native.entries) (keys decrypted);
    sensitive = all_sensitive_keys-All fs store_keys (keys native.entries) (keys decrypted);
    missing = λ key e c.
        let union =
          contains-all_sensitive_keys fs store_keys (keys native.entries) (keys decrypted) key e in
        (
          find_field-absent fs key (ground (arith, union, c)),
          (lookup-eq-none_iff key native.entries).1 (ground (arith, union, c)),
        );
    native_copies = λ key c.
        ground
          (arith, read_copies-native service store_keys native s key names_of [] [] copies g, c);
  }

  plan_for_keys :
      (plan : Plan)
      → service.load s ≡ ok (obj fs)
      → service.store_keys s ≡ ok store_keys
      → plan_for service native decrypted s (obj fs) ≡ ok plan
      → Planned service native s plan
  unfolding plan_for
  plan_for_keys plan l f e =
      elim (Result-cases (read_copies service store_keys native s names_of [] [])) [
        | inr (error, g) ↦
            absurd (ok-not-failed {error = error} (sym (rw (f, g, plan_for) refl) ∙ e))
        | inl (copies, g) ↦
            subst (Planned service native s) (ok_injective (sym (rw (f, g, plan_for) refl) ∙ e))
              (plan_of-Planned copies l g)
      ]

pub plan_for-Planned {ℓ} :
    {S : Type ℓ} (service : Services S) (native : Storage) (decrypted : List (String × String))
    (s : S) (loaded : Value) (plan : Plan)
    → service.load s ≡ ok loaded
    → plan_for service native decrypted s loaded ≡ ok plan
    → Planned service native s plan
unfolding plan_for
plan_for-Planned service native decrypted s (obj fs) plan l e =
    elim (Result-cases (service.store_keys s)) [
      | inr (error, f) ↦ absurd (ok-not-failed {error = error} (sym (rw (f, plan_for) refl) ∙ e))
      | inl (store_keys, f) ↦ plan_for_keys service native decrypted s fs store_keys plan l f e
    ]
plan_for-Planned service native decrypted s undefined plan l e = absurd (ok-not-failed e)
plan_for-Planned service native decrypted s null plan l e = absurd (ok-not-failed e)
plan_for-Planned service native decrypted s (bool _) plan l e = absurd (ok-not-failed e)
plan_for-Planned service native decrypted s (num _) plan l e = absurd (ok-not-failed e)
plan_for-Planned service native decrypted s (str _) plan l e = absurd (ok-not-failed e)
plan_for-Planned service native decrypted s (arr _) plan l e = absurd (ok-not-failed e)
