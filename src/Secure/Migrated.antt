-- ===== src/Secure/Migrated.antt =====
-- The migration as a whole: what it leaves in the backend and in the native storage
-- (src/utils/auth/secure-storage-migration.ts, and `hydrate` of secure-storage.ts).
use quota_shift.Prelude.{
  String, ◌≡◌, refl, ap, sym, ◌∙◌, Bool, true, false, ◌&&◌, ◌⊎◌, some, List, [], ◌∷◌, lookup, keys,
  contains, lookup-eq-none_iff, eq_iff, arith, Option-cases, Bool-cases, inl, inr,
}
use quota_shift.Browser.{Storage, remove_item}
use quota_shift.Browser.Keys.{lookup-remove_item}
use quota_shift.Secure.{is_sensitive_storage_key}
use quota_shift.Secure.Services.{Services, Observed, Result, Result-cases, ok, failed}
use quota_shift.Secure.Migration.{
  Plan, or_else, write_values, delete_copies, save_changed, remove_copies, drop_copies, carry_out,
  plan_for, migrate_legacy_sensitive_values,
}
use quota_shift.Secure.Hydration.{write_values-Written}
use quota_shift.Secure.Planning.{Planned}
use quota_shift.Secure.Plans.{plan_for-Planned}

-- One round of the loop that removes native copies: it goes past the key, removes its copy, or ends.
module _ (plan : Plan) (migrated : List (String × String)) (name : String) (names : List String)
    (native : Storage) where
  abbrev pub Round : Storage × Result (List (String × String)) → Type 0
  Round r =
      (((contains (keys migrated) name && contains (keys plan.native_values) name) ≡ false)
        × (r ≡ remove_copies plan migrated names native))
      ⊎ ((((contains (keys migrated) name && contains (keys plan.native_values) name) ≡ true)
            × (native.writable ≡ true)
            × (r ≡ remove_copies plan migrated names (remove_item name native)))
          ⊎ (r ≡ (native, failed "storage access")))

  pub remove-Round : Round (remove_copies plan migrated (name ∷ names) native)
  unfolding remove_copies
  remove-Round =
      elim (Bool-cases (contains (keys migrated) name && contains (keys plan.native_values) name)) [
        | inr c ↦ inl (c, rw (c, remove_copies) refl)
        | inl c ↦
            (let attempt = λ (b : Bool).
                elim b as (λ _. Storage × Result (List (String × String))) [
                  | true ↦ remove_copies plan migrated names (remove_item name native)
                  | false ↦ (native, failed "storage access")
                ] in
              elim (Bool-cases native.writable) [
                | inr w ↦ inr (inr (rw (c, remove_copies) (ap attempt w)))
                | inl w ↦ inr (inl (c, w, rw (c, remove_copies) (ap attempt w)))
              ])
      ]

removed_other :
    (plan : Plan) (migrated : List (String × String)) (key name : String) (native : Storage)
    → contains (keys migrated) key ≡ false
    → (contains (keys migrated) name && contains (keys plan.native_values) name) ≡ true
    → native.writable ≡ true
    → lookup key (remove_item name native).entries ≡ lookup key native.entries
removed_other plan migrated key name native h c w =
    ground (arith, lookup-remove_item name key native w, eq_iff name key)

-- Removing the native copies keeps every key that was not migrated.
remove_copies-kept :
    (plan : Plan) (migrated : List (String × String)) (key : String) (names : List String)
    (native : Storage)
    → contains (keys migrated) key ≡ false
    → lookup key (remove_copies plan migrated names native).0.entries ≡ lookup key native.entries
unfolding remove_copies
remove_copies-kept plan migrated key [] native h = refl
remove_copies-kept plan migrated key (name ∷ names) native h =
    elim (remove-Round plan migrated name names native) [
      | inl (c, q) ↦
          ap (λ r. lookup key r.0.entries) q ∙ remove_copies-kept plan migrated key names native h
      | inr (inl (c, w, q)) ↦
          ap (λ r. lookup key r.0.entries) q
          ∙ (remove_copies-kept plan migrated key names (remove_item name native) h
              ∙ removed_other plan migrated key name native h c w)
      | inr (inr q) ↦ ap (λ r. lookup key r.0.entries) q
    ]

module _ {ℓ} {S : Type ℓ} {service : Services S} (seen : Observed service) where
  delete_copies-kept :
      (plan : Plan) (migrated : List (String × String)) (key : String) (names : List String)
      (changed : Bool) (s : S)
      → seen.kept key (delete_copies service plan migrated names changed s).0 ≡ seen.kept key s
  unfolding delete_copies
  delete_copies-kept plan migrated key [] changed s = refl
  delete_copies-kept plan migrated key (name ∷ names) changed s =
      elim (Bool-cases (contains (keys migrated) name && contains (keys plan.store_values) name)) [
        | inr c ↦ rw (c, delete_copies) (delete_copies-kept plan migrated key names changed s)
        | inl c ↦ elim (Option-cases (service.store_delete name s).1) [
          | inr (error, w) ↦ rw (c, w, delete_copies) (seen.store_delete_apart name key s)
          | inl w ↦
              rw (c, w, delete_copies)
                (delete_copies-kept plan migrated key names true (service.store_delete name s).0
                  ∙ seen.store_delete_apart name key s)
        ]
      ]

  save_changed-kept :
      (key : String) (changed : Bool) (s : S)
      → seen.kept key (save_changed service changed s).0 ≡ seen.kept key s
  unfolding save_changed
  save_changed-kept key changed s = ground (arith, seen.store_save_apart key s)

  -- After the writes, a planned key has what was wanted, and the backend keeps it.
  pub written-agrees :
      (native : Storage) (s t : S) (plan : Plan) (migrated : List (String × String)) (key : String)
      → Planned service native s plan
      → is_sensitive_storage_key key ≡ true
      → write_values service plan plan.sensitive_keys [] s ≡ (t, ok migrated)
      → lookup key migrated ≡ seen.kept key t
  unfolding or_else lookup
  written-agrees native s t plan migrated key planned sensitive e =
      let written =
        write_values-Written seen plan key plan.sensitive_keys [] migrated s t planned.distinct e in
      let before = seen.load_ok plan.secure_fields key s planned.loaded in
      elim (Bool-cases (contains plan.sensitive_keys key)) [
        | inl c ↦ (let reached = written.reached c in ground (arith, reached, before))
        | inr c ↦
            (let untouched = written.untouched c in
              ground (arith, untouched, before, planned.missing key sensitive c))
      ]

  -- The native copy of a key is still there, or the backend keeps a value for it.
  abbrev pub Saved :
      Storage → String → String → S × Storage × Result (List (String × String)) → Type 0
  Saved native key value (t, after, _) =
      (lookup key after.entries ≡ some value) ⊎ ((kept : String) × (seen.kept key t ≡ some kept))

  -- Whatever fails, dropping copies leaves the backend, and the native copies of keys not migrated.
  pub drop_copies-leaves :
      (native : Storage) (key : String) (plan : Plan) (migrated : List (String × String)) (s : S)
      → (seen.kept key (drop_copies service plan migrated native s).0 ≡ seen.kept key s)
        × (contains (keys migrated) key ≡ false
            → lookup key (drop_copies service plan migrated native s).1.entries
              ≡ lookup key native.entries)
  unfolding drop_copies
  drop_copies-leaves native key plan migrated s =
      let deleted = delete_copies service plan migrated plan.sensitive_keys false s in
      let kept = delete_copies-kept plan migrated key plan.sensitive_keys false s in
      elim (Result-cases deleted.1) [
        | inr (error, f) ↦ rw (f, drop_copies) (kept, λ _. refl)
        | inl (changed, f) ↦
            (let saved = save_changed-kept key changed deleted.0 ∙ kept in
              elim (Option-cases (save_changed service changed deleted.0).1) [
                | inr (error, g) ↦ rw (f, g, drop_copies) (saved, λ _. refl)
                | inl g ↦
                    rw (f, g, drop_copies)
                      (saved, remove_copies-kept plan migrated key plan.sensitive_keys native)
              ])
      ]

  drop_copies-Saved :
      (native : Storage) (key value : String) (plan : Plan) (migrated : List (String × String))
      (s : S)
      → lookup key native.entries ≡ some value
      → lookup key migrated ≡ seen.kept key s
      → Saved native key value (drop_copies service plan migrated native s)
  drop_copies-Saved native key value plan migrated s e agrees =
      let left = drop_copies-leaves native key plan migrated s in
      elim (Bool-cases (contains (keys migrated) key)) [
        | inr c ↦ inl (left.1 c ∙ e)
        | inl c ↦ elim (Option-cases (lookup key migrated)) [
          | inl f ↦ inl (left.1 ((lookup-eq-none_iff key migrated).0 f) ∙ e)
          | inr (kept, f) ↦ inr (kept, left.0 ∙ (sym agrees ∙ f))
        ]
      ]

  carry_out-Saved :
      (native : Storage) (key value : String) (plan : Plan) (s : S)
      → Planned service native s plan
      → is_sensitive_storage_key key ≡ true
      → lookup key native.entries ≡ some value
      → Saved native key value (carry_out service plan native s)
  unfolding carry_out
  carry_out-Saved native key value plan s planned sensitive e =
      let written = write_values service plan plan.sensitive_keys [] s in
      elim (Result-cases written.1) [
        | inr (error, f) ↦ rw (f, carry_out) (inl e)
        | inl (migrated, f) ↦
            rw (f, carry_out)
              (drop_copies-Saved native key value plan migrated written.0 e (
                written-agrees native s written.0 plan migrated key planned sensitive
                  (ap (λ r. (written.0, r)) f)))
      ]

  -- Whichever call fails, and at whichever key: a sensitive value in the native storage is still there after
  -- the migration, or the backend keeps a value for its key.
  pub migrate-keeps_copies :
      (native : Storage) (decrypted : List (String × String)) (key value : String) (s : S)
      → is_sensitive_storage_key key ≡ true
      → lookup key native.entries ≡ some value
      → Saved native key value (migrate_legacy_sensitive_values service native decrypted s)
  unfolding migrate_legacy_sensitive_values
  migrate-keeps_copies native decrypted key value s sensitive e =
      elim (Result-cases (service.load s)) [
        | inr (error, f) ↦ rw (f, migrate_legacy_sensitive_values) (inl e)
        | inl (loaded, f) ↦ elim (Result-cases (plan_for service native decrypted s loaded)) [
          | inr (error, g) ↦ rw (f, g, migrate_legacy_sensitive_values) (inl e)
          | inl (plan, g) ↦
              rw (f, g, migrate_legacy_sensitive_values)
                (carry_out-Saved native key value plan s
                  (plan_for-Planned service native decrypted s loaded plan f g) sensitive e)
        ]
      ]
