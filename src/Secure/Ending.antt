-- ===== src/Secure/Ending.antt =====
-- A migration that succeeded, as a whole (src/utils/auth/secure-storage-migration.ts).
use quota_shift.Prelude.{
  String, ◌≡◌, refl, ap, sym, ◌∙◌, subst, true, false, ◌&&◌, none, some, List, [], ◌∷◌, lookup,
  insert, keys, contains, All, All-keys-insert, Distinct, Distinct-keys-insert, contains_of_lookup,
  lookup-eq-none_iff, arith, Option-cases, Bool-cases, inl, inr,
}
use quota_shift.Browser.{Storage}
use quota_shift.Browser.Keys.{SameAccess}
use quota_shift.Js.{find_field}
use quota_shift.Secure.{is_sensitive_storage_key}
use quota_shift.Secure.Services.{
  Services, Observed, Result, Result-cases, ok_injective, ok-not-failed, ok, read_string,
}
use quota_shift.Secure.Migration.{
  Plan, legacy_value, or_else, write_values, delete_copies, save_changed, remove_copies,
  drop_copies, carry_out, plan_for, migrate_legacy_sensitive_values,
}
use quota_shift.Secure.Hydration.{
  write_values-Written, round_kept, round_none, round_set, round_failed,
}
use quota_shift.Secure.Planning.{Planned}
use quota_shift.Secure.Plans.{plan_for-Planned}
use quota_shift.Secure.Migrated.{written-agrees, drop_copies-leaves}
use quota_shift.Secure.Started.{
  remove_copies-SameAccess, remove_copies-gone, remove_copies-result, remove_copies-stays,
}

module _ {ℓ} {S : Type ℓ} {service : Services S} (seen : Observed service) where
  -- The written map holds keys of the plan alone, and none twice.
  write_values-keys :
      (plan : Plan) (P : String → Type 0) (names : List String)
      (before after : List (String × String)) (s t : S)
      → All P names
      → All P (keys before)
      → Distinct (keys before)
      → write_values service plan names before s ≡ (t, ok after)
      → All P (keys after) × Distinct (keys after)
  unfolding write_values
  write_values-keys plan P [] before after s t a b d e =
      subst (λ m. All P (keys m) × Distinct (keys m)) (ok_injective (ap (λ w. w.1) e)) (b, d)
  write_values-keys plan P (name ∷ names) before after s t a b d e =
      elim (Option-cases (read_string (find_field plan.secure_fields name))) [
        | inr (value, f) ↦
            write_values-keys plan P names (insert name value before) after s t a.1
              (All-keys-insert P name value before a.0 b) (Distinct-keys-insert name value before d)
              (sym (round_kept seen plan name names before s value f) ∙ e)
        | inl f ↦ elim (Option-cases (legacy_value plan name)) [
          | inl g ↦
              write_values-keys plan P names before after s t a.1 b d
                (sym (round_none seen plan name names before s f g) ∙ e)
          | inr (value, g) ↦ elim (Option-cases (service.set name value s).1) [
            | inl h ↦
                write_values-keys plan P names (insert name value before) after
                  (service.set name value s).0 t a.1 (All-keys-insert P name value before a.0 b)
                  (Distinct-keys-insert name value before d)
                  (sym (round_set seen plan name names before s value f g h) ∙ e)
            | inr (error, h) ↦ absurd (
                ok-not-failed (
                  ap (λ w. w.1)
                    (sym (round_failed seen plan name names before s value error f g h) ∙ e)))
          ]
        ]
      ]

  drop_copies-removed :
      (plan : Plan) (migrated result : List (String × String)) (native : Storage) (s : S)
      → (drop_copies service plan migrated native s).2 ≡ ok result
      → ((drop_copies service plan migrated native s).1
          ≡ (remove_copies plan migrated plan.sensitive_keys native).0)
        × ((remove_copies plan migrated plan.sensitive_keys native).1 ≡ ok result)
  unfolding drop_copies
  drop_copies-removed plan migrated result native s e =
      let deleted = delete_copies service plan migrated plan.sensitive_keys false s in
      elim (Result-cases deleted.1) [
        | inr (error, f) ↦
            absurd (ok-not-failed {error = error} (sym (rw (f, drop_copies) refl) ∙ e))
        | inl (changed, f) ↦ elim (Option-cases (save_changed service changed deleted.0).1) [
          | inr (error, g) ↦
              absurd (ok-not-failed {error = error} (sym (rw (f, g, drop_copies) refl) ∙ e))
          | inl g ↦ (rw (f, g, drop_copies) refl, sym (rw (f, g, drop_copies) refl) ∙ e)
        ]
      ]

  -- A migration that succeeded, seen at a sensitive key: the map has what the backend keeps, and the native
  -- storage has nothing.
  abbrev pub Ended :
      Storage
      → String
      → List (String × String)
      → S × Storage × Result (List (String × String))
      → Type 0
  Ended native key result (t, after, _) =
      (lookup key result ≡ seen.kept key t)
      × (lookup key after.entries ≡ none)
      × SameAccess native after
      × All (λ name. is_sensitive_storage_key name ≡ true) (keys result)
      × Distinct (keys result)

  -- A planned key with a native copy is migrated.
  migrated_copy :
      (native : Storage) (key value : String) (plan : Plan) (migrated : List (String × String))
      (s t : S)
      → Planned service native s plan
      → contains plan.sensitive_keys key ≡ true
      → lookup key native.entries ≡ some value
      → write_values service plan plan.sensitive_keys [] s ≡ (t, ok migrated)
      → (contains (keys migrated) key && contains (keys plan.native_values) key) ≡ true
  unfolding or_else legacy_value lookup
  migrated_copy native key value plan migrated s t planned c e w =
      let written =
        write_values-Written seen plan key plan.sensitive_keys [] migrated s t planned.distinct w in
      let reached = written.reached c in
      let copy = planned.native_copies key c ∙ e in
      ground (
        arith,
        reached.0,
        copy,
        contains_of_lookup key plan.native_values value copy,
        lookup-eq-none_iff key migrated,
      )

  drop_copies-Ended :
      (native : Storage) (key : String) (plan : Plan) (migrated result : List (String × String))
      (s t : S)
      → Planned service native s plan
      → is_sensitive_storage_key key ≡ true
      → write_values service plan plan.sensitive_keys [] s ≡ (t, ok migrated)
      → (drop_copies service plan migrated native t).2 ≡ ok result
      → Ended native key result (drop_copies service plan migrated native t)
  drop_copies-Ended native key plan migrated result s t planned sensitive w e =
      let dropped = drop_copies service plan migrated native t in
      let removed = drop_copies-removed plan migrated result native t e in
      let same = remove_copies-result plan migrated result plan.sensitive_keys native removed.1 in
      let kept = (drop_copies-leaves seen native key plan migrated t).0 in
      let names =
        write_values-keys plan (λ name. is_sensitive_storage_key name ≡ true) plan.sensitive_keys []
          migrated s t planned.sensitive tt tt w in
      let gone : lookup key (remove_copies plan migrated plan.sensitive_keys native).0.entries
          ≡ none =
        elim (Option-cases (lookup key native.entries)) [
          | inl f ↦ remove_copies-stays plan migrated key plan.sensitive_keys native f
          | inr (value, f) ↦ elim (Bool-cases (contains plan.sensitive_keys key)) [
            | inl c ↦
                remove_copies-gone plan migrated result key plan.sensitive_keys native
                  (migrated_copy native key value plan migrated s t planned c f w) c removed.1
            | inr c ↦
                remove_copies-stays plan migrated key plan.sensitive_keys native
                  (planned.missing key sensitive c).1
          ]
        ] in
      (
        ap (lookup key) (sym same)
            ∙ (written-agrees seen native s t plan migrated key planned sensitive w ∙ sym kept),
        ap (λ n. lookup key n.entries) removed.0 ∙ gone,
        subst (SameAccess native) (sym removed.0)
            (remove_copies-SameAccess plan migrated plan.sensitive_keys native),
        subst (λ m. All (λ name. is_sensitive_storage_key name ≡ true) (keys m)) same names.0,
        subst (λ m. Distinct (keys m)) same names.1,
      )

  carry_out-Ended :
      (native : Storage) (key : String) (plan : Plan) (result : List (String × String)) (s : S)
      → Planned service native s plan
      → is_sensitive_storage_key key ≡ true
      → (carry_out service plan native s).2 ≡ ok result
      → Ended native key result (carry_out service plan native s)
  unfolding carry_out
  carry_out-Ended native key plan result s planned sensitive e =
      let written = write_values service plan plan.sensitive_keys [] s in
      elim (Result-cases written.1) [
        | inr (error, f) ↦ absurd (ok-not-failed {error = error} (sym (rw (f, carry_out) refl) ∙ e))
        | inl (migrated, f) ↦
            rw (f, carry_out)
              (drop_copies-Ended native key plan migrated result s written.0 planned sensitive
                (ap (λ r. (written.0, r)) f) (sym (rw (f, carry_out) refl) ∙ e))
      ]

  pub migrate-Ended :
      (native : Storage) (decrypted : List (String × String)) (key : String)
      (result : List (String × String)) (s : S)
      → is_sensitive_storage_key key ≡ true
      → (migrate_legacy_sensitive_values service native decrypted s).2 ≡ ok result
      → Ended native key result (migrate_legacy_sensitive_values service native decrypted s)
  unfolding migrate_legacy_sensitive_values
  migrate-Ended native decrypted key result s sensitive e = elim (Result-cases (service.load s)) [
    | inr (error, f) ↦
        absurd
          (ok-not-failed {error = error} (sym (rw (f, migrate_legacy_sensitive_values) refl) ∙ e))
    | inl (loaded, f) ↦ elim (Result-cases (plan_for service native decrypted s loaded)) [
      | inr (error, g) ↦ absurd (
          ok-not-failed {error = error} (sym (rw (f, g, migrate_legacy_sensitive_values) refl) ∙ e))
      | inl (plan, g) ↦
          rw (f, g, migrate_legacy_sensitive_values)
            (carry_out-Ended native key plan result s
              (plan_for-Planned service native decrypted s loaded plan f g) sensitive
              (sym (rw (f, g, migrate_legacy_sensitive_values) refl) ∙ e))
    ]
  ]
