-- ===== src/Secure/Hydration.antt =====
-- The write phase of the migration, key by key (src/utils/auth/secure-storage-migration.ts).
use quota_shift.Prelude.{
  String, ◌≡◌, refl, ap, sym, ◌∙◌, true, false, Option, none, some, List, [], ◌∷◌, lookup, insert,
  lookup-insert, contains, Distinct, eq_iff, arith, Option-cases, inl, inr,
}
use quota_shift.Js.{find_field}
use quota_shift.Secure.Services.{
  Services, Observed, ok_injective, ok-not-failed, ok, failed, read_string,
}
use quota_shift.Secure.Migration.{Plan, legacy_value, or_else, write_values}

-- What the adapter should end with for a key: the backend's own value before any plaintext copy.
abbrev pub wanted : Plan → String → Option String
wanted plan key = or_else (read_string (find_field plan.secure_fields key)) (legacy_value plan key)

module _ {ℓ} {S : Type ℓ} {service : Services S} (seen : Observed service) where
  -- Of the keys that a loop of writes went over, the map has what was wanted, and the backend keeps it.
  pub record Written (plan : Plan) (key : String) (names : List String)
      (before after : List (String × String)) (s t : S) : Type 0 where
    pub untouched :
        contains names key ≡ false
        → (lookup key after ≡ lookup key before) × (seen.kept key t ≡ seen.kept key s)
    pub reached :
        contains names key ≡ true
        → (lookup key after ≡ or_else (wanted plan key) (lookup key before))
          × (seen.kept key t ≡ (elim (read_string (find_field plan.secure_fields key)) [
            | some _ ↦ seen.kept key s
            | none ↦ or_else (legacy_value plan key) (seen.kept key s)
          ]))

  -- One round of the loop, by what it finds.
  module _ (plan : Plan) (name : String) (names : List String) (before : List (String × String))
      (s : S) where
    pub round_kept :
        (value : String)
        → read_string (find_field plan.secure_fields name) ≡ some value
        → write_values service plan (name ∷ names) before s
          ≡ write_values service plan names (insert name value before) s
    unfolding write_values
    round_kept value f = rw (f, write_values) refl

    pub round_none :
        read_string (find_field plan.secure_fields name) ≡ none
        → legacy_value plan name ≡ none
        → write_values service plan (name ∷ names) before s
          ≡ write_values service plan names before s
    unfolding write_values
    round_none f g = rw (f, g, write_values) refl

    pub round_set :
        (value : String)
        → read_string (find_field plan.secure_fields name) ≡ none
        → legacy_value plan name ≡ some value
        → (service.set name value s).1 ≡ none
        → write_values service plan (name ∷ names) before s
          ≡ write_values service plan names (insert name value before) (service.set name value s).0
    unfolding write_values
    round_set value f g h = rw (f, g, h, write_values) refl

    pub round_failed :
        (value error : String)
        → read_string (find_field plan.secure_fields name) ≡ none
        → legacy_value plan name ≡ some value
        → (service.set name value s).1 ≡ some error
        → write_values service plan (name ∷ names) before s
          ≡ ((service.set name value s).0, failed error)
    unfolding write_values
    round_failed value error f g h = rw (f, g, h, write_values) refl

  pub write_values-Written :
      (plan : Plan) (key : String) (names : List String) (before after : List (String × String))
      (s t : S)
      → Distinct names
      → write_values service plan names before s ≡ (t, ok after)
      → Written plan key names before after s t
  unfolding contains or_else write_values
  write_values-Written plan key [] before after s t d e = record {
    untouched = λ _. (
      ap (lookup key) (sym (ok_injective (ap (λ w. w.1) e))),
      ap (seen.kept key) (sym (ap (λ w. w.0) e)),
    );
    reached = λ c. cc;
  }
  write_values-Written plan key (name ∷ names) before after s t d e =
      elim (Option-cases (read_string (find_field plan.secure_fields name))) [
        | inr (value, f) ↦
            (let rest =
                write_values-Written plan key names (insert name value before) after s t d.1
                  (sym (round_kept plan name names before s value f) ∙ e) in
              record {
                untouched = ground (arith, rest.untouched, lookup-insert name key value before);
                reached = ground (
                  arith,
                  rest.untouched,
                  rest.reached,
                  lookup-insert name key value before,
                  eq_iff name key,
                  f,
                  d.0,
                );
              })
        | inl f ↦ elim (Option-cases (legacy_value plan name)) [
          | inl g ↦
              (let rest =
                  write_values-Written plan key names before after s t d.1
                    (sym (round_none plan name names before s f g) ∙ e) in
                record {
                  untouched = ground (arith, rest.untouched);
                  reached =
                      ground (arith, rest.untouched, rest.reached, eq_iff name key, f, g, d.0);
                })
          | inr (value, g) ↦ elim (Option-cases (service.set name value s).1) [
            | inl h ↦
                (let rest =
                    write_values-Written plan key names (insert name value before) after
                      (service.set name value s).0 t d.1
                      (sym (round_set plan name names before s value f g h) ∙ e) in
                  record {
                    untouched = ground (
                      arith,
                      rest.untouched,
                      lookup-insert name key value before,
                      seen.set_ok name value key s h,
                    );
                    reached = ground (
                      arith,
                      rest.untouched,
                      rest.reached,
                      lookup-insert name key value before,
                      seen.set_ok name value key s h,
                      eq_iff name key,
                      f,
                      g,
                      d.0,
                    );
                  })
            | inr (error, h) ↦ absurd (
                ok-not-failed (
                  ap (λ w. w.1)
                    (sym (round_failed plan name names before s value error f g h) ∙ e)))
          ]
        ]
      ]
