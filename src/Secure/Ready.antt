-- ===== src/Secure/Ready.antt =====
-- From a hydration that succeeded to runs of the adapter (src/utils/auth/secure-storage.ts).
use quota_shift.Prelude.{
  String, ◌≡◌, refl, ap, sym, ◌∙◌, subst, Bool, true, false, Option, none, List, [], ◌∷◌, keys,
  contains, All, Bool-cases, lookup-eq-none_iff, if_false_holds, eq_refl, arith, inl, inr,
}
use quota_shift.Browser.{Storage}
use quota_shift.Secure.{Adapter, is_sensitive_storage_key, get_item}
use quota_shift.Secure.Services.{Services, Observed, Result, ok, failed}
use quota_shift.Secure.Chain.{drain}
use quota_shift.Secure.Migration.{
  migrate_legacy_sensitive_values, hydrate, after_migration, fill_values,
}
use quota_shift.Secure.Settled.{Tail}
use quota_shift.Secure.Separate.{Separate, Guarded, Plain, Sensitive, AllPlain}
use quota_shift.Secure.Apart.{run-Separate, drain-Separate}
use quota_shift.Secure.Runs.{Event, Sound, run, drain-agrees}
use quota_shift.Secure.Ending.{Ended, migrate-Ended}

-- A hydration, what follows it, and the end of the chain.
unfoldable pub session {ℓ} :
    {S : Type ℓ}
    → Services S
    → (String → Bool)
    → List (String × String)
    → List Event
    → S × Adapter
    → S × Adapter
unfolding hydrate run drain
session service store_backed decrypted events w =
    let began = hydrate service decrypted w in
    drain service (run service store_backed events (began.0, began.1))

-- Entries of which no sensitive key can be looked up.
Plain-of_lookup :
    (m : List (String × String))
    → ((key : String) → Sensitive key → contains (keys m) key ≡ false)
    → All Plain (keys m)
unfolding contains
Plain-of_lookup [] h = tt
Plain-of_lookup ((name, value) ∷ m) h = (
  elim (Bool-cases (is_sensitive_storage_key name)) [
    | inl e ↦ ground (arith, h name e, eq_refl name)
    | inr e ↦ e
  ],
  Plain-of_lookup m (λ key e. ground (arith, h key e)),
)

hydrate_fresh {ℓ} :
    {S : Type ℓ} (service : Services S) (decrypted : List (String × String)) (s : S) (a : Adapter)
    → a.hydrated ≡ false
    → hydrate service decrypted (s, a)
      ≡ after_migration (migrate_legacy_sensitive_values service a.native decrypted s) a
unfolding hydrate
hydrate_fresh service decrypted s a fresh =
    if_false_holds
      (λ r. r ≡ after_migration (migrate_legacy_sensitive_values service a.native decrypted s) a)
      a.hydrated _ _ fresh refl

accounts-Sensitive : Sensitive "antigravity-accounts-list"
unfolding is_sensitive_storage_key
accounts-Sensitive = refl

module _ {ℓ} {S : Type ℓ} {service : Services S} (seen : Observed service) where
  -- What the client finds after a hydration: each sensitive key is sound, and plain keys are apart.
  abbrev pub Ready : S × Adapter × Option String → Type 0
  Ready (s, a, _) = ((key : String) → Sensitive key → Sound seen key (s, a)) × Separate a

  after_migration-Ready :
      (moved : S × Storage × Result (List (String × String))) (a : Adapter)
      → a.write_chain ≡ []
      → a.native.writable ≡ true
      → ((key : String) (result : List (String × String))
          → Sensitive key
          → moved.2 ≡ ok result
          → Ended seen a.native key result moved)
      → (after_migration moved a).2 ≡ none
      → Ready (after_migration moved a)
  unfolding after_migration fill_values
  after_migration-Ready (s, native, failed error) a idle writable ended e = cc
  after_migration-Ready (s, native, ok migrated) a idle writable ended e =
      let known = ended "antigravity-accounts-list" migrated accounts-Sensitive refl in
      (
        λ key sensitive.
            let at = ended key migrated sensitive refl in
            record {
              writable = at.2.1 ∙ writable;
              settled = record { tail = subst (Tail key _ _) (sym idle) tt; agreed = λ _. refl };
              persisted = at.0;
            },
        record {
          native_plain = Plain-of_lookup native.entries (λ key sensitive.
              (lookup-eq-none_iff key native.entries).0 (ended key migrated sensitive refl).1);
          secure_sensitive = known.3;
          secure_distinct = known.4;
          chain_sensitive = subst (All Guarded) (sym idle) tt;
        },
      )

  -- A hydration that throws nothing, of an adapter that waits for no write.
  pub hydrate-Ready :
      (decrypted : List (String × String)) (s : S) (a : Adapter)
      → a.hydrated ≡ false
      → a.write_chain ≡ []
      → a.native.writable ≡ true
      → (hydrate service decrypted (s, a)).2 ≡ none
      → Ready (hydrate service decrypted (s, a))
  hydrate-Ready decrypted s a fresh idle writable e =
      let migrated = hydrate_fresh service decrypted s a fresh in
      subst Ready (sym migrated) (
        after_migration-Ready (migrate_legacy_sensitive_values service a.native decrypted s) a idle
          writable
          (λ key result sensitive f. migrate-Ended seen a.native decrypted key result s sensitive f)
          (ap (λ r. r.2) (sym migrated) ∙ e))

  -- For an adapter that is not hydrated yet and has nothing queued, over a native storage that can be written:
  -- after a hydration that throws nothing, whatever calls and steps follow, and whichever calls of the backend
  -- and of the plain store fail, once the chain has run to its end, the adapter answers for every sensitive
  -- key what the backend keeps, and the native storage holds no sensitive key.
  pub session-agrees :
      (store_backed : String → Bool) (decrypted : List (String × String)) (events : List Event)
      (key : String) (s : S) (a : Adapter)
      → a.hydrated ≡ false
      → a.write_chain ≡ []
      → a.native.writable ≡ true
      → (hydrate service decrypted (s, a)).2 ≡ none
      → is_sensitive_storage_key key ≡ true
      → (get_item key (session service store_backed decrypted events (s, a)).1
          ≡ seen.kept key (session service store_backed decrypted events (s, a)).0)
        × AllPlain (session service store_backed decrypted events (s, a)).1.native
  unfolding session
  session-agrees store_backed decrypted events key s a fresh idle writable e sensitive =
      let ready = hydrate-Ready decrypted s a fresh idle writable e in
      let began = hydrate service decrypted (s, a) in
      let left = run service store_backed events (began.0, began.1) in
      (
        drain-agrees service seen store_backed key events (began.0, began.1) (ready.0 key sensitive)
            sensitive,
        (drain-Separate service left.0 left.1
            (run-Separate service store_backed events began.0 began.1 ready.1)).native_plain,
      )
