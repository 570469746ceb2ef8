-- ===== src/CliPools/Normalize/Roundtrip.antt =====
-- Well-formed rotation pools pass through `normalizeCliRotationPools` unchanged.
use quota_shift.Prelude.{
  String, ◌≡◌, refl, ap, Bool, true, false, not, Option, none, some, List, [], ◌∷◌, map, contains,
  Distinct, Fresh, Fresh-iff, Avoids-nil, All, filter, filter_of_All, unique_of_Distinct,
}
use quota_shift.Js.{
  str, get, trimmed_text, is_object, is_text, is_false, truthy, array_or_empty, texts_of, items,
  elems, elems-items, texts_of-map-str,
}
use quota_shift.PoolsV2.Members.{IsTrimmedName}
use quota_shift.CliPools.{CliProvider, agy, codex, CliRotationPool, Account}
use quota_shift.CliPools.Normalize.{
  valid_windows, provider_of, provider_text, windows_or_default, normalize_trigger_windows, admits,
  collect_from, pool_of, read_pool, normalize_from, normalize_cli_rotation_pools, to_value,
  pools_value, reconcile_cli_rotation_pools,
}
use quota_shift.CliPools.Normalize.Invariant.{
  AreWindows, Belongs, IsNormal, ids, normalize_cli-IsNormal,
}

provider_of-provider_text : (p : CliProvider) → provider_of (str (provider_text p)) ≡ some p
unfolding provider_of provider_text is_text
provider_of-provider_text agy = refl
provider_of-provider_text codex = refl

restore_windows :
    (ws : List String)
    → AreWindows ws
    → windows_or_default (filter (contains valid_windows) ws) ≡ ws
unfolding windows_or_default
restore_windows ws h =
    rw (filter_of_All (contains valid_windows) ws h.valid, h.some_window)
      (unique_of_Distinct ws h.once)

admits_of_Belongs :
    (lower : String → String) (known : Option (List Account)) (provider : CliProvider) (id : String)
    → Belongs lower known provider id
    → admits lower known provider id ≡ true
unfolding admits
admits_of_Belongs lower none provider id h = refl
admits_of_Belongs lower (some accounts) provider id (a, e, m) = rw (e, admits) m

not-not : (b : Bool) → not (not b) ≡ b
not-not true = refl
not-not false = refl

module _ (lower : String → String) (known : Option (List Account)) where
  restore_accounts :
      (provider : CliProvider) (seen xs : List String)
      → All IsTrimmedName xs
      → Fresh seen xs
      → All (Belongs lower known provider) xs
      → collect_from lower known provider seen xs ≡ xs
  unfolding collect_from
  restore_accounts provider seen [] h d b = refl
  restore_accounts provider seen (x ∷ xs) h d b =
      rw (h.0.trimmed, h.0.filled, d.0, admits_of_Belongs lower known provider x b.0)
        (ap (λ r. x ∷ r) (restore_accounts provider (x ∷ seen) xs h.1 d.1 b.1))

  pool_of-to_value :
      (p : CliRotationPool)
      → IsNormal lower known p
      → pool_of lower known p.id p.name p.provider (to_value p) ≡ p
  unfolding pool_of to_value get array_or_empty truthy is_false normalize_trigger_windows
  pool_of-to_value p h =
      let restored_accounts : collect_from lower known p.provider []
            (texts_of (elems (items (map str p.account_ids))))
          ≡ p.account_ids =
        rw (elems-items, texts_of-map-str)
          (restore_accounts p.provider [] p.account_ids h.accounts
            ((Fresh-iff [] p.account_ids).1 (Avoids-nil p.account_ids, h.accounts_once))
            h.accounts_known) in
      let restored_windows : windows_or_default
            (filter (contains valid_windows) (texts_of (elems (items (map str p.trigger_windows)))))
          ≡ p.trigger_windows =
        rw (elems-items, texts_of-map-str) (restore_windows p.trigger_windows h.windows) in
      λ i. record {
        id = p.id;
        provider = p.provider;
        name = p.name;
        account_ids = restored_accounts i;
        enabled = p.enabled;
        auto_switch = p.auto_switch;
        trigger_windows = restored_windows i;
        fallback_latest_enabled = p.fallback_latest_enabled;
        switch_when_idle_only = not-not p.switch_when_idle_only i;
      }

  read_pool-to_value :
      (seen : List String) (p : CliRotationPool)
      → IsNormal lower known p
      → contains seen p.id ≡ false
      → read_pool lower known seen (to_value p) ≡ some p
  read_pool-to_value seen p h new =
      unfold read_pool to_value get trimmed_text is_object in
      rw
        (
          h.id.trimmed,
          h.name.trimmed,
          h.id.filled,
          h.name.filled,
          new,
          provider_of-provider_text p.provider,
        )
        (ap some (rw (h.id.trimmed, h.name.trimmed) (pool_of-to_value p h)))

  normalize_from-to_value :
      (seen : List String) (ps : List CliRotationPool)
      → All (IsNormal lower known) ps
      → Fresh seen (ids ps)
      → normalize_from lower known seen (map to_value ps) ≡ ps
  unfolding normalize_from
  normalize_from-to_value seen [] h d = refl
  normalize_from-to_value seen (p ∷ ps) h d =
      rw (read_pool-to_value seen p h.0 d.0, normalize_from)
        (ap (λ r. p ∷ r) (normalize_from-to_value (p.id ∷ seen) ps h.1 d.1))

-- Well-formed rotation pools with distinct ids, handed over as JavaScript objects, come back as they
-- are, with or without known accounts.
pub normalize_cli-pools_value :
    (lower : String → String) (known : Option (List Account)) (ps : List CliRotationPool)
    → All (IsNormal lower known) ps
    → Distinct (ids ps)
    → normalize_cli_rotation_pools lower (pools_value ps) known ≡ ps
normalize_cli-pools_value lower known ps h d =
    unfold normalize_cli_rotation_pools pools_value array_or_empty in
    rw elems-items (
      normalize_from-to_value lower known [] ps h
        ((Fresh-iff [] (ids ps)).1 (Avoids-nil (ids ps), d)))

-- Reconciling pools with the accounts leaves well-formed pools whose members are all known accounts of
-- the pool's provider, and reconciling once more changes nothing.
pub reconcile_idempotent :
    (lower : String → String) (ps : List CliRotationPool) (accounts : List Account)
    → (let qs = reconcile_cli_rotation_pools lower ps accounts in
        All (IsNormal lower (some accounts)) qs
        × (reconcile_cli_rotation_pools lower qs accounts ≡ qs))
unfolding reconcile_cli_rotation_pools
reconcile_idempotent lower ps accounts =
    let (normal, distinct) = normalize_cli-IsNormal lower (pools_value ps) (some accounts) in
    (normal, normalize_cli-pools_value lower (some accounts) _ normal distinct)
