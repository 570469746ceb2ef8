-- ===== src/PoolsV2/Migration/Safety.antt =====
-- A migrated registry never routes to accounts that need a separate sign-in.
use quota_shift.Prelude.{
  All-filter_imp, All-imp, ◌≤◌, String, ◌≡◌, refl, true, false, Option, none, some, List, [], ◌∷◌,
  contains, Distinct, Fresh, Fresh-iff, All, filter, length, arith, is_nil, eq_iff, Bool-cases, inl,
  inr,
}
use quota_shift.Js.{Value, get, trimmed_text, array_or_empty, trim}
use quota_shift.PoolsV2.{CodexModelPool, openai_api_key, KnownAccount}
use quota_shift.PoolsV2.Members.{KnownUsesKey, infer_auth_mode, infer_auth_mode-openai_api_key}
use quota_shift.PoolsV2.Validate.Spec.{pool_ids}
use quota_shift.PoolsV2.Migration.{
  is_target_active, needs_siwc, members_of, skipped, migrate_pool, migrate_from,
  migrate_codex_pools_v1,
}

-- The known members of the pool sign in with keys.
abbrev pub KeyMembers : Option (List KnownAccount) → CodexModelPool → Type 0
KeyMembers none pool = ⊥
KeyMembers (some known) pool = All (KnownUsesKey known) pool.member_account_ids

-- The id is that of the old registry's active pool.
abbrev pub IsTarget : Option String → String → Type 0
IsTarget none id = ⊥
IsTarget (some active) id = id ≡ trim active

IsTarget-of_active :
    (active : Option String) (id : String) → is_target_active active id ≡ true → IsTarget active id
unfolding is_target_active
IsTarget-of_active none id h = cc
IsTarget-of_active (some active) id h = ground (arith, eq_iff id (trim active))

pub record IsRoutable (active : Option String) (known : Option (List KnownAccount))
    (pool : CodexModelPool) : Type 0 where
  pub target : IsTarget active pool.id
  pub members : is_nil pool.member_account_ids ≡ false
  pub mode : pool.auth_mode ≡ openai_api_key
  pub keys : KeyMembers known pool

abbrev pub enabled_pools : List CodexModelPool → List CodexModelPool
enabled_pools = filter (λ p. p.enabled)

module _ (active : Option String) (known : Option (List KnownAccount)) where
  migrate_pool-IsRoutable :
      (raw : Value)
      → (migrate_pool active known raw).enabled ≡ true
      → IsRoutable active known (migrate_pool active known raw)
  unfolding migrate_pool needs_siwc
  migrate_pool-IsRoutable raw h =
      let mode : (infer_auth_mode (members_of raw) known).mode ≡ openai_api_key = ground arith in
      let (accounts, given, filled, _, keys) =
        infer_auth_mode-openai_api_key (members_of raw) known mode in
      record {
        target = IsTarget-of_active active _ (ground arith);
        members = filled;
        mode = mode;
        keys = rw given keys;
      }

  migrate_from-IsRoutable :
      (seen : List String) (raws : List Value)
      → All
          (λ p. p.enabled ≡ true → IsRoutable active known p)
          (migrate_from active known seen raws).pools
  unfolding migrate_from
  migrate_from-IsRoutable seen [] = tt
  migrate_from-IsRoutable seen (raw ∷ raws) = elim (Bool-cases (skipped seen raw)) [
    | inl e ↦ rw e (migrate_from-IsRoutable seen raws)
    | inr e ↦ rw e (
      migrate_pool-IsRoutable raw,
      migrate_from-IsRoutable (trimmed_text (get raw "id") ∷ seen) raws,
    )
  ]

  migrate_from-Fresh :
      (seen : List String) (raws : List Value)
      → Fresh seen (pool_ids (migrate_from active known seen raws).pools)
  unfolding migrate_from migrate_pool trimmed_text skipped
  migrate_from-Fresh seen [] = tt
  migrate_from-Fresh seen (raw ∷ raws) = ground (
    arith,
    migrate_from-Fresh seen raws,
    migrate_from-Fresh (trimmed_text (get raw "id") ∷ seen) raws,
  )

-- Every pool that the migration enables is the active one of the old registry, has members, and
-- signs in by API key, with the accounts known and every known member a key account.
pub migrate-IsRoutable :
    (raw : Value) (active : Option String) (known : Option (List KnownAccount))
    → All (IsRoutable active known) (enabled_pools (migrate_codex_pools_v1 raw active known).pools)
unfolding migrate_codex_pools_v1
migrate-IsRoutable raw active known =
    All-filter_imp (IsRoutable active known) (λ p. p.enabled) _
      (migrate_from-IsRoutable active known [] (array_or_empty raw))

abbrev OnlyTargets : Option String → List CodexModelPool → Type 0
OnlyTargets active = All (λ p. p.enabled ≡ true → IsTarget active p.id)

no_target :
    (a : String) (ps : List CodexModelPool)
    → OnlyTargets (some a) ps
    → contains (pool_ids ps) (trim a) ≡ false
    → length (enabled_pools ps) ≡ 0
unfolding contains
no_target a [] h c = refl
no_target a (p ∷ ps) h c = ground (arith, no_target a ps, eq_iff p.id (trim a))

one_target :
    (active : Option String) (ps : List CodexModelPool)
    → OnlyTargets active ps
    → Distinct (pool_ids ps)
    → length (enabled_pools ps) ≤ 1
one_target active [] h d = omega arith
one_target none (p ∷ ps) h d = ground (arith, one_target none ps)
one_target (some a) (p ∷ ps) h d = ground (arith, one_target (some a) ps, no_target a ps)

-- The migration enables at most one pool, and no id occurs twice in its result.
pub migrate-enabled-le :
    (raw : Value) (active : Option String) (known : Option (List KnownAccount))
    → (let ps = (migrate_codex_pools_v1 raw active known).pools in
        Distinct (pool_ids ps) × (length (enabled_pools ps) ≤ 1))
unfolding migrate_codex_pools_v1
migrate-enabled-le raw active known =
    let raws = array_or_empty raw in
    let distinct = ((Fresh-iff [] _).0 (migrate_from-Fresh active known [] raws)).1 in
    (
      distinct,
      one_target active _
          (All-imp (λ p h e. (h e).target) _ (migrate_from-IsRoutable active known [] raws))
          distinct,
    )
