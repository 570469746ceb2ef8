-- ===== src/PoolsV2/Validate/Spec.antt =====
-- What `validateEnabledPoolNames` accepts, stated over the whole list of pools.
use quota_shift.Prelude.{
  String, ◌≡◌, ◌↔◌, refl, true, false, Option, none, some, List, [], ◌∷◌, map, contains, Distinct,
  Avoids, Avoids-cons, Avoids-nil, All, is_nil, insert, keys, if◌then◌else◌, arith,
  contains-keys-insert, lookup-eq-none_iff, eq_iff,
}
use quota_shift.PoolsV2.{CodexModelPool, AuthMode, siwc, openai_api_key, KnownAccount}
use quota_shift.PoolsV2.Validate.{
  matches_alias, matches_registration, account_ids, check_member, check_members, check_known,
  check_alias, check_pool, either_error, next_aliases, validate_from, validate_enabled_pool_names,
}

-- A member of a pool that signs in with ChatGPT is a native registration, any other a known account.
abbrev pub IsEligible : List KnownAccount → AuthMode → String → Type 0
IsEligible known siwc id = matches_registration id ≡ true
IsEligible known openai_api_key id = contains (map (λ a. a.id) known) id ≡ true

abbrev pub AllEligible : Option (List KnownAccount) → CodexModelPool → Type 0
AllEligible none pool = Unit
AllEligible (some known) pool = All (IsEligible known pool.auth_mode) pool.member_account_ids

pub record IsAcceptable (known : Option (List KnownAccount)) (pool : CodexModelPool) : Type 0 where
  pub alias : matches_alias pool.public_model_name ≡ true
  pub members : pool.enabled ≡ true → is_nil pool.member_account_ids ≡ false
  pub eligible : pool.enabled ≡ true → AllEligible known pool

abbrev pub pool_ids : List CodexModelPool → List String
pool_ids = map (λ p. p.id)

-- The case-folded aliases of the enabled pools.
abbrev pub enabled_aliases : (String → String) → List CodexModelPool → List String
enabled_aliases lower [] = []
enabled_aliases lower (p ∷ ps) =
    let rest = enabled_aliases lower ps in
    if p.enabled then lower p.public_model_name ∷ rest else rest

pub record IsAccepted (lower : String → String) (known : Option (List KnownAccount))
    (pools : List CodexModelPool) : Type 0 where
  pub each : All (IsAcceptable known) pools
  pub ids : Distinct (pool_ids pools)
  pub aliases : Distinct (enabled_aliases lower pools)

check_member_iff :
    (known : List KnownAccount) (pool : CodexModelPool) (mode : AuthMode) (id : String)
    → (check_member known pool mode id ≡ none) ↔ IsEligible known mode id
unfolding check_member account_ids
check_member_iff known pool siwc id = ground arith
check_member_iff known pool openai_api_key id = ground arith

check_members_iff :
    (known : List KnownAccount) (pool : CodexModelPool) (ids : List String)
    → (check_members known pool ids ≡ none) ↔ All (IsEligible known pool.auth_mode) ids
unfolding check_members
check_members_iff known pool [] = (λ _. tt, λ _. refl)
check_members_iff known pool (id ∷ ids) =
    ground (arith, check_member_iff known pool pool.auth_mode id, check_members_iff known pool ids)

check_known_iff :
    (known : Option (List KnownAccount)) (pool : CodexModelPool)
    → (check_known known pool ≡ none) ↔ AllEligible known pool
unfolding check_known
check_known_iff none pool = (λ _. tt, λ _. refl)
check_known_iff (some known) pool = check_members_iff known pool pool.member_account_ids

check_alias_iff :
    (aliases : List (String × String)) (folded : String) (pool : CodexModelPool)
    → (check_alias aliases folded pool ≡ none) ↔ (contains (keys aliases) folded ≡ false)
unfolding check_alias
check_alias_iff aliases folded pool = ground (arith, lookup-eq-none_iff folded aliases)

Avoids-keys-insert :
    (m : List (String × String)) (k v : String) (xs : List String)
    → Avoids (keys (insert k v m)) xs ↔ (Avoids (keys m) xs × (contains xs k ≡ false))
unfolding contains
Avoids-keys-insert m k v [] = (λ _. (tt, refl), λ _. tt)
Avoids-keys-insert m k v (x ∷ xs) =
    ground
      (arith, Avoids-keys-insert m k v xs, contains-keys-insert k x v m, eq_iff x k, eq_iff k x)

module _ (lower : String → String) (known : Option (List KnownAccount)) where
  check_pool_iff :
      (seen : List String) (aliases : List (String × String)) (pool : CodexModelPool)
      → (check_pool lower known seen aliases pool ≡ none) ↔ (
          (contains seen pool.id ≡ false)
          × IsAcceptable known pool
          × (pool.enabled ≡ true → contains (keys aliases) (lower pool.public_model_name) ≡ false))
  unfolding check_pool either_error
  check_pool_iff seen aliases pool = ground (
    arith,
    check_alias_iff aliases (lower pool.public_model_name) pool,
    check_known_iff known pool,
  )

  -- The loop accepts the pools that remain exactly when they fit what it has seen.
  validate_from_iff :
      (seen : List String) (aliases : List (String × String)) (pools : List CodexModelPool)
      → (validate_from lower known seen aliases pools ≡ none) ↔ (
          Avoids seen (pool_ids pools)
          × Avoids (keys aliases) (enabled_aliases lower pools)
          × IsAccepted lower known pools)
  unfolding validate_from next_aliases
  validate_from_iff seen aliases [] =
      (λ _. (tt, tt, record { each = tt; ids = tt; aliases = tt }), λ _. refl)
  validate_from_iff seen aliases (p ∷ ps) = ground (
    arith,
    check_pool_iff seen aliases p,
    validate_from_iff (p.id ∷ seen) (next_aliases lower known aliases p) ps,
    Avoids-cons seen (pool_ids ps) p.id,
    Avoids-keys-insert aliases (lower p.public_model_name) p.public_model_name
        (enabled_aliases lower ps),
  )

-- `validateEnabledPoolNames` accepts exactly the lists whose ids are distinct, whose pools all have
-- a well-formed alias, and whose enabled pools have members, only eligible ones when the accounts are
-- given, and aliases that stay distinct after case folding.
pub validate_iff :
    (lower : String → String) (known : Option (List KnownAccount)) (pools : List CodexModelPool)
    → (validate_enabled_pool_names lower known pools ≡ none) ↔ IsAccepted lower known pools
unfolding validate_enabled_pool_names
validate_iff lower known pools = ground (
  arith,
  validate_from_iff lower known [] [] pools,
  Avoids-nil (pool_ids pools),
  Avoids-nil (enabled_aliases lower pools),
)
