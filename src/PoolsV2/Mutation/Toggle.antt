-- ===== src/PoolsV2/Mutation/Toggle.antt =====
-- `setEnabled`: what it changes, and that a pool can always be switched off.
use quota_shift.Prelude.{
  ℕ, String, ◌≡◌, ◌≢◌, refl, Bool, true, false, not, Option, none, List, [], ◌∷◌, map, arith,
  contains, Distinct, All, filter, find, ◌==◌, eq_iff,
}
use quota_shift.PoolsV2.{CodexModelPool, KnownAccount}
use quota_shift.PoolsV2.Validate.Spec.{
  IsAcceptable, IsAccepted, validate_iff, pool_ids, enabled_aliases,
}
use quota_shift.PoolsV2.Mutation.{PoolRegistryState, set_enabled, apply_pool_mutation, with_enabled}

ids-with_enabled :
    (id : String) (b : Bool) (ps : List CodexModelPool)
    → pool_ids (map (with_enabled id b) ps) ≡ pool_ids ps
unfolding with_enabled
ids-with_enabled id b [] = refl
ids-with_enabled id b (p ∷ ps) = ground (arith, ids-with_enabled id b ps)

-- The pools of other ids.
abbrev pub others : String → List CodexModelPool → List CodexModelPool
others id = filter (λ p. not (p.id == id))

others-with_enabled :
    (id : String) (b : Bool) (ps : List CodexModelPool)
    → others id (map (with_enabled id b) ps) ≡ others id ps
unfolding with_enabled
others-with_enabled id b [] = refl
others-with_enabled id b (p ∷ ps) = ground (arith, others-with_enabled id b ps)

flag-with_enabled :
    (id : String) (b : Bool) (ps : List CodexModelPool)
    → All (λ p. p.enabled ≡ b) (filter (λ p. p.id == id) (map (with_enabled id b) ps))
unfolding with_enabled
flag-with_enabled id b [] = tt
flag-with_enabled id b (p ∷ ps) = ground (arith, flag-with_enabled id b ps, eq_iff p.id id)

IsAcceptable-disabled :
    (known : Option (List KnownAccount)) (id : String) (ps : List CodexModelPool)
    → All (IsAcceptable known) ps
    → All (IsAcceptable known) (map (with_enabled id false) ps)
unfolding with_enabled
IsAcceptable-disabled known id [] h = tt
IsAcceptable-disabled known id (p ∷ ps) h = ground (arith, IsAcceptable-disabled known id ps)

module _ (lower : String → String) where
  aliases-disabled :
      (id a : String) (ps : List CodexModelPool)
      → contains (enabled_aliases lower ps) a ≡ false
      → contains (enabled_aliases lower (map (with_enabled id false) ps)) a ≡ false
  unfolding with_enabled contains
  aliases-disabled id a [] h = refl
  aliases-disabled id a (p ∷ ps) h = ground (arith, aliases-disabled id a ps)

  distinct-disabled :
      (id : String) (ps : List CodexModelPool)
      → Distinct (enabled_aliases lower ps)
      → Distinct (enabled_aliases lower (map (with_enabled id false) ps))
  unfolding with_enabled
  distinct-disabled id [] h = tt
  distinct-disabled id (p ∷ ps) h =
      ground (arith, distinct-disabled id ps, aliases-disabled id (lower p.public_model_name) ps)

find-of_contains :
    (id : String) (ps : List CodexModelPool)
    → contains (pool_ids ps) id ≡ true
    → find (λ (p : CodexModelPool). p.id == id) ps ≢ none
unfolding contains
find-of_contains id [] h e = cc
find-of_contains id (p ∷ ps) h e = ground (arith, find-of_contains id ps)

-- Switching a pool off, at the current revision, succeeds whenever the registry holds accepted pools
-- and one of that id.
pub disable-success :
    (lower : String → String) (known : Option (List KnownAccount)) (s : PoolRegistryState)
    (id : String)
    → IsAccepted lower known s.pools
    → contains (pool_ids s.pools) id ≡ true
    → (apply_pool_mutation lower s (set_enabled s.revision id false) known).success ≡ true
unfolding apply_pool_mutation
disable-success lower known s id h found =
    let accepted : IsAccepted lower known (map (with_enabled id false) s.pools) = record {
      each = IsAcceptable-disabled known id s.pools h.each;
      ids = rw ids-with_enabled h.ids;
      aliases = distinct-disabled lower id s.pools h.aliases;
    } in
    ground (
      arith,
      find-of_contains id s.pools found,
      (validate_iff lower known (map (with_enabled id false) s.pools)).1 accepted,
    )

-- A successful `setEnabled` keeps the ids and their order and every pool of another id, and the pools
-- of its id carry the new flag.
pub set_enabled-changes :
    (lower : String → String) (known : Option (List KnownAccount)) (s : PoolRegistryState)
    (revision : ℕ) (id : String) (b : Bool)
    → (apply_pool_mutation lower s (set_enabled revision id b) known).success ≡ true
    → (let ps = (apply_pool_mutation lower s (set_enabled revision id b) known).pools in
        (pool_ids ps ≡ pool_ids s.pools)
        × (others id ps ≡ others id s.pools)
        × All (λ p. p.enabled ≡ b) (filter (λ p. p.id == id) ps))
unfolding apply_pool_mutation
set_enabled-changes lower known s revision id b h =
    let same : (apply_pool_mutation lower s (set_enabled revision id b) known).pools
        ≡ map (with_enabled id b) s.pools =
      ground arith in
    rw same (
      ids-with_enabled id b s.pools,
      others-with_enabled id b s.pools,
      flag-with_enabled id b s.pools,
    )
