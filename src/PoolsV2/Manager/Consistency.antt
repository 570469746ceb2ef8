-- ===== src/PoolsV2/Manager/Consistency.antt =====
-- The pools in use stay acceptable for the accounts at hand, and stay the saved ones.
use quota_shift.Prelude.{
  filter-holds, subst, String, ◌≡◌, refl, Bool, true, false, not, some, List, [], ◌∷◌, map,
  contains, filter, length, eqb, ltb, any, All, Distinct, arith, is_nil, Bool-cases, Option-cases,
  ◌⊎◌, inl, inr, length-filter-le,
}
use quota_shift.PoolsV2.{CodexModelPool, AuthMode, siwc, openai_api_key, KnownAccount}
use quota_shift.PoolsV2.Validate.{validate_enabled_pool_names}
use quota_shift.PoolsV2.Validate.Spec.{
  IsAcceptable, IsAccepted, IsEligible, pool_ids, enabled_aliases, validate_iff,
}
use quota_shift.PoolsV2.Manager.{
  Manager, update_model_pools, known_members, is_siwc, keeps_pool, reconcile_pool,
  reconcile_accounts, ManagerEvent, update, accounts_changed, Session, handle,
}

-- A filter that drops nothing has met no failing string.
all_of_full_filter :
    (p : String → Bool) (xs : List String)
    → length (filter p xs) ≡ length xs
    → All (λ x. p x ≡ true) xs
all_of_full_filter p [] h = tt
all_of_full_filter p (x ∷ xs) h = ground (arith, all_of_full_filter p xs, length-filter-le p xs)

-- The members that are left make the pool eligible, when they are named by the test of the filter.
IsEligible-siwc :
    (old accounts : List KnownAccount) (mode : AuthMode) (xs : List String)
    → mode ≡ siwc
    → All (IsEligible old mode) xs
    → All (IsEligible accounts mode) xs
IsEligible-siwc old accounts siwc xs e h = h
IsEligible-siwc old accounts openai_api_key xs e h = cc

IsEligible-key :
    (accounts : List KnownAccount) (mode : AuthMode) (xs : List String)
    → mode ≡ openai_api_key
    → All (λ x. contains (map (λ a. a.id) accounts) x ≡ true) xs
    → All (IsEligible accounts mode) xs
IsEligible-key accounts siwc xs e h = cc
IsEligible-key accounts openai_api_key xs e h = h

AuthMode-cases : (mode : AuthMode) → (mode ≡ siwc) ⊎ (mode ≡ openai_api_key)
AuthMode-cases siwc = inl refl
AuthMode-cases openai_api_key = inr refl

nonempty-is_nil : (xs : List String) → ltb 0 (length xs) ≡ true → is_nil xs ≡ false
nonempty-is_nil [] h = cc
nonempty-is_nil (x ∷ xs) h = refl

module _ (accounts : List KnownAccount) where
  reconcile_siwc :
      (pool : CodexModelPool) → pool.auth_mode ≡ siwc → reconcile_pool accounts pool ≡ pool
  unfolding reconcile_pool keeps_pool is_siwc
  reconcile_siwc pool e = rw e

  reconcile_kept :
      (pool : CodexModelPool)
      → pool.auth_mode ≡ openai_api_key
      → length (known_members accounts pool) ≡ length pool.member_account_ids
      → reconcile_pool accounts pool ≡ pool
  unfolding reconcile_pool keeps_pool is_siwc
  reconcile_kept pool e k = ground arith

  reconcile_cut-IsAcceptable :
      (old : List KnownAccount) (pool : CodexModelPool)
      → pool.auth_mode ≡ openai_api_key
      → keeps_pool accounts pool ≡ false
      → IsAcceptable (some old) pool
      → IsAcceptable (some accounts) (reconcile_pool accounts pool)
  unfolding reconcile_pool known_members
  reconcile_cut-IsAcceptable old pool e k h =
      rw (k, reconcile_pool)
        record {
          alias = h.alias;
          members = λ on. nonempty-is_nil (known_members accounts pool) (ground arith);
          eligible = λ on.
              IsEligible-key accounts pool.auth_mode _ e (filter-holds _ pool.member_account_ids);
        }

  reconcile_pool-IsAcceptable :
      (old : List KnownAccount) (pool : CodexModelPool)
      → IsAcceptable (some old) pool
      → IsAcceptable (some accounts) (reconcile_pool accounts pool)
  unfolding keeps_pool known_members is_siwc
  reconcile_pool-IsAcceptable old pool h = elim (AuthMode-cases pool.auth_mode) [
    | inl e ↦ rw (reconcile_siwc pool e) record {
      alias = h.alias;
      members = h.members;
      eligible = λ on. IsEligible-siwc old accounts pool.auth_mode _ e (h.eligible on);
    }
    | inr e ↦
        elim (Bool-cases
          (eqb (length (known_members accounts pool)) (length pool.member_account_ids))) [
            | inl k ↦
                let full : length (known_members accounts pool) ≡ length pool.member_account_ids =
                  ground arith in
                rw (reconcile_kept pool e full) record {
                  alias = h.alias;
                  members = h.members;
                  eligible = λ on.
                      IsEligible-key accounts pool.auth_mode _ e (all_of_full_filter _ _ full);
                }
            | inr k ↦ reconcile_cut-IsAcceptable old pool e (ground arith) h
          ]
  ]

  reconcile-each :
      (old : List KnownAccount) (ps : List CodexModelPool)
      → All (IsAcceptable (some old)) ps
      → All (IsAcceptable (some accounts)) (map (reconcile_pool accounts) ps)
  reconcile-each old [] h = tt
  reconcile-each old (p ∷ ps) h = (reconcile_pool-IsAcceptable old p h.0, reconcile-each old ps h.1)

  reconcile-ids :
      (ps : List CodexModelPool) → pool_ids (map (reconcile_pool accounts) ps) ≡ pool_ids ps
  unfolding reconcile_pool
  reconcile-ids [] = refl
  reconcile-ids (p ∷ ps) = ground (arith, reconcile-ids ps)

  reconcile-avoids :
      (lower : String → String) (a : String) (ps : List CodexModelPool)
      → contains (enabled_aliases lower ps) a ≡ false
      → contains (enabled_aliases lower (map (reconcile_pool accounts) ps)) a ≡ false
  unfolding reconcile_pool contains
  reconcile-avoids lower a [] h = refl
  reconcile-avoids lower a (p ∷ ps) h = ground (arith, reconcile-avoids lower a ps)

  reconcile-aliases :
      (lower : String → String) (ps : List CodexModelPool)
      → Distinct (enabled_aliases lower ps)
      → Distinct (enabled_aliases lower (map (reconcile_pool accounts) ps))
  unfolding reconcile_pool
  reconcile-aliases lower [] h = tt
  reconcile-aliases lower (p ∷ ps) h =
      ground
        (arith, reconcile-aliases lower ps, reconcile-avoids lower (lower p.public_model_name) ps)

  reconcile-IsAccepted :
      (lower : String → String) (old : List KnownAccount) (ps : List CodexModelPool)
      → IsAccepted lower (some old) ps
      → IsAccepted lower (some accounts) (map (reconcile_pool accounts) ps)
  reconcile-IsAccepted lower old ps h = record {
    each = reconcile-each old ps h.each;
    ids = rw reconcile-ids h.ids;
    aliases = reconcile-aliases lower ps h.aliases;
  }

  -- Where the effect writes nothing, mapping the pools has changed none.
  reconcile_unchanged :
      (ps : List CodexModelPool)
      → any (λ p. not (keeps_pool accounts p)) ps ≡ false
      → map (reconcile_pool accounts) ps ≡ ps
  unfolding reconcile_pool
  reconcile_unchanged [] h = refl
  reconcile_unchanged (p ∷ ps) h = ground (arith, reconcile_unchanged ps)

-- The pools in use are accepted for the accounts at hand and are those that were saved.
pub record IsConsistent (lower : String → String) (s : Session) : Type 0 where
  pub accepted : IsAccepted lower (some s.accounts) s.manager.model_pools
  pub stored : s.manager.saved ≡ s.manager.model_pools

update-IsConsistent :
    (lower : String → String) (accounts : List KnownAccount) (next : List CodexModelPool)
    (m : Manager)
    → IsConsistent lower (record { accounts = accounts; manager = m })
    → IsConsistent lower
        (record { accounts = accounts; manager = (update_model_pools lower accounts next m).0 })
unfolding update_model_pools
update-IsConsistent lower accounts next m h =
    elim (Option-cases (validate_enabled_pool_names lower (some accounts) next)) [
      | inl e ↦
          rw (e, update_model_pools)
            record { accepted = (validate_iff lower (some accounts) next).0 e; stored = refl }
      | inr (err, e) ↦
          rw (e, update_model_pools) record { accepted = h.accepted; stored = h.stored }
    ]

reconcile-IsConsistent :
    (lower : String → String) (old accounts : List KnownAccount) (m : Manager)
    → IsConsistent lower (record { accounts = old; manager = m })
    → IsConsistent lower (record { accounts = accounts; manager = reconcile_accounts accounts m })
unfolding reconcile_accounts
reconcile-IsConsistent lower old accounts m h =
    let accepted = reconcile-IsAccepted accounts lower old m.model_pools h.accepted in
    elim (Bool-cases (any (λ p. not (keeps_pool accounts p)) m.model_pools)) [
      | inl e ↦ rw (e, reconcile_accounts) record { accepted = accepted; stored = refl }
      | inr e ↦
          rw (e, reconcile_accounts)
            record {
              accepted =
                  subst (λ ps. IsAccepted lower (some accounts) ps)
                    (reconcile_unchanged accounts m.model_pools e) accepted;
              stored = h.stored;
            }
    ]

handle-IsConsistent :
    (lower : String → String) (s : Session) (event : ManagerEvent)
    → IsConsistent lower s
    → IsConsistent lower (handle lower s event)
unfolding handle
handle-IsConsistent lower s (update next) h = update-IsConsistent lower s.accounts next s.manager h
handle-IsConsistent lower s (accounts_changed accounts) h =
    reconcile-IsConsistent lower s.accounts accounts s.manager h

-- The states that a session goes through.
pub data Reach (lower : String → String) (s : Session) : Session → Type 0 where
  here : Reach lower s s
  next :
      {t : Session}
      → Reach lower s t
      → (event : ManagerEvent) → Reach lower s (handle lower t event)

-- From a consistent session, whatever edits are tried and however the accounts change, the pools in
-- use are accepted for the accounts at hand and are the saved ones.
pub Reach-IsConsistent :
    {lower : String → String} {s t : Session}
    → IsConsistent lower s
    → Reach lower s t
    → IsConsistent lower t
Reach-IsConsistent h here = h
Reach-IsConsistent {lower} h (next {t} r event) =
    handle-IsConsistent lower t event (Reach-IsConsistent h r)
