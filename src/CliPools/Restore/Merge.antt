-- ===== src/CliPools/Restore/Merge.antt =====
-- What the merge of restored pools keeps and what it replaces.
use quota_shift.Prelude.{
  String, ◌≡◌, refl, Bool, true, false, Option, List, [], ◌∷◌, all, contains, get_by, arith, All,
}
use quota_shift.CliPools.{CliRotationPool}
use quota_shift.CliPools.Restore.{RestoredAccounts, known_ids, restored_pool}

-- Each pool stands under its own id.
abbrev Keyed : List (String × CliRotationPool) → Type 0
Keyed [] = Unit
Keyed ((k, p) ∷ m) = (p.id ≡ k) × Keyed m

abbrev get_pool : List CliRotationPool → String → Option CliRotationPool
get_pool = get_by (λ p. p.id)

all-holds : (p : String → Bool) (xs : List String) → all p xs ≡ true → All (λ x. p x ≡ true) xs
all-holds p [] h = tt
all-holds p (x ∷ xs) h = ground (arith, all-holds p xs)

-- A restored pool that is enabled was enabled in the backup, does not switch by itself, and has only
-- accounts of its provider as members.
pub restored_pool-safe :
    (accounts : RestoredAccounts) (pool : CliRotationPool)
    → (restored_pool accounts pool).enabled ≡ true
    → (let p = restored_pool accounts pool in
        (pool.enabled ≡ true)
        × (p.auto_switch ≡ false)
        × All (λ id. contains (known_ids accounts p.provider) id ≡ true) p.account_ids)
unfolding restored_pool
restored_pool-safe accounts pool h = (ground arith, refl, all-holds _ _ (ground arith))
