-- ===== src/CliPools/Order.antt =====
-- `orderCliPoolAccounts` of src/utils/cli-pools/account-order.ts, over any account with an id.
use quota_shift.Prelude.{
  String, ◌≡◌, refl, ap, Bool, not, none, some, List, [], ◌∷◌, ◌++◌, map, filter, contains,
  contains-append, contains-filter, unique, unique-Distinct, Distinct, Distinct-append,
  Distinct-filter, Avoids, get_by, get_by-key, get_by-eq-none_iff, arith, Option-cases, inl, inr,
}

module _ {ℓ} {A : Type ℓ} (id : A → String) where
  -- `[...selected].flatMap((id) => { const account = byId.get(id); return account ? [account] : []; })`
  pick : List A → List String → List A
  pick accounts [] = []
  pick accounts (k ∷ ks) = elim (get_by id accounts k) [
    | none ↦ pick accounts ks
    | some account ↦ account ∷ pick accounts ks
  ]

  unfoldable pub order_cli_pool_accounts : List A → List String → List A
  unfolding pick
  order_cli_pool_accounts accounts selected_ids =
      let selected = unique selected_ids in
      pick accounts selected ++ filter (λ a. not (contains selected (id a))) accounts

  ids-pick :
      (accounts : List A) (ks : List String)
      → map id (pick accounts ks) ≡ filter (contains (map id accounts)) ks
  unfolding pick
  ids-pick accounts [] = refl
  ids-pick accounts (k ∷ ks) = elim (Option-cases (get_by id accounts k)) [
    | inl e ↦ rw (e, pick, (get_by-eq-none_iff id accounts k).0 e) (ids-pick accounts ks)
    | inr (a, e) ↦
        ground (
          arith,
          ids-pick accounts ks,
          get_by-key id accounts k a,
          get_by-eq-none_iff id accounts k,
        )
  ]

  ids-filter :
      (p : String → Bool) (accounts : List A)
      → map id (filter (λ a. p (id a)) accounts) ≡ filter p (map id accounts)
  ids-filter p [] = refl
  ids-filter p (a ∷ accounts) = ground (arith, ids-filter p accounts)

  map-append_ids : (xs ys : List A) → map id (xs ++ ys) ≡ map id xs ++ map id ys
  map-append_ids [] ys = refl
  map-append_ids (x ∷ xs) ys = ap (λ r. id x ∷ r) (map-append_ids xs ys)

  -- The selected accounts come first, in rotation order and once each, selected ids without an account
  -- left out; the other accounts follow in the order that they had.
  pub ids-order :
      (accounts : List A) (selected_ids : List String)
      → map id (order_cli_pool_accounts accounts selected_ids)
        ≡ filter (contains (map id accounts)) (unique selected_ids)
          ++ filter (λ k. not (contains (unique selected_ids) k)) (map id accounts)
  unfolding order_cli_pool_accounts
  ids-order accounts selected_ids =
      rw (map-append_ids, ids-pick)
        (ap (λ r. filter (contains (map id accounts)) (unique selected_ids) ++ r)
          (ids-filter (λ k. not (contains (unique selected_ids) k)) accounts))

Avoids-selected :
    (known selected xs : List String)
    → Avoids (filter (contains known) selected) (filter (λ k. not (contains selected k)) xs)
Avoids-selected known selected [] = tt
Avoids-selected known selected (x ∷ xs) =
    ground (arith, Avoids-selected known selected xs, contains-filter (contains known) selected x)

-- Reordering loses no account, adds none and repeats none: ids that are distinct stay distinct, and
-- the same ids are there.
pub order-same_ids {ℓ} :
    {A : Type ℓ} (id : A → String) (accounts : List A) (selected_ids : List String) (k : String)
    → Distinct (map id accounts)
    → (let result = map id (order_cli_pool_accounts id accounts selected_ids) in
        Distinct result × (contains result k ≡ contains (map id accounts) k))
order-same_ids id accounts selected_ids k d =
    let known = map id accounts in
    let selected = unique selected_ids in
    rw ids-order (
      Distinct-append (filter (contains known) selected)
          (filter (λ k. not (contains selected k)) known)
          (Distinct-filter (contains known) selected (unique-Distinct selected_ids))
          (Distinct-filter (λ k. not (contains selected k)) known d)
          (Avoids-selected known selected known),
      ground (
        arith,
        contains-append (filter (contains known) selected)
            (filter (λ k. not (contains selected k)) known) k,
        contains-filter (contains known) selected k,
        contains-filter (λ j. not (contains selected j)) known k,
      ),
    )
