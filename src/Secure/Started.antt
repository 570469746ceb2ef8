-- ===== src/Secure/Started.antt =====
-- The adapter after a hydration that succeeded (`hydrate` of src/utils/auth/secure-storage.ts).
use quota_shift.Prelude.{
  String, ◌≡◌, refl, ap, sym, ◌∙◌, subst, true, ◌&&◌, none, List, [], ◌∷◌, lookup, keys, contains,
  ◌==◌, eq_iff, eq_refl, arith, Bool-cases, inl, inr,
}
use quota_shift.Browser.{Storage, remove_item}
use quota_shift.Browser.Keys.{SameAccess, remove_item-SameAccess, lookup-remove_item}
use quota_shift.Secure.Services.{ok_injective, ok-not-failed, ok}
use quota_shift.Secure.Migration.{Plan, remove_copies}
use quota_shift.Secure.Migrated.{remove-Round}

removed_none :
    (name key : String) (native : Storage)
    → native.writable ≡ true
    → lookup key native.entries ≡ none
    → lookup key (remove_item name native).entries ≡ none
removed_none name key native w e = ground (arith, lookup-remove_item name key native w)

removed_own :
    (key : String) (native : Storage)
    → native.writable ≡ true
    → lookup key (remove_item key native).entries ≡ none
removed_own key native w = ground (arith, lookup-remove_item key key native w, eq_refl key)

-- A key without a native copy gets none.
pub remove_copies-stays :
    (plan : Plan) (migrated : List (String × String)) (key : String) (names : List String)
    (native : Storage)
    → lookup key native.entries ≡ none
    → lookup key (remove_copies plan migrated names native).0.entries ≡ none
unfolding remove_copies
remove_copies-stays plan migrated key [] native e = e
remove_copies-stays plan migrated key (name ∷ names) native e =
    elim (remove-Round plan migrated name names native) [
      | inl (c, q) ↦
          ap (λ r. lookup key r.0.entries) q ∙ remove_copies-stays plan migrated key names native e
      | inr (inl (c, w, q)) ↦
          ap (λ r. lookup key r.0.entries) q
          ∙ remove_copies-stays plan migrated key names (remove_item name native)
              (removed_none name key native w e)
      | inr (inr q) ↦ ap (λ r. lookup key r.0.entries) q ∙ e
    ]

pub remove_copies-SameAccess :
    (plan : Plan) (migrated : List (String × String)) (names : List String) (native : Storage)
    → SameAccess native (remove_copies plan migrated names native).0
unfolding remove_copies
remove_copies-SameAccess plan migrated [] native = (refl, refl)
remove_copies-SameAccess plan migrated (name ∷ names) native =
    elim (remove-Round plan migrated name names native) [
      | inl (c, q) ↦
          subst (λ r. SameAccess native r.0) (sym q)
            (remove_copies-SameAccess plan migrated names native)
      | inr (inl (c, w, q)) ↦
          (let rest = remove_copies-SameAccess plan migrated names (remove_item name native) in
            let same = remove_item-SameAccess name native in
            subst (λ r. SameAccess native r.0) (sym q) (rest.0 ∙ same.0, rest.1 ∙ same.1))
      | inr (inr q) ↦ subst (λ r. SameAccess native r.0) (sym q) (refl, refl)
    ]

-- A loop that ended without an error removed the copies that it went over.
pub remove_copies-gone :
    (plan : Plan) (migrated result : List (String × String)) (key : String) (names : List String)
    (native : Storage)
    → (contains (keys migrated) key && contains (keys plan.native_values) key) ≡ true
    → contains names key ≡ true
    → (remove_copies plan migrated names native).1 ≡ ok result
    → lookup key (remove_copies plan migrated names native).0.entries ≡ none
unfolding contains
remove_copies-gone plan migrated result key [] native has i e = cc
remove_copies-gone plan migrated result key (name ∷ names) native has i e =
    elim (remove-Round plan migrated name names native) [
      | inl (c, q) ↦
          ap (λ r. lookup key r.0.entries) q
          ∙ remove_copies-gone plan migrated result key names native has
              (ground (arith, eq_iff name key)) (ap (λ r. r.1) (sym q) ∙ e)
      | inr (inl (c, w, q)) ↦ elim (Bool-cases (name == key)) [
        | inl p ↦
            ap (λ r. lookup key r.0.entries) q
            ∙ remove_copies-stays plan migrated key names (remove_item name native) (
                subst (λ k. lookup k (remove_item name native).entries ≡ none)
                  ((eq_iff name key).0 p) (removed_own name native w))
        | inr p ↦
            ap (λ r. lookup key r.0.entries) q
            ∙ remove_copies-gone plan migrated result key names (remove_item name native) has
                (ground arith) (ap (λ r. r.1) (sym q) ∙ e)
      ]
      | inr (inr q) ↦ absurd (ok-not-failed (ap (λ r. r.1) (sym q) ∙ e))
    ]

pub remove_copies-result :
    (plan : Plan) (migrated result : List (String × String)) (names : List String)
    (native : Storage)
    → (remove_copies plan migrated names native).1 ≡ ok result
    → migrated ≡ result
unfolding remove_copies
remove_copies-result plan migrated result [] native e = ok_injective e
remove_copies-result plan migrated result (name ∷ names) native e =
    elim (remove-Round plan migrated name names native) [
      | inl (c, q) ↦
          remove_copies-result plan migrated result names native (ap (λ r. r.1) (sym q) ∙ e)
      | inr (inl (c, w, q)) ↦
          remove_copies-result plan migrated result names (remove_item name native)
            (ap (λ r. r.1) (sym q) ∙ e)
      | inr (inr q) ↦ absurd (ok-not-failed (ap (λ r. r.1) (sym q) ∙ e))
    ]
