-- ===== src/Reorder/Sorting.antt =====
-- `sortByOrderValue` of src/utils/account/account-order.ts. `Array.prototype.sort` is stable: insertion
-- from the end, each item in front of those that it does not come after.
pub mod Insertion
pub mod Placed
use mathlib.Core.List.{append_assoc}
use quota_shift.Prelude.{
  ℕ, suc, ◌≤◌, String, ◌≡◌, refl, ap, ap₂, sym, ◌∙◌, ◌⊎◌, inl, inr, Bool, true, false, not, Option,
  none, some, List, [], ◌∷◌, ◌++◌, filter, contains, All-append, All-imp, filter-holds, eq_iff,
  Bool-cases, ltb, if◌then◌else◌, ◌==◌, arith, All,
}

-- `new Map(order.map((id, index) => [id, index])).get(id)`
unfoldable pub index_from : ℕ → List String → String → Option ℕ
index_from i [] id = none
index_from i (x ∷ order) id = elim (index_from (suc i) order id) [
  | some j ↦ some j
  | none ↦ if x == id then some i else none
]

-- The comparator's result is positive.
unfoldable pub comes_after : Option ℕ → Option ℕ → Bool
comes_after (some a) (some b) = ltb b a
comes_after (some a) none = false
comes_after none (some b) = true
comes_after none none = false

module _ {ℓ} {A : Type ℓ} (index : A → Option ℕ) where
  unfoldable pub insert_sorted : A → List A → List A
  insert_sorted x [] = x ∷ []
  insert_sorted x (y ∷ ys) =
      let later = insert_sorted x ys in
      if comes_after (index x) (index y) then y ∷ later else x ∷ y ∷ ys

  unfoldable pub sort_stable : List A → List A
  unfolding insert_sorted
  sort_stable [] = []
  sort_stable (x ∷ xs) = insert_sorted x (sort_stable xs)

unfoldable pub sort_by_order_value {ℓ} : {A : Type ℓ} → List A → List String → (A → String) → List A
unfolding sort_stable index_from
sort_by_order_value items order get_id = sort_stable (λ x. index_from 0 order (get_id x)) items
