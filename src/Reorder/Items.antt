-- ===== src/Reorder/Items.antt =====
-- `reorderItems` of src/utils/account/account-order.ts: one item is dropped on another.
use quota_shift.Prelude.{
  ℕ, zero, suc, ◌≤◌, ◌<◌, String, ◌≡◌, refl, subst, ◌∙◌, sym, Bool, true, false, ◌||◌, some, List,
  [], ◌∷◌, map, any, length, contains, Distinct, find_index, find_index-get_elem, insert_at,
  remove_at, get_elem?, ◌==◌, eq_iff, arith, Option-cases, inl, inr,
}
use quota_shift.Reorder.{reorder_items, move_item}

module _ {ℓ} {A : Type ℓ} (p : A → Bool) where
  length-remove_at :
      (xs : List A) (i : ℕ) (x : A)
      → get_elem? xs i ≡ some x
      → suc (length (remove_at xs i)) ≡ length xs
  length-remove_at [] i x h = cc
  length-remove_at (y ∷ xs) zero x h = refl
  length-remove_at (y ∷ xs) (suc i) x h = omega (arith, length-remove_at xs i x h)

  length-insert_at : (xs : List A) (i : ℕ) (x : A) → length (insert_at xs i x) ≡ suc (length xs)
  length-insert_at [] i x = refl
  length-insert_at (y ∷ xs) zero x = refl
  length-insert_at (y ∷ xs) (suc i) x = omega (arith, length-insert_at xs i x)

  any-insert_at : (xs : List A) (i : ℕ) (x : A) → any p (insert_at xs i x) ≡ (p x || any p xs)
  any-insert_at [] i x = refl
  any-insert_at (y ∷ xs) zero x = refl
  any-insert_at (y ∷ xs) (suc i) x = ground (arith, any-insert_at xs i x)

  any-remove_at :
      (xs : List A) (i : ℕ) (x : A)
      → get_elem? xs i ≡ some x
      → (p x || any p (remove_at xs i)) ≡ any p xs
  any-remove_at [] i x h = cc
  any-remove_at (y ∷ xs) zero x h = ground arith
  any-remove_at (y ∷ xs) (suc i) x h = ground (arith, any-remove_at xs i x h)

  find_index-bound : (xs : List A) (i : ℕ) → find_index p xs ≡ some i → i < length xs
  find_index-bound [] i h = cc
  find_index-bound (y ∷ xs) i h = elim (Option-cases (find_index p xs)) [
    | inl e ↦ ground arith
    | inr e ↦ ground (arith, find_index-bound xs e.0 e.1)
  ]

  find_index-insert_at :
      (xs : List A) (i : ℕ) (x : A)
      → any p xs ≡ false
      → p x ≡ true
      → i ≤ length xs
      → find_index p (insert_at xs i x) ≡ some i
  find_index-insert_at [] i x h px le = ground arith
  find_index-insert_at (y ∷ xs) zero x h px le = ground arith
  find_index-insert_at (y ∷ xs) (suc i) x h px le = ground (arith, find_index-insert_at xs i x)

module _ {ℓ} {A : Type ℓ} (id : A → String) where
  -- `any` finds no item of that id.
  abbrev pub HasNone : List A → String → Type 0
  HasNone items source = any (λ x. id x == source) items ≡ false

  contains-map : (xs : List A) (k : String) → contains (map id xs) k ≡ any (λ x. id x == k) xs
  unfolding contains
  contains-map [] k = refl
  contains-map (x ∷ xs) k = ground (arith, contains-map xs k)

  remove_at-HasNone :
      (xs : List A) (i : ℕ) (k : String)
      → Distinct (map id xs)
      → find_index (λ x. id x == k) xs ≡ some i
      → HasNone (remove_at xs i) k
  remove_at-HasNone [] i k d h = cc
  remove_at-HasNone (x ∷ xs) zero k d h = ground (arith, contains-map xs k, eq_iff (id x) k)
  remove_at-HasNone (x ∷ xs) (suc i) k d h = ground (arith, remove_at-HasNone xs i k d.1)

  moved :
      (items : List A) (source target : String) (i j : ℕ)
      → Distinct (map id items)
      → (source == target) ≡ false
      → find_index (λ x. id x == source) items ≡ some i
      → find_index (λ x. id x == target) items ≡ some j
      → (x : A) × (get_elem? items i ≡ some x)
        × ((id x == source) ≡ true)
        × (reorder_items id items source target ≡ insert_at (remove_at items i) j x)
  unfolding reorder_items
  moved items source target i j d ne hi hj =
      let found = find_index-get_elem (λ x. id x == source) items i hi in
      (
        found.0,
        found.1,
        found.2,
        rw (ne, reorder_items) (rw hi (rw hj (rw (found.1, move_item) refl))),
      )

  abbrev pub IsPlaced : List A → String → ℕ → List A → Type 0
  IsPlaced items source j result =
      (find_index (λ x. id x == source) result ≡ some j)
      × (length result ≡ length items)
      × ((k : String) → contains (map id result) k ≡ contains (map id items) k)

  insert-IsPlaced :
      (items : List A) (source : String) (i j : ℕ) (x : A)
      → Distinct (map id items)
      → j < length items
      → find_index (λ x. id x == source) items ≡ some i
      → get_elem? items i ≡ some x
      → (id x == source) ≡ true
      → IsPlaced items source j (insert_at (remove_at items i) j x)
  insert-IsPlaced items source i j x d bound hi at is =
      let rest = length-remove_at (λ x. id x == source) items i x at in
      (
        find_index-insert_at (λ x. id x == source) (remove_at items i) j x
            (remove_at-HasNone items i source d hi) is (omega (arith, rest)),
        length-insert_at (λ x. id x == source) (remove_at items i) j x ∙ rest,
        λ k.
            contains-map (insert_at (remove_at items i) j x) k
            ∙ any-insert_at (λ x. id x == k) (remove_at items i) j x
            ∙ any-remove_at (λ x. id x == k) items i x at
            ∙ sym (contains-map items k),
      )

  -- Dropping an item on another one, in a list with distinct ids that has both: the list keeps its
  -- ids and its length, and the dropped item stands where the other one stood.
  pub reorder_items-IsPlaced :
      (items : List A) (source target : String) (i j : ℕ)
      → Distinct (map id items)
      → (source == target) ≡ false
      → find_index (λ x. id x == source) items ≡ some i
      → find_index (λ x. id x == target) items ≡ some j
      → IsPlaced items source j (reorder_items id items source target)
  reorder_items-IsPlaced items source target i j d ne hi hj =
      let m = moved items source target i j d ne hi hj in
      subst (IsPlaced items source j) (sym m.3) (
        insert-IsPlaced items source i j m.0 d (find_index-bound (λ x. id x == target) items j hj)
          hi m.1 m.2)
