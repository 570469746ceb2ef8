-- ===== src/Reorder/Sorting/Insertion.antt =====
-- Indices by a saved order, and where an insertion puts an item (`sortByOrderValue` of
-- src/utils/account/account-order.ts).
use quota_shift.Prelude.{
  ℕ, suc, ◌≤◌, String, ◌≡◌, refl, ap, inl, inr, true, false, Option, none, some, List, [], ◌∷◌,
  ◌++◌, contains, Bool-cases, ◌==◌, arith, All,
}
use quota_shift.Reorder.Sorting.{index_from, comes_after, insert_sorted}

pub none_last : (a b : Option ℕ) → b ≡ none → comes_after a b ≡ false
unfolding comes_after
none_last none b e = ap (comes_after none) e
none_last (some i) b e = ap (comes_after (some i)) e

pub none_after_some : (a b : Option ℕ) (j : ℕ) → a ≡ none → b ≡ some j → comes_after a b ≡ true
unfolding comes_after
none_after_some a b j e f = rw (e, comes_after) (rw (f, comes_after))

pub index_absent :
    (i : ℕ) (order : List String) (id : String)
    → contains order id ≡ false
    → index_from i order id ≡ none
unfolding index_from contains
index_absent i [] id h = refl
index_absent i (x ∷ order) id h = ground (arith, index_absent (suc i) order id)

pub index_last :
    (i : ℕ) (x : String) (order : List String) (id : String)
    → (x == id) ≡ true
    → contains order id ≡ false
    → index_from i (x ∷ order) id ≡ some i
unfolding index_from
index_last i x order id same absent =
    rw (index_absent (suc i) order id absent, index_from) (rw same)

pub index_present :
    (i : ℕ) (order : List String) (id : String)
    → contains order id ≡ true
    → (j : ℕ) × (index_from i order id ≡ some j) × (i ≤ j)
unfolding index_from contains
index_present i [] id h = cc
index_present i (x ∷ order) id h = elim (Bool-cases (contains order id)) [
  | inl held ↦
      let later = index_present (suc i) order id held in
      (later.0, rw (later.1, index_from), omega (arith, later.2))
  | inr absent ↦ (i, index_last i x order id (ground arith) absent, omega arith)
]

module _ {ℓ} {A : Type ℓ} (index : A → Option ℕ) where
  -- An item goes past those that it comes after, and in front of those that it does not come after.
  pub insert-past :
      (x : A) (before after : List A)
      → All (λ y. comes_after (index x) (index y) ≡ true) before
      → insert_sorted index x (before ++ after) ≡ before ++ insert_sorted index x after
  unfolding insert_sorted
  insert-past x [] after h = refl
  insert-past x (y ∷ before) after h = rw (h.0) (ap (λ ys. y ∷ ys) (insert-past x before after h.1))

  pub insert-front :
      (x : A) (after : List A)
      → All (λ y. comes_after (index x) (index y) ≡ false) after
      → insert_sorted index x after ≡ x ∷ after
  unfolding insert_sorted
  insert-front x [] h = refl
  insert-front x (y ∷ after) h = rw (h.0)

pub after_true :
    (a b : Option ℕ) (i j : ℕ) → a ≡ some j → b ≡ some i → suc i ≤ j → comes_after a b ≡ true
unfolding comes_after
after_true a b i j e f h = rw (e, comes_after) (rw (f, comes_after) (ground arith))

pub after_false :
    (a b : Option ℕ) (i j : ℕ) → a ≡ some i → b ≡ some j → i ≤ j → comes_after a b ≡ false
unfolding comes_after
after_false a b i j e f h = rw (e, comes_after) (rw (f, comes_after) (ground arith))
