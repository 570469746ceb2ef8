-- ===== src/Reorder/Sorting/Placed.antt =====
-- What `sortByOrderValue` of src/utils/account/account-order.ts returns, without its comparator.
use mathlib.Core.List.{append_assoc}
use quota_shift.Prelude.{
  ℕ, suc, ◌≤◌, String, ◌≡◌, refl, ap, ap₂, sym, ◌∙◌, inl, inr, true, false, not, Option, some, List,
  [], ◌∷◌, ◌++◌, filter, contains, All-append, All-imp, filter-holds, eq_iff, Bool-cases,
  if◌then◌else◌, ◌==◌, arith, All,
}
use quota_shift.Reorder.Sorting.{
  index_from, comes_after, insert_sorted, sort_stable, sort_by_order_value,
}
use quota_shift.Reorder.Sorting.Insertion.{
  index_absent, index_last, index_present, insert-past, insert-front, after_true, after_false,
  none_last, none_after_some,
}

-- The items by a saved order, put together without a comparison: for each id of the order, in its order and
-- at its last place there, the items of that id as they were given; then the items of no such id.
module _ {ℓ} {A : Type ℓ} (get_id : A → String) where
  abbrev pub placed : List String → List A → List A
  placed [] items = []
  placed (id ∷ order) items =
      (if contains order id then [] else filter (λ x. get_id x == id) items) ++ placed order items

  abbrev pub unplaced : List String → List A → List A
  unplaced order items = filter (λ x. not (contains order (get_id x))) items

module _ {ℓ} {A : Type ℓ} (get_id : A → String) (index : A → Option ℕ) where
  -- The index is by the places of a list of ids, from an offset on.
  abbrev Agrees : ℕ → List String → Type ℓ
  Agrees i order =
      (y : A) → contains order (get_id y) ≡ true → index y ≡ index_from i order (get_id y)

  abbrev group : String → List String → List A → List A
  group id order items = if contains order id then [] else filter (λ x. get_id x == id) items

  group-holds :
      (P : A → Type 0) (id : String) (order : List String) (items : List A)
      → ((y : A) → (get_id y == id) ≡ true → contains order id ≡ false → P y)
      → All P (group id order items)
  group-holds P id order items h = elim (Bool-cases (contains order id)) [
    | inl e ↦ rw e tt
    | inr e ↦ rw e (
        All-imp (λ y same. h y same e) (filter (λ x. get_id x == id) items)
          (filter-holds (λ x. get_id x == id) items))
  ]

  placed-holds :
      (order : List String) (items : List A)
      → All (λ y. contains order (get_id y) ≡ true) (placed get_id order items)
  unfolding contains
  placed-holds [] items = tt
  placed-holds (id ∷ order) items =
      All-append _ (group id order items) (placed get_id order items)
        (group-holds _ id order items
          (λ y same absent. ground (arith, eq_iff (get_id y) id, eq_iff id (get_id y))))
        (All-imp (λ y held. ground arith) (placed get_id order items) (placed-holds order items))

  head_same :
      (id : String) (order : List String) (x : A)
      → contains (id ∷ order) (get_id x) ≡ true
      → contains order (get_id x) ≡ false
      → (get_id x == id) ≡ true
  unfolding contains
  head_same id order x held absent = ground (arith, eq_iff (get_id x) id, eq_iff id (get_id x))

  group_unchanged :
      (id : String) (order : List String) (x : A) (xs : List A)
      → contains order (get_id x) ≡ true
      → group id order xs ≡ group id order (x ∷ xs)
  group_unchanged id order x xs held = ground (arith, eq_iff (get_id x) id)

  placed_unchanged :
      (order : List String) (x : A) (xs : List A)
      → contains order (get_id x) ≡ false
      → placed get_id order (x ∷ xs) ≡ placed get_id order xs
  unfolding contains
  placed_unchanged [] x xs h = refl
  placed_unchanged (id ∷ order) x xs h =
      ap₂ (λ g p. g ++ p) (ground (arith, eq_iff (get_id x) id, eq_iff id (get_id x)))
        (placed_unchanged order x xs (ground arith))

  group_grown :
      (id : String) (order : List String) (x : A) (xs : List A)
      → (get_id x == id) ≡ true
      → contains order id ≡ false
      → x ∷ group id order xs ≡ group id order (x ∷ xs)
  group_grown id order x xs same absent = ground arith

  module _ (i : ℕ) (id : String) (order : List String) (agrees : Agrees i (id ∷ order)) where
    index_head : (y : A) → (get_id y == id) ≡ true → contains order id ≡ false → index y ≡ some i
    unfolding contains
    index_head y same absent =
        let e = (eq_iff (get_id y) id).0 same in
        agrees y (ground (arith, eq_iff id (get_id y)))
        ∙ index_last i id order (get_id y) (ground (arith, eq_iff id (get_id y)))
            (ap (contains order) e ∙ absent)

    Agrees-later : Agrees (suc i) order
    unfolding contains index_from
    Agrees-later y held =
        let later = index_present (suc i) order (get_id y) held in
        agrees y (ground arith) ∙ (rw (later.1, index_from) refl) ∙ sym later.1

    index_later :
        (y : A) → contains order (get_id y) ≡ true → (j : ℕ) × (index y ≡ some j) × (suc i ≤ j)
    index_later y held =
        let later = index_present (suc i) order (get_id y) held in
        (later.0, Agrees-later y held ∙ later.1, later.2)

    -- The insertion of an item whose id has a later place in the order.
    insert_later :
        (x : A) (xs rest : List A)
        → contains order (get_id x) ≡ true
        → insert_sorted index x (placed get_id order xs ++ rest)
          ≡ placed get_id order (x ∷ xs) ++ rest
        → insert_sorted index x (placed get_id (id ∷ order) xs ++ rest)
          ≡ placed get_id (id ∷ order) (x ∷ xs) ++ rest
    insert_later x xs rest held done =
        let found = index_later x held in
        let before = placed get_id order xs in
        ap (insert_sorted index x) (append_assoc (group id order xs) before rest)
        ∙ insert-past index x (group id order xs) (before ++ rest) (
            group-holds _ id order xs (λ y same absent.
              after_true (index x) (index y) i found.0 found.1 (index_head y same absent) found.2))
        ∙ ap (λ ys. group id order xs ++ ys) done
        ∙ sym (append_assoc (group id order xs) (placed get_id order (x ∷ xs)) rest)
        ∙ ap (λ ys. (ys ++ placed get_id order (x ∷ xs)) ++ rest)
            (group_unchanged id order x xs held)

    -- The insertion of an item whose id has its last place at the head of the order.
    insert_head :
        (x : A) (xs rest : List A)
        → (get_id x == id) ≡ true
        → contains order id ≡ false
        → All (λ y. comes_after (index x) (index y) ≡ false) rest
        → insert_sorted index x (placed get_id (id ∷ order) xs ++ rest)
          ≡ placed get_id (id ∷ order) (x ∷ xs) ++ rest
    insert_head x xs rest same absent free =
        let here = index_head x same absent in
        insert-front index x (placed get_id (id ∷ order) xs ++ rest) (
          All-append _ (placed get_id (id ∷ order) xs) rest
            (All-append _ (group id order xs) (placed get_id order xs)
              (group-holds _ id order xs (λ y same_y absent_y.
                after_false (index x) (index y) i i here (index_head y same_y absent_y)
                  (omega arith)))
              (All-imp
                (λ y held.
                  let found = index_later y held in
                  after_false (index x) (index y) i found.0 here found.1 (omega (arith, found.2)))
                (placed get_id order xs) (placed-holds order xs)))
            free)
        ∙ ap₂ (λ g p. (g ++ p) ++ rest) (group_grown id order x xs same absent)
            (sym (
              placed_unchanged order x xs
                (ap (contains order) ((eq_iff (get_id x) id).0 same) ∙ absent)))

  -- An item whose id is in the order is inserted into its group, in front of the others of its id.
  insert-placed :
      (i : ℕ) (order : List String) (x : A) (xs rest : List A)
      → Agrees i order
      → contains order (get_id x) ≡ true
      → All (λ y. comes_after (index x) (index y) ≡ false) rest
      → insert_sorted index x (placed get_id order xs ++ rest)
        ≡ placed get_id order (x ∷ xs) ++ rest
  unfolding contains
  insert-placed i [] x xs rest agrees held free = cc
  insert-placed i (id ∷ order) x xs rest agrees held free =
      elim (Bool-cases (contains order (get_id x))) [
        | inl later ↦
            insert_later i id order agrees x xs rest later
              (insert-placed (suc i) order x xs rest (Agrees-later i id order agrees) later free)
        | inr absent ↦
            let same = head_same id order x held absent in
            insert_head i id order agrees x xs rest same
              (ap (contains order) (sym ((eq_iff (get_id x) id).0 same)) ∙ absent) free
      ]

module _ {ℓ} {A : Type ℓ} (order : List String) (get_id : A → String) where
  abbrev index_of : A → Option ℕ
  index_of x = index_from 0 order (get_id x)

  all_free :
      (x : A) (items : List A)
      → All (λ y. comes_after (index_of x) (index_of y) ≡ false) (unplaced get_id order items)
  all_free x items =
      All-imp
        (λ y (out : not (contains order (get_id y)) ≡ true).
          none_last (index_of x) (index_of y) (index_absent 0 order (get_id y) (ground arith)))
        (unplaced get_id order items) (filter-holds (λ y. not (contains order (get_id y))) items)

  placed_empty : (ids : List String) → placed get_id ids [] ≡ []
  placed_empty [] = refl
  placed_empty (id ∷ ids) = ground (arith, placed_empty ids)

  sort-placed :
      (items : List A)
      → sort_stable index_of items ≡ placed get_id order items ++ unplaced get_id order items
  unfolding sort_stable
  sort-placed [] = ap (λ ys. ys ++ []) (sym (placed_empty order))
  sort-placed (x ∷ xs) =
      ap (insert_sorted index_of x) (sort-placed xs)
      ∙ elim (Bool-cases (contains order (get_id x))) [
        | inl held ↦
            insert-placed get_id index_of 0 order x xs (unplaced get_id order xs) (λ y h. refl) held
              (all_free x xs)
            ∙ ap (λ ys. placed get_id order (x ∷ xs) ++ ys) (rw held)
        | inr absent ↦
            insert-past index_of x (placed get_id order xs) (unplaced get_id order xs) (
              All-imp
                (λ y held.
                  let found = index_present 0 order (get_id y) held in
                  none_after_some (index_of x) (index_of y) found.0
                    (index_absent 0 order (get_id x) absent) found.1)
                (placed get_id order xs) (placed-holds get_id index_of order xs))
            ∙ ap (λ ys. placed get_id order xs ++ ys)
                (insert-front index_of x (unplaced get_id order xs) (all_free x xs))
            ∙ ap₂ (λ ys zs. ys ++ zs) (sym (placed_unchanged get_id index_of order x xs absent))
                (rw absent)
      ]

-- The sorted items are, for each id of the saved order, in that order and at the last place of an id that is
-- repeated, the items of that id in the order they were given, and then the items whose id has no place, in
-- the order they were given.
pub sort_by_order-placed {ℓ} :
    {A : Type ℓ} (items : List A) (order : List String) (get_id : A → String)
    → sort_by_order_value items order get_id
      ≡ placed get_id order items ++ unplaced get_id order items
unfolding sort_by_order_value
sort_by_order-placed items order get_id = sort-placed order get_id items
