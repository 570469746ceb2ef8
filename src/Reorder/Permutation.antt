-- ===== src/Reorder/Permutation.antt =====
-- A new order of the cards is a permutation of the old one that moves only the dragged card.
use quota_shift.Prelude.{
  ℕ, zero, suc, String, ◌≡◌, refl, ap, ◌∙◌, true, false, not, ◌||◌, Option, List, [], ◌∷◌, filter,
  length, ltb, contains, Distinct, Distinct-filter, contains-filter, insert_at, ◌==◌, eq_iff, arith,
  Bool-cases, inl, inr,
}
use quota_shift.Reorder.{Doubles, SortableCardRect, is_other, reorder_ids_at_pointer}

-- The same ids, in an order that differs at most in where one of them stands.
pub record IsMoved (source : String) (ids moved : List String) : Type 0 where
  pub distinct : Distinct moved
  pub same_length : length moved ≡ length ids
  pub same_ids : (k : String) → contains moved k ≡ contains ids k
  pub same_others : filter (is_other source) moved ≡ filter (is_other source) ids

pub IsMoved-refl : (source : String) (ids : List String) → Distinct ids → IsMoved source ids ids
IsMoved-refl source ids d = record {
  distinct = d;
  same_length = refl;
  same_ids = λ k. refl;
  same_others = refl;
}

contains-insert_at :
    (xs : List String) (i : ℕ) (x k : String)
    → contains (insert_at xs i x) k ≡ (x == k || contains xs k)
unfolding contains
contains-insert_at [] i x k = refl
contains-insert_at (y ∷ xs) zero x k = refl
contains-insert_at (y ∷ xs) (suc i) x k = ground (arith, contains-insert_at xs i x k)

length-insert_at :
    (xs : List String) (i : ℕ) (x : String) → length (insert_at xs i x) ≡ suc (length xs)
length-insert_at [] i x = refl
length-insert_at (y ∷ xs) zero x = refl
length-insert_at (y ∷ xs) (suc i) x = omega (arith, length-insert_at xs i x)

Distinct-insert_at :
    (xs : List String) (i : ℕ) (x : String)
    → contains xs x ≡ false
    → Distinct xs
    → Distinct (insert_at xs i x)
unfolding contains
Distinct-insert_at [] i x h d = (refl, tt)
Distinct-insert_at (y ∷ xs) zero x h d = (h, d)
Distinct-insert_at (y ∷ xs) (suc i) x h d =
    ground (arith, Distinct-insert_at xs i x, contains-insert_at xs i x y, eq_iff x y, eq_iff y x)

filter-insert_at :
    (xs : List String) (i : ℕ) (x : String)
    → filter (is_other x) (insert_at xs i x) ≡ filter (is_other x) xs
filter-insert_at [] i x = ground (arith, eq_iff x x)
filter-insert_at (y ∷ xs) zero x = ground (arith, eq_iff x x)
filter-insert_at (y ∷ xs) (suc i) x = ground (arith, filter-insert_at xs i x)

filter-others :
    (xs : List String) (x : String)
    → filter (is_other x) (filter (is_other x) xs) ≡ filter (is_other x) xs
filter-others [] x = refl
filter-others (y ∷ xs) x = ground (arith, filter-others xs x)

others_absent :
    (xs : List String) (x : String) → contains xs x ≡ false → filter (is_other x) xs ≡ xs
unfolding contains
others_absent [] x h = refl
others_absent (y ∷ xs) x h = ground (arith, others_absent xs x)

length-others :
    (xs : List String) (x : String)
    → Distinct xs
    → contains xs x ≡ true
    → suc (length (filter (is_other x) xs)) ≡ length xs
unfolding contains
length-others [] x d h = ground arith
length-others (y ∷ xs) x d h = elim (Bool-cases (contains xs x)) [
  | inl c ↦ ground (arith, length-others xs x d.1 c, eq_iff y x)
  | inr c ↦ ground (arith, ap length (others_absent xs x c), eq_iff y x)
]

contains-others_self : (xs : List String) (x : String) → contains (filter (is_other x) xs) x ≡ false
contains-others_self xs x = ground (arith, contains-filter (is_other x) xs x, eq_iff x x)

insert-IsMoved :
    (ids : List String) (source : String) (i : ℕ)
    → Distinct ids
    → contains ids source ≡ true
    → IsMoved source ids (insert_at (filter (is_other source) ids) i source)
insert-IsMoved ids source i d h = record {
  distinct =
      Distinct-insert_at _ i source (contains-others_self ids source)
        (Distinct-filter (is_other source) ids d);
  same_length = length-insert_at _ i source ∙ length-others ids source d h;
  same_ids = λ k. ground (
    arith,
    contains-insert_at (filter (is_other source) ids) i source k,
    contains-filter (is_other source) ids k,
    eq_iff source k,
    eq_iff k source,
  );
  same_others = filter-insert_at _ i source ∙ filter-others ids source;
}

-- Whatever the cards' rectangles, the pointer and the arithmetic are, the new order of distinct ids has
-- the same ids, each once, and the others than the dragged card keep their order.
pub reorder_ids-IsMoved :
    {F : Type 0} (ops : Doubles F) (ids : List String) (source : String)
    (rects : List (SortableCardRect F)) (y : F) (grab_y x grab_x : Option F)
    → Distinct ids
    → IsMoved source ids (reorder_ids_at_pointer ops ids source rects y grab_y x grab_x)
unfolding reorder_ids_at_pointer
reorder_ids-IsMoved ops ids source rects y grab_y x grab_x d =
    elim (Bool-cases (not (contains ids source) || ltb (length ids) 2)) [
      | inl e ↦ rw (e, reorder_ids_at_pointer) (IsMoved-refl source ids d)
      | inr e ↦ rw (e, reorder_ids_at_pointer) (insert-IsMoved ids source _ d (ground arith))
    ]
