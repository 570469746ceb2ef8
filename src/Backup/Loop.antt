-- ===== src/Backup/Loop.antt =====
-- The loop of a merge, for any kind of account.
use quota_shift.Prelude.{
  ℕ, zero, suc, ◌+◌, ◌≡◌, refl, ap, ◌∙◌, sym, subst, Bool, inl, inr, some, List, [], ◌∷◌, ◌++◌, map,
  find_index, find_index-get_elem, get_elem?, set, length, length-append, filter, if◌then◌else◌,
  arith, All, All-imp, Option-cases, Bool-cases,
}
use quota_shift.Js.{Value, Fields, get, is_object, truthy}
use quota_shift.Backup.{
  MergedAccounts, id_of, note_id, or_value, merge_one, merge_imports, update_at, add_new,
  not_merged,
}

-- The value stands in the list.
abbrev pub IsListed : Value → List Value → Type 0
IsListed v vs = (before : List Value) × (after : List Value) × (vs ≡ before ++ v ∷ after)

append_nil : (xs : List Value) → xs ++ [] ≡ xs
append_nil [] = refl
append_nil (x ∷ xs) = ap (λ r. x ∷ r) (append_nil xs)

append_assoc : (xs ys zs : List Value) → (xs ++ ys) ++ zs ≡ xs ++ (ys ++ zs)
append_assoc [] ys zs = refl
append_assoc (x ∷ xs) ys zs = ap (λ r. x ∷ r) (append_assoc xs ys zs)

IsListed-append : (v : Value) (vs more : List Value) → IsListed v vs → IsListed v (vs ++ more)
IsListed-append v vs more h =
    (h.0, h.1 ++ more, ap (λ r. r ++ more) h.2 ∙ append_assoc h.0 (v ∷ h.1) more)

-- After a merge: the saved accounts keep their ids and places, the new ones follow, as many as are
-- counted, and each noted import has an id in the result.
pub record IsMerge (current : List Fields) (m : MergedAccounts) : Type 0 where
  pub added : List Value
  pub ids : map id_of m.next ≡ map id_of current ++ added
  pub count : length added ≡ m.imported
  pub noted : All (λ (p : Value × Value). IsListed p.1 (map id_of m.next)) m.imported_id_map

map-set :
    (xs : List Fields) (i : ℕ) (x y : Fields)
    → get_elem? xs i ≡ some x
    → id_of y ≡ id_of x
    → map id_of (set xs i y) ≡ map id_of xs
map-set [] i x y h e = cc
map-set (z ∷ xs) zero x y h e = ap (λ v. v ∷ map id_of xs) (e ∙ ap id_of (ground arith))
map-set (z ∷ xs) (suc i) x y h e = ap (λ r. id_of z ∷ r) (map-set xs i x y h e)

map-append_one :
    (xs : List Fields) (x : Fields) → map id_of (xs ++ x ∷ []) ≡ map id_of xs ++ id_of x ∷ []
map-append_one [] x = refl
map-append_one (y ∷ xs) x = ap (λ r. id_of y ∷ r) (map-append_one xs x)

elem-IsListed :
    (xs : List Fields) (i : ℕ) (x : Fields)
    → get_elem? xs i ≡ some x
    → IsListed (id_of x) (map id_of xs)
elem-IsListed [] i x h = cc
elem-IsListed (z ∷ xs) zero x h =
    ([], map id_of xs, ap (λ v. v ∷ map id_of xs) (ap id_of (ground arith)))
elem-IsListed (z ∷ xs) (suc i) x h =
    let (before, after, e) = elem-IsListed xs i x h in
    (id_of z ∷ before, after, ap (λ r. id_of z ∷ r) e)

note-All :
    (old new : Value) (ids : List Value) (m : List (Value × Value))
    → IsListed new ids
    → All (λ (p : Value × Value). IsListed p.1 ids) m
    → All (λ (p : Value × Value). IsListed p.1 ids) (note_id old new m)
unfolding note_id
note-All old new ids m h hs = elim (Bool-cases (truthy old)) [
  | inl e ↦ rw e (h, hs)
  | inr e ↦ rw e hs
]

pub not_merged-IsMerge : (current : List Fields) → IsMerge current (not_merged current)
unfolding not_merged
not_merged-IsMerge current = record {
  added = [];
  ids = sym (append_nil (map id_of current));
  count = refl;
  noted = tt;
}

module _ (matches : Value → Fields → Bool) (merged : Fields → Value → Fields)
    (created : Value → Value → Fields) (fresh : ℕ → Value)
    (keeps : (existing : Fields) (imp : Value) → id_of (merged existing imp) ≡ id_of existing)
    (names : (imp id : Value) → id_of (created imp id) ≡ id) where
  update-IsMerge :
      (current : List Fields) (i : ℕ) (imp : Value) (m : MergedAccounts)
      → IsMerge current m
      → IsMerge current (update_at matches merged created fresh i imp m)
  unfolding update_at
  update-IsMerge current i imp m h = elim (Option-cases (get_elem? m.next i)) [
    | inl e ↦ rw (e, update_at) h
    | inr (existing, e) ↦
        let same = map-set m.next i existing (merged existing imp) e (keeps existing imp) in
        rw (e, update_at)
          record {
            added = h.added;
            ids = same ∙ h.ids;
            count = h.count;
            noted =
                subst
                  (λ vs.
                    All (λ (p : Value × Value). IsListed p.1 vs)
                      (note_id (get imp "id") (id_of existing) m.imported_id_map))
                  (sym same)
                  (note-All (get imp "id") (id_of existing) (map id_of m.next) m.imported_id_map
                    (elem-IsListed m.next i existing e) h.noted);
          }
  ]

  add-IsMerge :
      (current : List Fields) (imp : Value) (m : MergedAccounts)
      → IsMerge current m
      → IsMerge current (add_new matches merged created fresh imp m)
  unfolding add_new
  add-IsMerge current imp m h =
      let id = or_value (get imp "id") (fresh (length m.next)) in
      let grown : map id_of (m.next ++ created imp id ∷ []) ≡ map id_of m.next ++ id ∷ [] =
        map-append_one m.next (created imp id)
        ∙ ap (λ v. map id_of m.next ++ v ∷ []) (names imp id) in
      record {
        added = h.added ++ id ∷ [];
        ids =
            grown
            ∙ ap (λ r. r ++ id ∷ []) h.ids
            ∙ append_assoc (map id_of current) h.added (id ∷ []);
        count = length-append h.added (id ∷ []) ∙ ap (λ n. n + 1) h.count;
        noted =
            subst
              (λ vs.
                All (λ (p : Value × Value). IsListed p.1 vs)
                  (note_id (get imp "id") id m.imported_id_map))
              (sym grown)
              (note-All (get imp "id") id (map id_of m.next ++ id ∷ []) m.imported_id_map
                (map id_of m.next, [], refl)
                (All-imp (λ p. IsListed-append p.1 (map id_of m.next) (id ∷ [])) m.imported_id_map
                  h.noted));
      }

  merge_one-IsMerge :
      (current : List Fields) (imp : Value) (m : MergedAccounts)
      → IsMerge current m
      → IsMerge current (merge_one matches merged created fresh imp m)
  unfolding merge_one
  merge_one-IsMerge current imp m h = elim (Bool-cases (is_object imp)) [
    | inr o ↦ rw (o, merge_one) h
    | inl o ↦
        rw (o, merge_one)
          (elim (Option-cases (find_index (matches imp) m.next)) [
            | inl e ↦ rw e (add-IsMerge current imp m h)
            | inr (i, e) ↦ rw e (update-IsMerge current i imp m h)
          ])
  ]

  pub merge_imports-IsMerge :
      (imports : List Value) (current : List Fields) (m : MergedAccounts)
      → IsMerge current m
      → IsMerge current (merge_imports matches merged created fresh imports m)
  unfolding merge_imports
  merge_imports-IsMerge [] current m h = h
  merge_imports-IsMerge (imp ∷ imports) current m h =
      merge_imports-IsMerge imports current (merge_one matches merged created fresh imp m)
        (merge_one-IsMerge current imp m h)

  merge_one-count :
      (imp : Value) (m : MergedAccounts)
      → (merge_one matches merged created fresh imp m).imported
          + (merge_one matches merged created fresh imp m).updated
        ≡ m.imported + m.updated + (if is_object imp then 1 else 0)
  unfolding merge_one update_at add_new
  merge_one-count imp m = elim (Option-cases (find_index (matches imp) m.next)) [
    | inl e ↦ ground arith
    | inr (i, e) ↦ ground (arith, find_index-get_elem (matches imp) m.next i e)
  ]

  pub merge_imports-count :
      (imports : List Value) (m : MergedAccounts)
      → (merge_imports matches merged created fresh imports m).imported
          + (merge_imports matches merged created fresh imports m).updated
        ≡ m.imported + m.updated + length (filter is_object imports)
  unfolding merge_imports
  merge_imports-count [] m = omega arith
  merge_imports-count (imp ∷ imports) m = ground (
    arith,
    merge_imports-count imports (merge_one matches merged created fresh imp m),
    merge_one-count imp m,
  )
