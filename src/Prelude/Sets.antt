-- ===== src/Prelude/Sets.antt =====
-- JavaScript's `Set<string>` as a list: membership, absence of repetitions, and the spread of a set.
use Prim.Native.String.{String}
use mathlib.Core.Path.{◌≡◌, refl}
use mathlib.Core.Logic.{◌↔◌}
use mathlib.Core.Bool.{Bool, false, not, ◌&&◌, ◌||◌}
use mathlib.Core.List.{List, [], ◌∷◌, ◌++◌}
use native.Mathlib.Omega.{arith}
use text.Mathlib.Text.{◌==◌}
use text.Mathlib.TextEquality.{eq_iff}
use quota_shift.Prelude.Tests.{if◌then◌else◌}
use quota_shift.Prelude.Lists.{All, filter}

-- `xs.includes(a)` and `set.has(a)`
unfoldable pub contains : List String → String → Bool
contains [] a = false
contains (x ∷ xs) a = x == a || contains xs a

pub contains-append :
    (xs ys : List String) (a : String) → contains (xs ++ ys) a ≡ (contains xs a || contains ys a)
unfolding contains
contains-append [] ys a = refl
contains-append (x ∷ xs) ys a = ground (arith, contains-append xs ys a)

pub contains-filter :
    (p : String → Bool) (xs : List String) (a : String)
    → contains (filter p xs) a ≡ (contains xs a && p a)
unfolding contains
contains-filter p [] a = refl
contains-filter p (x ∷ xs) a = ground (arith, contains-filter p xs a, eq_iff x a)

-- No string occurs twice.
abbrev pub Distinct : List String → Type 0
Distinct [] = Unit
Distinct (x ∷ xs) = (contains xs x ≡ false) × Distinct xs

-- No string of `xs` is in `seen`.
abbrev pub Avoids : List String → List String → Type 0
Avoids seen xs = All (λ x. contains seen x ≡ false) xs

pub Avoids-cons :
    (seen xs : List String) (a : String)
    → Avoids (a ∷ seen) xs ↔ (Avoids seen xs × (contains xs a ≡ false))
unfolding contains
Avoids-cons seen [] a = (λ h. (tt, refl), λ h. tt)
Avoids-cons seen (x ∷ xs) a = ground (arith, Avoids-cons seen xs a, eq_iff x a, eq_iff a x)

-- What a loop with a growing `seen` set reads one by one is distinct and avoids the first `seen`.
abbrev pub Fresh : List String → List String → Type 0
Fresh seen [] = Unit
Fresh seen (x ∷ xs) = (contains seen x ≡ false) × Fresh (x ∷ seen) xs

pub Fresh-iff : (seen xs : List String) → Fresh seen xs ↔ (Avoids seen xs × Distinct xs)
Fresh-iff seen [] = (λ h. (tt, tt), λ h. tt)
Fresh-iff seen (x ∷ xs) = ground (arith, Fresh-iff (x ∷ seen) xs, Avoids-cons seen xs x)

pub Avoids-nil : (xs : List String) → Avoids [] xs
unfolding contains
Avoids-nil [] = tt
Avoids-nil (x ∷ xs) = (refl, Avoids-nil xs)

pub Distinct-filter : (p : String → Bool) (xs : List String) → Distinct xs → Distinct (filter p xs)
Distinct-filter p [] h = tt
Distinct-filter p (x ∷ xs) h = ground (arith, Distinct-filter p xs h.1, contains-filter p xs x)

-- `[...new Set(xs)]`: the first occurrences, in order.
unfoldable pub unique_from : List String → List String → List String
unique_from seen [] = []
unique_from seen (x ∷ xs) =
    let old = unique_from seen xs in
    let new = unique_from (x ∷ seen) xs in if contains seen x then old else x ∷ new

unfoldable pub unique : List String → List String
unfolding unique_from
unique xs = unique_from [] xs

pub contains-unique_from :
    (seen xs : List String) (a : String)
    → contains (unique_from seen xs) a ≡ (contains xs a && not (contains seen a))
unfolding contains unique_from
contains-unique_from seen [] a = refl
contains-unique_from seen (x ∷ xs) a =
    ground (arith, contains-unique_from seen xs a, contains-unique_from (x ∷ seen) xs a, eq_iff x a)

pub Fresh-unique_from : (seen xs : List String) → Fresh seen (unique_from seen xs)
unfolding unique_from
Fresh-unique_from seen [] = tt
Fresh-unique_from seen (x ∷ xs) =
    ground (arith, Fresh-unique_from seen xs, Fresh-unique_from (x ∷ seen) xs)

pub unique_from_of_Fresh : (seen xs : List String) → Fresh seen xs → unique_from seen xs ≡ xs
unfolding unique_from
unique_from_of_Fresh seen [] h = refl
unique_from_of_Fresh seen (x ∷ xs) h = ground (arith, unique_from_of_Fresh (x ∷ seen) xs h.1)

pub unique-Distinct : (xs : List String) → Distinct (unique xs)
unfolding unique
unique-Distinct xs = ((Fresh-iff [] (unique_from [] xs)).0 (Fresh-unique_from [] xs)).1

pub contains-unique : (xs : List String) (a : String) → contains (unique xs) a ≡ contains xs a
unfolding unique contains
contains-unique xs a = ground (arith, contains-unique_from [] xs a)

pub unique_of_Distinct : (xs : List String) → Distinct xs → unique xs ≡ xs
unfolding unique
unique_of_Distinct xs h = unique_from_of_Fresh [] xs ((Fresh-iff [] xs).1 (Avoids-nil xs, h))

All-unique_from {κ} :
    (P : String → Type κ) (seen xs : List String) → All P xs → All P (unique_from seen xs)
unfolding unique_from
All-unique_from P seen [] h = tt
All-unique_from P seen (x ∷ xs) h =
    ground (arith, All-unique_from P seen xs h.1, All-unique_from P (x ∷ seen) xs h.1)

pub All-unique {κ} : (P : String → Type κ) (xs : List String) → All P xs → All P (unique xs)
unfolding unique
All-unique P xs h = All-unique_from P [] xs h

pub Distinct-append :
    (xs ys : List String) → Distinct xs → Distinct ys → Avoids xs ys → Distinct (xs ++ ys)
unfolding contains
Distinct-append [] ys d e h = e
Distinct-append (x ∷ xs) ys d e h =
    ground (arith, Distinct-append xs ys, Avoids-cons xs ys x, contains-append xs ys x)
