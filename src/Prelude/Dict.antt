-- ===== src/Prelude/Dict.antt =====
-- JavaScript's `Map<string, V>`: an association list in insertion order.
use Prim.Native.String.{String}
use mathlib.Core.Logic.{◌↔◌}
use mathlib.Core.Path.{◌≡◌, refl}
use mathlib.Core.Bool.{true, false, ◌||◌}
use mathlib.Core.Option.{Option, none, some}
use mathlib.Core.List.{List, [], ◌∷◌, map}
use native.Mathlib.Omega.{arith}
use text.Mathlib.Text.{◌==◌}
use text.Mathlib.TextEquality.{eq_iff}
use quota_shift.Prelude.Tests.{if◌then◌else◌}
use quota_shift.Prelude.Lists.{All}
use quota_shift.Prelude.Sets.{contains, Distinct}

module _ {ℓ} {V : Type ℓ} where
  abbrev pub keys : List (String × V) → List String
  keys [] = []
  keys ((name, _) ∷ rest) = name ∷ keys rest

  abbrev pub values : List (String × V) → List V
  values [] = []
  values ((_, value) ∷ rest) = value ∷ values rest

  -- `entries.get(key)`
  unfoldable pub lookup : (key : String) (entries : List (String × V)) → Option V
  lookup key [] = none
  lookup key ((name, value) ∷ rest) = if name == key then some value else lookup key rest

  -- `entries.set(key, value)`: a known key keeps its place.
  unfoldable pub insert : (key : String) (value : V) → List (String × V) → List (String × V)
  insert key value [] = (key, value) ∷ []
  insert key value ((name, old) ∷ rest) =
      if name == key then (name, value) ∷ rest else (name, old) ∷ insert key value rest

-- `new Map(xs.map((x) => [key(x), x])).get(k)`: the last element of that key.
unfoldable pub get_by {ℓ} : {A : Type ℓ} → (A → String) → List A → String → Option A
get_by key [] k = none
get_by key (x ∷ xs) k = elim (get_by key xs k) [
  | some y ↦ some y
  | none ↦ if key x == k then some x else none
]

pub get_by-key {ℓ} :
    {A : Type ℓ} (key : A → String) (xs : List A) (k : String) (x : A)
    → get_by key xs k ≡ some x
    → key x ≡ k
unfolding get_by
get_by-key key [] k x h = cc
get_by-key key (y ∷ ys) k x h = ground (arith, get_by-key key ys k x, eq_iff (key y) k)

pub get_by-eq-none_iff {ℓ} :
    {A : Type ℓ} (key : A → String) (xs : List A) (k : String)
    → (get_by key xs k ≡ none) ↔ (contains (map key xs) k ≡ false)
unfolding get_by contains
get_by-eq-none_iff key [] k = (λ _. refl, λ _. refl)
get_by-eq-none_iff key (x ∷ xs) k = ground (arith, get_by-eq-none_iff key xs k)

module _ {ℓ} {V : Type ℓ} where
  pub lookup-insert :
      (key other : String) (value : V) (entries : List (String × V))
      → lookup other (insert key value entries)
        ≡ (if key == other then some value else lookup other entries)
  unfolding lookup insert
  lookup-insert key other value [] = refl
  lookup-insert key other value ((name, _) ∷ rest) = ground (
    arith,
    lookup-insert key other value rest,
    eq_iff name other,
    eq_iff name key,
    eq_iff key other,
  )

  pub contains-keys-insert :
      (k a : String) (v : V) (m : List (String × V))
      → contains (keys (insert k v m)) a ≡ (k == a || contains (keys m) a)
  unfolding contains insert
  contains-keys-insert k a v [] = refl
  contains-keys-insert k a v ((i, w) ∷ m) =
      ground (arith, eq_iff i k, eq_iff i a, eq_iff k a, contains-keys-insert k a v m)

  pub lookup-eq-none_iff :
      (k : String) (m : List (String × V)) → (lookup k m ≡ none) ↔ (contains (keys m) k ≡ false)
  unfolding contains lookup
  lookup-eq-none_iff k [] = (λ _. refl, λ _. refl)
  lookup-eq-none_iff k ((i, w) ∷ m) = ground (arith, lookup-eq-none_iff k m)

  pub contains_of_lookup :
      (k : String) (m : List (String × V)) (v : V)
      → lookup k m ≡ some v
      → contains (keys m) k ≡ true
  unfolding contains lookup
  contains_of_lookup k [] v h = cc
  contains_of_lookup k ((i, w) ∷ m) v h = ground (arith, contains_of_lookup k m v)

  pub Distinct-keys-insert :
      (k : String) (v : V) (m : List (String × V))
      → Distinct (keys m)
      → Distinct (keys (insert k v m))
  unfolding contains insert
  Distinct-keys-insert k v [] h = (refl, tt)
  Distinct-keys-insert k v ((i, w) ∷ m) h =
      ground (
        arith,
        eq_iff i k,
        eq_iff k i,
        Distinct-keys-insert k v m h.1,
        contains-keys-insert k i v m,
      )

pub All-keys-insert {ℓ κ} :
    {V : Type ℓ} (P : String → Type κ) (k : String) (v : V) (m : List (String × V))
    → P k
    → All P (keys m)
    → All P (keys (insert k v m))
unfolding insert
All-keys-insert P k v [] p h = (p, tt)
All-keys-insert P k v ((i, w) ∷ m) p h = ground (arith, All-keys-insert P k v m p h.1)
