-- ===== src/Js/Values.antt =====
-- Values of type `unknown`: what `JSON.parse` and foreign callers hand over.
use quota_shift.Prelude.{
  String, ◌≡◌, refl, Bool, true, false, not, List, [], ◌∷◌, map, ap, if◌then◌else◌, eqb, ◌==◌,
}
use quota_shift.Js.Numbers.{Number, nan, infinite, ratio}
use quota_shift.Js.Text.{trim-trim, is_empty, trim}

mutual
  pub data Value : Type 0 where
    undefined null : Value
    bool : Bool → Value
    num : Number → Value
    str : String → Value
    arr : Items → Value
    obj : Fields → Value

  pub data Items : Type 0 where
    no_items : Items
    element : Value → Items → Items

  pub data Fields : Type 0 where
    no_fields : Fields
    field : String → Value → Fields → Fields

abbrev pub elems : Items → List Value
elems no_items = []
elems (element v vs) = v ∷ elems vs

abbrev pub items : List Value → Items
items [] = no_items
items (v ∷ vs) = element v (items vs)

pub elems-items : (vs : List Value) → elems (items vs) ≡ vs
elems-items [] = refl
elems-items (v ∷ vs) = ap (λ r. v ∷ r) (elems-items vs)

unfoldable pub find_field : Fields → String → Value
find_field no_fields k = undefined
find_field (field j v fs) k = if j == k then v else find_field fs k

-- `v.k` on an object; an array has none of the fields that the code reads.
unfoldable pub get : Value → String → Value
unfolding find_field
get (obj fs) k = find_field fs k
get _ k = undefined

-- `v && typeof v === "object"`
unfoldable pub is_object : Value → Bool
is_object (obj _) = true
is_object (arr _) = true
is_object _ = false

-- `typeof v === "string" ? v.trim() : ""`
unfoldable pub trimmed_text : Value → String
trimmed_text (str s) = trim s
trimmed_text _ = ""

-- `v === "…"`
unfoldable pub is_text : Value → String → Bool
is_text (str s) t = s == t
is_text _ t = false

-- `v === true`
unfoldable pub is_true : Value → Bool
is_true (bool b) = b
is_true _ = false

-- `v === false`
unfoldable pub is_false : Value → Bool
is_false (bool b) = not b
is_false _ = false

-- `Boolean(v)`
unfoldable pub truthy : Value → Bool
truthy undefined = false
truthy null = false
truthy (bool b) = b
truthy (num nan) = false
truthy (num (infinite _)) = true
truthy (num (ratio _ n _)) = not (eqb n 0)
truthy (str s) = not (is_empty s)
truthy (arr _) = true
truthy (obj _) = true

-- `Array.isArray(v) ? v : []`
unfoldable pub array_or_empty : Value → List Value
array_or_empty (arr vs) = elems vs
array_or_empty _ = []

-- `vs.filter((v) => typeof v === "string")`
unfoldable pub texts_of : List Value → List String
texts_of [] = []
texts_of (str s ∷ vs) = s ∷ texts_of vs
texts_of (_ ∷ vs) = texts_of vs

pub texts_of-map-str : (ss : List String) → texts_of (map str ss) ≡ ss
unfolding texts_of
texts_of-map-str [] = refl
texts_of-map-str (s ∷ ss) = ap (λ r. s ∷ r) (texts_of-map-str ss)

pub trimmed_text-trimmed : (v : Value) → trim (trimmed_text v) ≡ trimmed_text v
unfolding trimmed_text trim
trimmed_text-trimmed (str s) = trim-trim s
trimmed_text-trimmed _ = refl
