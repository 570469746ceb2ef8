-- ===== src/PoolsV2/Members.antt =====
-- Member lists: `deduplicateStrings` and `inferAuthMode` of
-- src/utils/codex/pools/codex-pools-v2-migration.ts.
use quota_shift.Prelude.{
  get_by, ◌≤◌, ◌≢◌, Bool-cases, inl, inr, subst, ltb, length, sym, ◌∙◌, String, ◌≡◌, refl, ap, Bool,
  true, false, not, ◌&&◌, ◌||◌, Option, none, some, List, [], ◌∷◌, map, arith, eq_iff, contains,
  Distinct, unique, unique_from, All, filter, is_nil, if◌then◌else◌, ◌==◌, unique_of_Distinct,
  unique-Distinct, contains-unique,
}
use quota_shift.Js.{is_empty, trim, trim-trim}
use quota_shift.PoolsV2.{AuthMode, siwc, openai_api_key, KnownAccount}

-- the loop of `deduplicateStrings`
deduplicate_from : List String → List String → List String
deduplicate_from seen [] = []
deduplicate_from seen (item ∷ items) =
    let trimmed = trim item in
    let rest = deduplicate_from seen items in
    let added = deduplicate_from (trimmed ∷ seen) items in
    if not (is_empty trimmed) && not (contains seen trimmed) then trimmed ∷ added else rest

unfoldable pub deduplicate_strings : List String → List String
unfolding deduplicate_from
deduplicate_strings items = deduplicate_from [] items

-- A name that trimming leaves alone and that is not empty.
pub record IsTrimmedName (s : String) : Type 0 where
  pub trimmed : trim s ≡ s
  pub filled : is_empty s ≡ false

deduplicate_from_lem :
    (seen items : List String)
    → deduplicate_from seen items
      ≡ unique_from seen (filter (λ s. not (is_empty s)) (map trim items))
unfolding deduplicate_from unique_from
deduplicate_from_lem seen [] = refl
deduplicate_from_lem seen (item ∷ items) =
    ground (arith, deduplicate_from_lem seen items, deduplicate_from_lem (trim item ∷ seen) items)

-- `deduplicateStrings` is the spread of the set of the trimmed, non-empty strings.
pub deduplicate_strings_lem :
    (items : List String)
    → deduplicate_strings items ≡ unique (filter (λ s. not (is_empty s)) (map trim items))
unfolding deduplicate_strings unique
deduplicate_strings_lem items = deduplicate_from_lem [] items

deduplicate_from-IsTrimmedName :
    (seen items : List String) → All IsTrimmedName (deduplicate_from seen items)
unfolding deduplicate_from
deduplicate_from-IsTrimmedName seen [] = tt
deduplicate_from-IsTrimmedName seen (item ∷ items) = ground (
  arith,
  trim-trim item,
  deduplicate_from-IsTrimmedName seen items,
  deduplicate_from-IsTrimmedName (trim item ∷ seen) items,
)

pub deduplicate_strings-IsTrimmedName :
    (items : List String) → All IsTrimmedName (deduplicate_strings items)
unfolding deduplicate_strings
deduplicate_strings-IsTrimmedName items = deduplicate_from-IsTrimmedName [] items

pub deduplicate_strings-Distinct : (items : List String) → Distinct (deduplicate_strings items)
deduplicate_strings-Distinct items =
    subst (λ xs. Distinct xs) (sym (deduplicate_strings_lem items)) (unique-Distinct _)

map-trim :
    (xs : List String) → All IsTrimmedName xs → filter (λ s. not (is_empty s)) (map trim xs) ≡ xs
map-trim [] h = refl
map-trim (x ∷ xs) h = rw (h.0.trimmed, h.0.filled) (ap (λ r. x ∷ r) (map-trim xs h.1))

-- A list of distinct trimmed names passes through unchanged.
pub deduplicate_strings_of_Distinct :
    (xs : List String) → All IsTrimmedName xs → Distinct xs → deduplicate_strings xs ≡ xs
deduplicate_strings_of_Distinct xs h d =
    deduplicate_strings_lem xs ∙ ap unique (map-trim xs h) ∙ unique_of_Distinct xs d

-- `acc.authMode === "openai-api-key" || acc.authMode === "apiKey"`
pub is_api_key : Option String → Bool
is_api_key none = false
is_api_key (some mode) = mode == "openai-api-key" || mode == "apiKey"

pub find_account : List KnownAccount → String → Option KnownAccount
unfolding get_by
find_account = get_by (λ a. a.id)

pub record InferredMode : Type 0 where
  pub mode : AuthMode
  pub ambiguous : Bool

add_mode : Option KnownAccount → List String → List String
add_mode none modes = modes
add_mode (some acc) modes = (if is_api_key acc.auth_mode then "openai-api-key" else "siwc") ∷ modes

modes_of : List KnownAccount → List String → List String
modes_of known [] = []
modes_of known (id ∷ ids) = add_mode (find_account known id) (modes_of known ids)

unfoldable pub infer_auth_mode : List String → Option (List KnownAccount) → InferredMode
unfolding modes_of add_mode is_api_key find_account
infer_auth_mode account_ids none = record { mode = siwc; ambiguous = false }
infer_auth_mode account_ids (some known) =
    let modes = unique (modes_of known account_ids) in
    if is_nil account_ids
    then record { mode = siwc; ambiguous = false }
    else if ltb 1 (length modes)
    then record { mode = siwc; ambiguous = true }
    else if contains modes "openai-api-key"
    then record { mode = openai_api_key; ambiguous = false }
    else record { mode = siwc; ambiguous = false }

one_mode :
    (modes : List String) (a b : String)
    → length modes ≤ 1
    → contains modes a ≡ true
    → a ≢ b
    → contains modes b ≡ false
unfolding contains
one_mode [] a b h c ne = refl
one_mode (x ∷ []) a b h c ne = ground (arith, eq_iff x a, eq_iff x b)
one_mode (x ∷ y ∷ xs) a b h c ne = absurd (omega arith)

-- The account, where it is known, signs in with an API key.
abbrev pub UsesKey : Option KnownAccount → Type 0
UsesKey none = Unit
UsesKey (some acc) = is_api_key acc.auth_mode ≡ true

abbrev pub KnownUsesKey : List KnownAccount → String → Type 0
KnownUsesKey known id = UsesKey (find_account known id)

add_mode-UsesKey :
    (o : Option KnownAccount) (modes : List String)
    → contains (add_mode o modes) "siwc" ≡ false
    → UsesKey o × (contains modes "siwc" ≡ false)
unfolding add_mode contains
add_mode-UsesKey none modes h = (tt, h)
add_mode-UsesKey (some acc) modes h = elim (Bool-cases (is_api_key acc.auth_mode)) [
  | inl e ↦ (e, rw e at h)
  | inr e ↦ absurd (let clash = rw e at h in cc)
]

modes_of-KnownUsesKey :
    (known : List KnownAccount) (ids : List String)
    → contains (modes_of known ids) "siwc" ≡ false
    → All (KnownUsesKey known) ids
unfolding modes_of contains
modes_of-KnownUsesKey known [] h = tt
modes_of-KnownUsesKey known (id ∷ ids) h =
    let (here, later) = add_mode-UsesKey (find_account known id) (modes_of known ids) h in
    (here, modes_of-KnownUsesKey known ids later)

-- The API-key mode is inferred only without ambiguity, for a non-empty list whose known members all
-- sign in with a key.
pub infer_auth_mode-openai_api_key :
    (account_ids : List String) (known : Option (List KnownAccount))
    → (infer_auth_mode account_ids known).mode ≡ openai_api_key
    → (accounts : List KnownAccount) × (known ≡ some accounts)
      × (is_nil account_ids ≡ false)
      × ((infer_auth_mode account_ids known).ambiguous ≡ false)
      × All (KnownUsesKey accounts) account_ids
unfolding infer_auth_mode
infer_auth_mode-openai_api_key account_ids none h = cc
infer_auth_mode-openai_api_key account_ids (some known) h =
    let modes = unique (modes_of known account_ids) in
    let siwc_free : contains (modes_of known account_ids) "siwc" ≡ false = ground (
      arith,
      one_mode modes "openai-api-key" "siwc",
      contains-unique (modes_of known account_ids) "siwc",
      eq_iff "openai-api-key" "siwc",
    ) in
    (known, refl, ground arith, ground arith, modes_of-KnownUsesKey known account_ids siwc_free)
