-- ===== src/CliPools/Normalize/Invariant.antt =====
-- Whatever comes in, the normalised rotation pools are well formed.
use quota_shift.Prelude.{
  subst, unique_from, All-unique, filter-holds, ◌∙◌, String, ◌≡◌, refl, true, false, not, ◌||◌,
  Option, none, some, List, [], ◌∷◌, map, contains, unique, filter, Distinct, Fresh, Fresh-iff, All,
  is_nil, get_by, arith, Option-cases, Bool-cases, inl, inr, unique-Distinct,
}
use quota_shift.Js.{
  Value, arr, elems, get, trimmed_text, trimmed_text-trimmed, is_empty, trim, trim-trim,
  array_or_empty, texts_of,
}
use quota_shift.PoolsV2.Members.{IsTrimmedName}
use quota_shift.CliPools.{CliProvider, CliRotationPool, Account}
use quota_shift.CliPools.Normalize.{
  valid_windows, default_windows, provider_of, windows_or_default, normalize_trigger_windows,
  matches_provider, admits, collect_from, pool_of, read_pool, normalize_from,
  normalize_cli_rotation_pools,
}

-- A list of windows that names at least one, none twice, and only the three that there are.
pub record AreWindows (ws : List String) : Type 0 where
  pub some_window : is_nil ws ≡ false
  pub once : Distinct ws
  pub valid : All (λ w. contains valid_windows w ≡ true) ws

-- The account is known, and belongs to the pool's provider.
abbrev pub Belongs : (String → String) → Option (List Account) → CliProvider → String → Type 0
Belongs lower none provider id = Unit
Belongs lower (some accounts) provider id =
    (a : Account) × (get_by (λ (b : Account). b.id) accounts id ≡ some a)
    × (matches_provider lower a.provider provider ≡ true)

pub record IsNormal (lower : String → String) (known : Option (List Account)) (p : CliRotationPool)
    : Type 0 where
  pub id : IsTrimmedName p.id
  pub name : IsTrimmedName p.name
  pub accounts : All IsTrimmedName p.account_ids
  pub accounts_once : Distinct p.account_ids
  pub accounts_known : All (Belongs lower known p.provider) p.account_ids
  pub windows : AreWindows p.trigger_windows

abbrev pub ids : List CliRotationPool → List String
ids = map (λ p. p.id)

default_windows-AreWindows : AreWindows default_windows
unfolding contains
default_windows-AreWindows = record {
  some_window = refl;
  once = (refl, (refl, tt));
  valid = (refl, (refl, tt));
}

is_nil-unique : (xs : List String) → is_nil (unique xs) ≡ is_nil xs
unfolding unique unique_from contains
is_nil-unique [] = refl
is_nil-unique (x ∷ xs) = refl

windows_or_default-AreWindows :
    (xs : List String) → AreWindows (windows_or_default (filter (contains valid_windows) xs))
unfolding windows_or_default
windows_or_default-AreWindows xs = elim (Bool-cases (is_nil (filter (contains valid_windows) xs))) [
  | inl e ↦ rw e default_windows-AreWindows
  | inr e ↦ rw e record {
    some_window = is_nil-unique _ ∙ e;
    once = unique-Distinct _;
    valid =
        All-unique (λ w. contains valid_windows w ≡ true) _
          (filter-holds (contains valid_windows) xs);
  }
]

normalize_trigger_windows-AreWindows : (v : Value) → AreWindows (normalize_trigger_windows v)
unfolding normalize_trigger_windows
normalize_trigger_windows-AreWindows (arr vs) = windows_or_default-AreWindows (texts_of (elems vs))
normalize_trigger_windows-AreWindows _ = default_windows-AreWindows

Belongs-of_admits :
    (lower : String → String) (known : Option (List Account)) (provider : CliProvider) (id : String)
    → admits lower known provider id ≡ true
    → Belongs lower known provider id
unfolding admits
Belongs-of_admits lower none provider id h = tt
Belongs-of_admits lower (some accounts) provider id h =
    elim (Option-cases (get_by (λ (a : Account). a.id) accounts id)) [
      | inl e ↦ absurd (let clash = rw (e, admits) at h in cc)
      | inr (a, e) ↦ (a, e, rw (e, admits) at h)
    ]

module _ (lower : String → String) (known : Option (List Account)) where
  collect_from-IsTrimmedName :
      (provider : CliProvider) (seen raws : List String)
      → All IsTrimmedName (collect_from lower known provider seen raws)
  unfolding collect_from
  collect_from-IsTrimmedName provider seen [] = tt
  collect_from-IsTrimmedName provider seen (raw ∷ raws) = ground (
    arith,
    trim-trim raw,
    collect_from-IsTrimmedName provider seen raws,
    collect_from-IsTrimmedName provider (trim raw ∷ seen) raws,
  )

  collect_from-Fresh :
      (provider : CliProvider) (seen raws : List String)
      → Fresh seen (collect_from lower known provider seen raws)
  unfolding collect_from
  collect_from-Fresh provider seen [] = tt
  collect_from-Fresh provider seen (raw ∷ raws) = ground (
    arith,
    collect_from-Fresh provider seen raws,
    collect_from-Fresh provider (trim raw ∷ seen) raws,
  )

  collect_from-Belongs :
      (provider : CliProvider) (seen raws : List String)
      → All (Belongs lower known provider) (collect_from lower known provider seen raws)
  unfolding collect_from
  collect_from-Belongs provider seen [] = tt
  collect_from-Belongs provider seen (raw ∷ raws) =
      elim (Bool-cases (
        is_empty (trim raw)
        || contains seen (trim raw)
        || not (admits lower known provider (trim raw)))) [
          | inl e ↦ rw e (collect_from-Belongs provider seen raws)
          | inr e ↦ rw e (
            Belongs-of_admits lower known provider (trim raw) (ground arith),
            collect_from-Belongs provider (trim raw ∷ seen) raws,
          )
        ]

  pool_of-IsNormal :
      (id name : String) (provider : CliProvider) (item : Value)
      → IsTrimmedName id
      → IsTrimmedName name
      → IsNormal lower known (pool_of lower known id name provider item)
  unfolding pool_of
  pool_of-IsNormal id name provider item h k = record {
    id = h;
    name = k;
    accounts = collect_from-IsTrimmedName provider [] _;
    accounts_once = ((Fresh-iff [] _).0 (collect_from-Fresh provider [] _)).1;
    accounts_known = collect_from-Belongs provider [] _;
    windows = normalize_trigger_windows-AreWindows _;
  }

  -- A pool that is read is well formed, and its id is new.
  read_pool-IsNormal :
      (seen : List String) (item : Value) (p : CliRotationPool)
      → read_pool lower known seen item ≡ some p
      → IsNormal lower known p × (contains seen p.id ≡ false)
  unfolding read_pool
  read_pool-IsNormal seen item p h =
      let id = trimmed_text (get item "id") in
      let name = trimmed_text (get item "name") in
      elim (Option-cases (provider_of (get item "provider"))) [
        | inl e ↦ absurd (ground arith)
        | inr (provider, e) ↦
            let read : pool_of lower known id name provider item ≡ p = ground arith in
            let new : contains seen id ≡ false = ground arith in
            let normal : IsNormal lower known (pool_of lower known id name provider item) =
              pool_of-IsNormal id name provider item
                (record { trimmed = trimmed_text-trimmed (get item "id"); filled = ground arith })
                (record {
                  trimmed = trimmed_text-trimmed (get item "name");
                  filled = ground arith;
                }) in
            (
              subst (λ q. IsNormal lower known q) read normal,
              subst (λ (q : CliRotationPool). contains seen q.id ≡ false) read
                  (unfold pool_of in new),
            )
      ]

  normalize_from-IsNormal :
      (seen : List String) (vs : List Value)
      → All (IsNormal lower known) (normalize_from lower known seen vs)
        × Fresh seen (ids (normalize_from lower known seen vs))
  unfolding normalize_from
  normalize_from-IsNormal seen [] = (tt, tt)
  normalize_from-IsNormal seen (v ∷ vs) = elim (Option-cases (read_pool lower known seen v)) [
    | inl e ↦ rw (e, normalize_from) (normalize_from-IsNormal seen vs)
    | inr (p, e) ↦
        let (normal, new) = read_pool-IsNormal seen v p e in
        let (later, fresh) = normalize_from-IsNormal (p.id ∷ seen) vs in
        rw (e, normalize_from) ((normal, later), (new, fresh))
  ]

-- Whatever the input, each rotation pool that `normalizeCliRotationPools` returns has a trimmed id and
-- name, distinct trimmed members, which are known accounts of its provider when the accounts are
-- given, and at least one trigger window, all valid; no pool id occurs twice.
pub normalize_cli-IsNormal :
    (lower : String → String) (value : Value) (known : Option (List Account))
    → All (IsNormal lower known) (normalize_cli_rotation_pools lower value known)
      × Distinct (ids (normalize_cli_rotation_pools lower value known))
unfolding normalize_cli_rotation_pools
normalize_cli-IsNormal lower value known =
    let (normal, fresh) = normalize_from-IsNormal lower known [] (array_or_empty value) in
    (normal, ((Fresh-iff [] _).0 fresh).1)
