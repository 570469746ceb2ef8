-- ===== src/CliPools/Binding.antt =====
-- `validateCliPoolBinding` of src/utils/cli-pools/normalize.ts.
use quota_shift.Prelude.{
  ◌∙◌, String, ◌≡◌, refl, Bool, true, false, Option, none, some, List, [], ◌∷◌, filter, get_by,
  get_by-key, if◌then◌else◌, arith, Option-cases, Bool-cases, inl, inr, ◌⊎◌,
}
use quota_shift.Js.{Value, null, str, obj, no_fields, field, get, is_object}
use quota_shift.CliPools.{CliProvider, agy, codex, CliRotationPool}

pub record CliRotationBindings : Type 0 where
  pub agy_active_pool_id : Option String
  pub codex_active_pool_id : Option String

is_provider : CliProvider → CliProvider → Bool
is_provider agy agy = true
is_provider codex codex = true
is_provider _ _ = false

-- `activePoolMap.get(id)`
active_pool : List CliRotationPool → String → Option CliRotationPool
active_pool pools id = get_by (λ (p : CliRotationPool). p.id) (filter (λ p. p.enabled) pools) id

bind : List CliRotationPool → CliProvider → Value → Option String
bind pools provider (str id) = elim (active_pool pools id) [
  | none ↦ none
  | some pool ↦ if is_provider pool.provider provider then some pool.id else none
]
bind pools provider _ = none

pub validate_cli_pool_binding : Value → List CliRotationPool → CliRotationBindings
unfolding bind active_pool is_provider
validate_cli_pool_binding bindings pools =
    if is_object bindings
    then record {
      agy_active_pool_id = bind pools agy (get bindings "agyActivePoolId");
      codex_active_pool_id = bind pools codex (get bindings "codexActivePoolId");
    }
    else record { agy_active_pool_id = none; codex_active_pool_id = none }

-- The pool is one of the list.
abbrev pub Listed : CliRotationPool → List CliRotationPool → Type 0
Listed p [] = ⊥
Listed p (q ∷ qs) = (p ≡ q) ⊎ Listed p qs

-- The binding, if there is one, names an enabled pool of the provider.
abbrev pub IsBound : List CliRotationPool → CliProvider → Option String → Type 0
IsBound pools provider none = Unit
IsBound pools provider (some id) =
    (p : CliRotationPool) × Listed p pools
    × (p.id ≡ id)
    × (p.enabled ≡ true)
    × (p.provider ≡ provider)

Listed-filter :
    (p : CliRotationPool) (qs : List CliRotationPool)
    → Listed p (filter (λ q. q.enabled) qs)
    → Listed p qs × (p.enabled ≡ true)
Listed-filter p [] h = absurd h
Listed-filter p (q ∷ qs) h = ground (arith, Listed-filter p qs)

Listed-get_by :
    (qs : List CliRotationPool) (id : String) (p : CliRotationPool)
    → get_by (λ (q : CliRotationPool). q.id) qs id ≡ some p
    → Listed p qs
unfolding get_by
Listed-get_by [] id p h = cc
Listed-get_by (q ∷ qs) id p h = ground (arith, Listed-get_by qs id p)

provider_eq : (a b : CliProvider) → is_provider a b ≡ true → a ≡ b
unfolding is_provider
provider_eq a b h = ground arith

bind-IsBound :
    (pools : List CliRotationPool) (provider : CliProvider) (v : Value)
    → IsBound pools provider (bind pools provider v)
unfolding bind active_pool is_provider
bind-IsBound pools provider (str id) = elim (Option-cases (active_pool pools id)) [
  | inl e ↦ rw (e, bind) tt
  | inr (p, e) ↦
      let (listed, on) = Listed-filter p pools (Listed-get_by _ id p e) in
      elim (Bool-cases (is_provider p.provider provider)) [
        | inl same ↦ rw (e, bind, same) (p, listed, refl, on, provider_eq _ _ same)
        | inr other ↦ rw (e, bind, other) tt
      ]
]
bind-IsBound pools provider _ = tt

-- Each binding that `validateCliPoolBinding` returns names an enabled pool of its own provider.
pub validate_binding-IsBound :
    (bindings : Value) (pools : List CliRotationPool)
    → (let b = validate_cli_pool_binding bindings pools in
        IsBound pools agy b.agy_active_pool_id × IsBound pools codex b.codex_active_pool_id)
unfolding validate_cli_pool_binding
validate_binding-IsBound bindings pools = elim (Bool-cases (is_object bindings)) [
  | inl e ↦ rw e (bind-IsBound pools agy _, bind-IsBound pools codex _)
  | inr e ↦ rw e (tt, tt)
]

option_value : Option String → Value
option_value none = null
option_value (some id) = str id

-- Bindings as the JavaScript object that they are.
pub bindings_value : CliRotationBindings → Value
unfolding option_value
bindings_value b = obj (
    field "agyActivePoolId" (option_value b.agy_active_pool_id)
      (field "codexActivePoolId" (option_value b.codex_active_pool_id) no_fields))

bind_found :
    (pools : List CliRotationPool) (provider : CliProvider) (id : String) (p : CliRotationPool)
    → active_pool pools id ≡ some p
    → bind pools provider (str id) ≡ (if is_provider p.provider provider then some id else none)
unfolding bind
bind_found pools provider id p e =
    let key : p.id ≡ id = unfold active_pool in get_by-key _ _ id p e in rw (e, bind, key)

bind-bind :
    (pools : List CliRotationPool) (provider : CliProvider) (v : Value)
    → bind pools provider (option_value (bind pools provider v)) ≡ bind pools provider v
unfolding option_value
bind-bind pools provider (str id) = elim (Option-cases (active_pool pools id)) [
  | inl e ↦
      let q : bind pools provider (str id) ≡ none = (unfold bind in rw (e, bind)) in
      rw q (unfold bind in refl)
  | inr (p, e) ↦ elim (Bool-cases (is_provider p.provider provider)) [
    | inl same ↦
        let q : bind pools provider (str id) ≡ some id =
          bind_found pools provider id p e ∙ rw same in
        rw q q
    | inr other ↦
        let q : bind pools provider (str id) ≡ none = bind_found pools provider id p e ∙ rw other in
        rw q (unfold bind in refl)
  ]
]
bind-bind pools provider _ = unfold bind in refl

-- Validating bindings a second time against the same pools changes nothing.
pub validate_binding_idempotent :
    (bindings : Value) (pools : List CliRotationPool)
    → validate_cli_pool_binding (bindings_value (validate_cli_pool_binding bindings pools)) pools
      ≡ validate_cli_pool_binding bindings pools
unfolding validate_cli_pool_binding bindings_value is_object get
validate_binding_idempotent bindings pools = elim (Bool-cases (is_object bindings)) [
  | inl e ↦ rw e (λ i. record {
    agy_active_pool_id = bind-bind pools agy (get bindings "agyActivePoolId") i;
    codex_active_pool_id = bind-bind pools codex (get bindings "codexActivePoolId") i;
  })
  | inr e ↦ rw e refl
]
