-- ===== src/PoolsV2/Validate.antt =====
-- `validateEnabledPoolNames` of src/utils/codex/pools/codex-pools-v2.ts. `none` stands for
-- `{ valid: true }`, `some e` for `{ valid: false, error: message e }`.
pub mod Spec
use Prim.Native.Char.{code}
use Prim.Native.String.{[], ◌∷◌}
use Prim.Native.String
use text.Mathlib.Text.{starts_with}
use quota_shift.Prelude.{
  ℕ, zero, suc, String, Bool, true, false, not, ◌&&◌, ◌||◌, Option, none, some, List, map, contains,
  if◌then◌else◌, leb, eqb, lookup, insert, is_nil,
}
use quota_shift.Js.{is_alnum, every_char, size}
use quota_shift.PoolsV2.{CodexModelPool, AuthMode, siwc, openai_api_key, KnownAccount}

-- One constructor for each message; the texts are those of `message`.
pub data PoolError : Type 0 where
  duplicate_id : String → PoolError
  invalid_alias : String → String → PoolError
  zero_members : String → PoolError
  duplicate_alias : String → String → PoolError
  invalid_registration : String → String → PoolError
  unknown_account : String → String → PoolError

infixr 65 ◌<>◌
abbrev ◌<>◌ : String → String → String
s <> t = String.◌++◌ s t

message : PoolError → String
message (duplicate_id id) = "Duplicate pool ID detected: " <> id
message (invalid_alias name alias) =
    "Pool '" <> name <> "' has invalid alias format: '" <> alias <> "'"
message (zero_members name) = "Enabled pool '" <> name <> "' cannot have zero members"
message (duplicate_alias alias other) =
    "Duplicate enabled public model alias: '" <> alias <> "' conflicts with '" <> other <> "'"
message (invalid_registration name id) =
    "SIWC pool '" <> name
    <> "' references unknown account or invalid native ChatGPT registration: '" <> id <> "'"
message (unknown_account name id) =
    "Enabled pool '" <> name <> "' references unknown account: '" <> id <> "'"

is_alias_char : ℕ → Bool
is_alias_char c = is_alnum c || eqb c b'.' || eqb c b'_' || eqb c b'/' || eqb c b'-'

-- `ALIAS_REGEX.test`: /^[A-Za-z0-9][A-Za-z0-9._/-]{0,95}$/
unfoldable pub matches_alias : String → Bool
unfolding is_alias_char is_alnum every_char size
matches_alias [] = false
matches_alias (c ∷ s) = is_alnum (code c) && every_char is_alias_char s && leb (size s) 95

is_registration_char : ℕ → Bool
is_registration_char c = is_alnum c || eqb c b'_' || eqb c b'-'

drop_text : ℕ → String → String
drop_text zero s = s
drop_text (suc n) [] = ""
drop_text (suc n) (c ∷ s) = drop_text n s

-- /^reg_[A-Za-z0-9_-]{8,128}$/
unfoldable pub matches_registration : String → Bool
unfolding is_registration_char is_alnum every_char size drop_text
matches_registration s =
    let tail = drop_text 4 s in
    starts_with s "reg_"
    && every_char is_registration_char tail
    && leb 8 (size tail)
    && leb (size tail) 128

account_ids : List KnownAccount → List String
account_ids = map (λ a. a.id)

-- The inner loop's body.
check_member : List KnownAccount → CodexModelPool → AuthMode → String → Option PoolError
check_member known pool siwc id =
    if matches_registration id then none else some (invalid_registration pool.display_name id)
check_member known pool openai_api_key id =
    if contains (account_ids known) id then none else some (unknown_account pool.display_name id)

check_members : List KnownAccount → CodexModelPool → List String → Option PoolError
check_members known pool List.[] = none
check_members known pool (List.◌∷◌ id ids) = elim (check_member known pool pool.auth_mode id) [
  | none ↦ check_members known pool ids
  | some e ↦ some e
]

check_known : Option (List KnownAccount) → CodexModelPool → Option PoolError
check_known none pool = none
check_known (some known) pool = check_members known pool pool.member_account_ids

-- `enabledAliases.has(folded)` and the message's `enabledAliases.get(folded)`
check_alias : List (String × String) → String → CodexModelPool → Option PoolError
check_alias aliases folded pool = elim (lookup folded aliases) [
  | none ↦ none
  | some other ↦ some (duplicate_alias pool.public_model_name other)
]

either_error : Option PoolError → Option PoolError → Option PoolError
either_error (some e) later = some e
either_error none later = later

module _ (lower : String → String) (known : Option (List KnownAccount)) where
  -- The outer loop's body.
  check_pool : List String → List (String × String) → CodexModelPool → Option PoolError
  check_pool seen aliases pool =
      if contains seen pool.id
      then some (duplicate_id pool.id)
      else if not (matches_alias pool.public_model_name)
      then some (invalid_alias pool.display_name pool.public_model_name)
      else if not pool.enabled
      then none
      else if is_nil pool.member_account_ids
      then some (zero_members pool.display_name)
      else either_error (check_alias aliases (lower pool.public_model_name) pool)
          (check_known known pool)

  -- `enabledAliases` after the body.
  next_aliases : List (String × String) → CodexModelPool → List (String × String)
  next_aliases aliases pool =
      if pool.enabled
      then insert (lower pool.public_model_name) pool.public_model_name aliases
      else aliases

  validate_from : List String → List (String × String) → List CodexModelPool → Option PoolError
  validate_from seen aliases List.[] = none
  validate_from seen aliases (List.◌∷◌ pool pools) = elim (check_pool seen aliases pool) [
    | none ↦ validate_from (List.◌∷◌ pool.id seen) (next_aliases aliases pool) pools
    | some e ↦ some e
  ]

  unfoldable pub validate_enabled_pool_names : List CodexModelPool → Option PoolError
  unfolding validate_from check_pool check_alias check_known check_members check_member account_ids
      either_error next_aliases
  validate_enabled_pool_names pools = validate_from List.[] List.[] pools
