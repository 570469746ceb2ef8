-- ===== src/PoolsV2/Normalize/Invariant.antt =====
-- Whatever comes in, the normalised pools are well formed.
use native.Mathlib.Nat.{le-div_iff_mul-le}
use quota_shift.Prelude.{
  Option-cases, ℕ, ◌≤◌, ◌+◌, ◌*◌, suc, String, ◌≡◌, true, false, ◌≢◌, Option, none, some, List, [],
  ◌∷◌, map, contains, Distinct, Fresh, Fresh-iff, All, arith, Bool-cases, inl, inr,
}
use quota_shift.Js.{
  trimmed_text-trimmed, Value, str, num, get, trimmed_text, is_empty, trim, trim-trim, is_finite,
  at_least, round_nat, nan, infinite, ratio, Number, array_or_empty,
}
use quota_shift.PoolsV2.{CodexModelPool, ReasoningEffort}
use quota_shift.PoolsV2.Limits.{default_budget_for_effort, default_limits_bounds}
use quota_shift.PoolsV2.Members.{
  IsTrimmedName, deduplicate_strings-IsTrimmedName, deduplicate_strings-Distinct,
}
use quota_shift.PoolsV2.Normalize.{
  or_else, text_or, count_of, count_or, pool_of, skipped, normalize_from, normalize_pools,
}

-- A count is there and at least `least`.
abbrev pub HasCount : ℕ → Option ℕ → Type 0
HasCount least none = ⊥
HasCount least (some n) = least ≤ n

pub record IsNormal (p : CodexModelPool) : Type 0 where
  pub id : IsTrimmedName p.id
  pub display_name : IsTrimmedName p.display_name
  pub public_name : trim p.public_model_name ≡ p.public_model_name
  pub upstream : trim p.upstream_model_id ≡ p.upstream_model_id
  pub upstream_given : is_empty p.upstream_model_id ≡ true → is_empty p.public_model_name ≡ true
  pub members : All IsTrimmedName p.member_account_ids
  pub members_once : Distinct p.member_account_ids
  pub context : HasCount 1024 p.max_context_window_tokens
  pub budget : HasCount 256 p.thinking_budget_tokens
  pub effort : p.reasoning_effort ≢ none

abbrev pub ids : List CodexModelPool → List String
ids = map (λ p. p.id)

round_nat-ge : (x : Number) (k : ℕ) → at_least x k ≡ true → is_finite x ≡ true → k ≤ round_nat x
unfolding at_least round_nat is_finite
round_nat-ge nan k h f = cc
round_nat-ge (infinite b) k h f = cc
round_nat-ge (ratio false n d) k h f =
    let q : k * suc d ≤ n = ground arith in
    let r : k * (2 * suc d) ≤ 2 * n + suc d = omega arith in (le-div_iff_mul-le (omega arith)).1 r
round_nat-ge (ratio true n d) k h f = ground arith

count_of-ge : (v : Value) (least n : ℕ) → count_of v least ≡ some n → least ≤ n
unfolding count_of
count_of-ge (num x) least n h = ground (arith, round_nat-ge x least)
count_of-ge _ least n h = cc

count_or-ge :
    (v : Value) (least fallback : ℕ)
    → least ≤ fallback
    → least ≤ count_or (count_of v least) fallback
unfolding count_or
count_or-ge v least fallback h = elim (Option-cases (count_of v least)) [
  | inl e ↦ rw e h
  | inr (n, e) ↦ rw e (count_of-ge v least n e)
]

text_or-IsTrimmedName :
    (v : Value) (fallback : String) → IsTrimmedName fallback → IsTrimmedName (text_or v fallback)
unfolding text_or or_else
text_or-IsTrimmedName (str s) fallback h = ground (arith, trim-trim s)
text_or-IsTrimmedName _ fallback h = h

text_or-trimmed :
    (v : Value) (fallback : String)
    → trim fallback ≡ fallback
    → trim (text_or v fallback) ≡ text_or v fallback
unfolding text_or or_else
text_or-trimmed (str s) fallback h = ground (arith, trim-trim s)
text_or-trimmed _ fallback h = h

text_or-given :
    (v : Value) (fallback : String)
    → is_empty (text_or v fallback) ≡ true
    → is_empty fallback ≡ true
unfolding text_or or_else
text_or-given (str s) fallback h = ground arith
text_or-given _ fallback h = h

effort_budget_bounds : (e : ReasoningEffort) → 256 ≤ default_budget_for_effort e
unfolding default_budget_for_effort
effort_budget_bounds e = ground arith

kept :
    (seen : List String) (v : Value)
    → skipped seen v ≡ false
    → IsTrimmedName (trimmed_text (get v "id"))
      × (contains seen (trimmed_text (get v "id")) ≡ false)
unfolding skipped
kept seen v h = ground (arith, trimmed_text-trimmed (get v "id"))

module _ (lower : String → String) where
  pool_of-IsNormal : (id : String) (v : Value) → IsTrimmedName id → IsNormal (pool_of lower id v)
  unfolding pool_of
  pool_of-IsNormal id v h = record {
    id = h;
    display_name = text_or-IsTrimmedName _ id h;
    public_name = trimmed_text-trimmed _;
    upstream = text_or-trimmed _ _ (trimmed_text-trimmed _);
    upstream_given = text_or-given _ _;
    members = deduplicate_strings-IsTrimmedName _;
    members_once = deduplicate_strings-Distinct _;
    context = count_or-ge _ 1024 _ (default_limits_bounds lower _);
    budget = count_or-ge _ 256 _ (effort_budget_bounds _);
    effort = λ e. cc;
  }

  normalize_from-IsNormal :
      (seen : List String) (vs : List Value) → All IsNormal (normalize_from lower seen vs)
  unfolding normalize_from
  normalize_from-IsNormal seen [] = tt
  normalize_from-IsNormal seen (v ∷ vs) = elim (Bool-cases (skipped seen v)) [
    | inl e ↦ rw e (normalize_from-IsNormal seen vs)
    | inr e ↦ rw e (
      pool_of-IsNormal _ v (kept seen v e).0,
      normalize_from-IsNormal (trimmed_text (get v "id") ∷ seen) vs,
    )
  ]

  normalize_from-Fresh :
      (seen : List String) (vs : List Value) → Fresh seen (ids (normalize_from lower seen vs))
  unfolding normalize_from pool_of trimmed_text
  normalize_from-Fresh seen [] = tt
  normalize_from-Fresh seen (v ∷ vs) = elim (Bool-cases (skipped seen v)) [
    | inl e ↦ rw e (normalize_from-Fresh seen vs)
    | inr e ↦ rw e ((kept seen v e).1, normalize_from-Fresh (trimmed_text (get v "id") ∷ seen) vs)
  ]

-- Whatever the input, each pool that `normalizeCodexModelPoolsV2` returns is well formed and no id
-- occurs twice among them.
pub normalize_pools-IsNormal :
    (lower : String → String) (raw : Value)
    → All IsNormal (normalize_pools lower raw) × Distinct (ids (normalize_pools lower raw))
unfolding normalize_pools
normalize_pools-IsNormal lower raw =
    let vs = array_or_empty raw in
    (normalize_from-IsNormal lower [] vs, ((Fresh-iff [] _).0 (normalize_from-Fresh lower [] vs)).1)
