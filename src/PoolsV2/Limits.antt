-- ===== src/PoolsV2/Limits.antt =====
-- Reasoning efforts, their thinking budgets and the default limits of a model:
-- src/utils/codex/pools/codex-pools-v2.ts.
use text.Mathlib.Text.{starts_with}
use quota_shift.Prelude.{ℕ, ◌≤◌, String, ◌≡◌, refl, ◌||◌, arith, ltb, if◌then◌else◌}
use quota_shift.Js.{trim}
use quota_shift.PoolsV2.{ReasoningEffort, minimal, low, medium, high, xhigh}

abbrev pub default_reasoning_effort : ReasoningEffort
default_reasoning_effort = medium

abbrev pub default_thinking_budget_tokens : ℕ
default_thinking_budget_tokens = 8192

unfoldable pub default_budget_for_effort : ReasoningEffort → ℕ
default_budget_for_effort minimal = 1024
default_budget_for_effort low = 2048
default_budget_for_effort medium = 8192
default_budget_for_effort high = 16384
default_budget_for_effort xhigh = 32768

unfoldable pub effort_for_thinking_budget : ℕ → ReasoningEffort
effort_for_thinking_budget budget_tokens =
    if ltb budget_tokens 1024
    then minimal
    else if ltb budget_tokens 4096
    then low
    else if ltb budget_tokens 16384
    then medium
    else if ltb budget_tokens 32768
    then high
    else xhigh

pub record ModelLimits : Type 0 where
  pub max_context_window_tokens : ℕ
  pub thinking_budget_tokens : ℕ
  pub reasoning_effort : ReasoningEffort

-- `lower` stands for `toLowerCase`, whose Unicode tables are not part of the program.
unfoldable pub get_default_model_limits : (String → String) → String → ModelLimits
get_default_model_limits lower upstream_model_id =
    let name = lower (trim upstream_model_id) in
    record {
      max_context_window_tokens =
          if starts_with name "gpt-4.1"
          then 1000000
          else if starts_with name "gpt-4"
          then 128000
          else if starts_with name "gpt-5" || starts_with name "gpt-6" || starts_with name "codex"
          then 400000
          else 200000;
      thinking_budget_tokens = default_thinking_budget_tokens;
      reasoning_effort = default_reasoning_effort;
    }

-- The place of an effort in the order of the switch.
abbrev pub rank : ReasoningEffort → ℕ
rank minimal = 0
rank low = 1
rank medium = 2
rank high = 3
rank xhigh = 4

-- The effort read off the default budget of an effort is that effort, but for `minimal`, whose
-- budget of 1024 tokens reads as `low`.
pub effort_for_thinking_budget-default_budget_for_effort :
    (e : ReasoningEffort)
    → effort_for_thinking_budget (default_budget_for_effort e)
      ≡ elim e [ minimal ↦ low | other ↦ other ]
unfolding effort_for_thinking_budget default_budget_for_effort
effort_for_thinking_budget-default_budget_for_effort minimal = refl
effort_for_thinking_budget-default_budget_for_effort low = refl
effort_for_thinking_budget-default_budget_for_effort medium = refl
effort_for_thinking_budget-default_budget_for_effort high = refl
effort_for_thinking_budget-default_budget_for_effort xhigh = refl

-- An effort of at least `e` is given exactly to the budgets from the least one of `e` on; the effort
-- never falls when the budget grows.
pub effort_for_thinking_budget_mono :
    (a b : ℕ) → a ≤ b → rank (effort_for_thinking_budget a) ≤ rank (effort_for_thinking_budget b)
unfolding effort_for_thinking_budget
effort_for_thinking_budget_mono a b h = ground arith

pub default_limits_bounds :
    (lower : String → String) (name : String)
    → 1024 ≤ (get_default_model_limits lower name).max_context_window_tokens
unfolding get_default_model_limits
default_limits_bounds lower name = ground arith
