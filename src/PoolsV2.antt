-- ===== src/PoolsV2.antt =====
-- The model pool registry, version 2: the types of src/utils/codex/pools/codex-pools-v2-types.ts.
pub mod Limits
pub mod Members
pub mod Normalize
pub mod Validate
pub mod Mutation
pub mod Migration
pub mod Manager
use quota_shift.Prelude.{ℕ, String, Bool, Option, List}

pub data RoutingPolicy : Type 0 where
  cache_aware balanced priority : RoutingPolicy

pub data AuthMode : Type 0 where
  siwc openai_api_key : AuthMode

pub data ReasoningEffort : Type 0 where
  minimal low medium high xhigh : ReasoningEffort

pub data SelectionMode : Type 0 where
  manual discovered : SelectionMode

pub record CodexModelPool : Type 0 where
  pub id : String
  pub display_name : String
  pub public_model_name : String
  pub upstream_model_id : String
  pub enabled : Bool
  pub member_account_ids : List String
  pub model_selection_mode : SelectionMode
  pub routing_policy : RoutingPolicy
  pub auth_mode : AuthMode
  pub max_context_window_tokens : Option ℕ
  pub thinking_budget_tokens : Option ℕ
  pub reasoning_effort : Option ReasoningEffort

pub record KnownAccount : Type 0 where
  pub id : String
  pub auth_mode : Option String
