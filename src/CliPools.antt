-- ===== src/CliPools.antt =====
-- Rotation pools of the command-line tools: the types of src/utils/cli-pools/types.ts.
pub mod Normalize
pub mod Binding
pub mod Restore
pub mod Order
pub mod Preferences
use quota_shift.Prelude.{String, Bool, Option, List}

pub data CliProvider : Type 0 where
  agy codex : CliProvider

-- A trigger window is one of the strings "5h", "weekly" and "monthly".
pub record CliRotationPool : Type 0 where
  pub id : String
  pub provider : CliProvider
  pub name : String
  pub account_ids : List String
  pub enabled : Bool
  pub auto_switch : Bool
  pub trigger_windows : List String
  pub fallback_latest_enabled : Bool
  pub switch_when_idle_only : Bool

pub record Account : Type 0 where
  pub id : String
  pub provider : Option String
