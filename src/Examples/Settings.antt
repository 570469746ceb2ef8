-- ===== src/Examples/Settings.antt =====
-- Tier summaries and display modes at concrete inputs.
use quota_shift.Prelude.{String, ◌≡◌, refl, true, false, Option, none, some, List, [], ◌∷◌}
use quota_shift.Js.{str, parse_int, trim}
use quota_shift.Browser.{Storage}
use quota_shift.Tiers.Codex
use quota_shift.Tiers.Antigravity
use quota_shift.Tiers.Claude
use quota_shift.Polling.{sanitize_with, clamp, clamp_signed, sanitize_poll_interval}

-- The inputs are in lower case already.
abbrev lower : String → String
lower s = s

abbrev decode : String → Option String
decode _ = none

abbrev codex_accounts : List Codex.CodexAccount
codex_accounts =
    record { id = "a"; api_key = "sk-1"; last_plan = none }
    ∷ record { id = "b"; api_key = "{}"; last_plan = some "chatgpt pro" }
    ∷ record { id = "c"; api_key = ""; last_plan = some "go" }
    ∷ []

abbrev codex_cache : List (String × Codex.CodexCacheEntry)
codex_cache = ("a", record { is_oauth = some false; plan_name = none }) ∷ []

abbrev antigravity_accounts : List Antigravity.AntigravityAccount
antigravity_accounts =
    record { id = "a"; last_plan = some "google ai ultra" }
    ∷ record { id = "b"; last_plan = none }
    ∷ []

abbrev antigravity_cache : List (String × Option String)
antigravity_cache = ("b", some "standard") ∷ []

abbrev claude_accounts : List Claude.ClaudeAccount
claude_accounts =
    record { subscription_type = some "max"; rate_limit_tier = none }
    ∷ record { subscription_type = none; rate_limit_tier = some "team" }
    ∷ []

abbrev storage : Storage
storage = record {
  entries = ("quotashift_display_mode_v1", "overlay") ∷ [];
  readable = true;
  writable = true;
  removable = true;
}

sanitize_test : sanitize_poll_interval (str " 90s") ≡ 90
unfolding sanitize_poll_interval sanitize_with parse_int trim clamp_signed clamp
sanitize_test = refl
