-- ===== src/Claude.antt =====
-- The Claude monitor: its saved preferences (src/utils/common/settings/claude-preferences.ts and
-- claude-preference-types.ts), its guardrails and its adaptive polling (src/utils/claude/guardrails).
pub mod Preferences
pub mod Saved
pub mod Helpers
pub mod Doubles
pub mod Guardrails
pub mod Adaptive
pub mod Hits
