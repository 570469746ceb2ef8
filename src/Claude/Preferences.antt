-- ===== src/Claude/Preferences.antt =====
-- src/utils/common/settings/claude-preferences.ts and claude-preference-types.ts: the preferences of the
-- Claude monitor, their normal form, and where they are stored.
mod Normal
mod Loading
mod Saving
unfoldable pub use Normal.*
unfoldable pub use Loading.*
unfoldable pub use Saving.*
