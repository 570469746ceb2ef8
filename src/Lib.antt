-- ===== src/Lib.antt =====
-- QuotaShift, a desktop application that keeps several accounts of model providers, shows their
-- quotas and switches or pools them. This library models the decision logic of its TypeScript part
-- (under src/ of the repository).
--
-- Parts and files:
-- - PoolsV2: the registry of model pools, version 2 (src/utils/codex/pools/codex-pools-v2.ts, its
--   types in codex-pools-v2-types.ts, the migration from version 1 in codex-pools-v2-migration.ts,
--   and src/hooks/codex/useCodexModelPoolsV2.ts, which keeps the pools and saves them). A pool is a
--   record with the source's fields. PoolsV2.Normalize is normalizeCodexModelPoolsV2,
--   PoolsV2.Validate is validateEnabledPoolNames, PoolsV2.Mutation is applyPoolMutation,
--   PoolsV2.Migration is migrateCodexPoolsV1 and PoolsV2.Manager is the hook as a step function on
--   its state, its saved copy and its messages.
-- - CliPools: rotation pools of the command line tools (src/utils/cli-pools): Normalize and Binding
--   are normalize.ts, Restore is restore.ts, Order is account-order.ts, Preferences is preferences.ts with
--   the hash of the prompt in Preferences.Hash.
-- - Tracked: the accounts that the overlay shows (src/utils/common/accounts/tracked-accounts.ts): the
--   list and its changes in Tracked and Tracked.Lists, loading, saving and removal over a storage in
--   Tracked.Storage. JSON.parse and JSON.stringify are parameters.
-- - Reorder: the order of account cards (src/utils/account/account-order.ts and
--   src/utils/account/pointer-reorder.ts): Reorder is the geometry over any arithmetic of doubles,
--   Reorder.Sorting is sortByOrderValue, with what it returns in Reorder.Sorting.Placed, Reorder.Items is
--   about reorderItems, and Reorder.Controller is PointerReorderController with a function per method.
-- - Tiers: the tier summaries (src/utils/codex/codex-tier-summary.ts,
--   src/utils/antigravity/quota/antigravity-tier-summary.ts, src/utils/claude/claude-tier-summary.ts).
-- - Display: src/utils/common/settings/display-mode.ts.
-- - Polling: the poll intervals (src/utils/common/settings/poll-interval.ts), with parseInt and String
--   of a number in Js.Decimal.
-- - Backup: the merge of restored accounts (src/utils/common/backup/app-backup-merge.ts). An account is
--   its fields; generated ids are a parameter.
-- - Overlay: the further accounts in the overlay's data
--   (src/utils/common/overlay/overlay-extra-accounts.ts), for the entries of Tracked.
-- - Secure: the storage adapter for credentials (src/utils/auth/secure-storage.ts,
--   secure-storage-types.ts and secure-storage-migration.ts). Secure is the adapter's state with getItem,
--   setItem, removeItem and clear; its promise chain is a list of tasks that Secure.Chain runs one by one,
--   with the rollback of a task that fails; Secure.Facade is key and length; Secure.Migration is the
--   migration of plaintext copies and hydrate. Secure.Services is the interface of the backend and of the
--   plain store, whose calls may fail, with what is relied on of the backend in Observed. Secure.Runs has the
--   interleavings of calls and tasks as lists of events.
-- - Claude: the monitor of Claude accounts. Claude.Preferences is what is normalised, loaded and saved
--   (src/utils/common/settings/claude-preferences.ts, claude-preference-types.ts) in a child module each, with
--   a save as the list of its writes; Claude.Guardrails is the decision of the guardrails and the adaptive polling interval
--   (src/utils/claude/guardrails). Claude.Doubles is the interface of the doubles these calculate with, NaN
--   apart, with the laws of their order; Claude.Saved, Helpers, Adaptive and Hits have the proofs.
-- - Shortcuts: src/utils/common/settings/shortcuts.ts. Shortcuts has keyNameFromEvent,
--   buildShortcutFromKeyEvent, matchesShortcutEvent and formatShortcutDisplay; Shortcuts.Preferences loads
--   and saves the shortcuts, a save as the list of its writes. toUpperCase is a parameter.
-- - Adjustment: the overlay's scale, theme and size (src/utils/common/ui/ui-adjustment.ts).
-- - Suspension: accounts whose polling is paused
--   (src/utils/account/capture/account-poll-suspension.ts), over a storage and JSON.
-- - Browser: localStorage, which can be missing, unreadable or not writable.
-- - Js: what the source uses of its language: values of type unknown, numbers as exact fractions with
--   nan and the infinities, strings with trim.
-- - Prelude: tests, lists, sets of strings and insertion-ordered maps.
-- - Examples: runs and the theorems at concrete inputs.
--
-- Conventions: a string is a native string, read by code points; toLowerCase is a parameter `lower`.
-- A Set or a Map is a list in insertion order. A loop over an array is structural recursion on the
-- list, with the sets it fills as arguments, so no fuel is used; the chain of writes is drained by as
-- many steps as it has tasks, which is enough since a task adds none; the decimal text of a number n
-- is printed on fuel n, which is enough since each step divides by ten, and the hexadecimal text of a
-- hash on fuel 7, which is enough for eight digits. A 32-bit hash is a natural number below 2 ^ 32,
-- with its wrap-around written out. An error object is a
-- constructor of the module's error type, and `message` gives its text; an exception that the source
-- catches is the branch that its handler takes.
--
-- Not modelled: components, styles and hooks that only draw or call the native side; the Rust part
-- (src-tauri); cryptography; network calls; pools of version 1, usage windows and the selection and
-- sorting of accounts; the building of the overlay's and the taskbar's data; backup files; the
-- parsing of quotas; texts for display.
pub mod Prelude
pub mod Js
pub mod Browser
pub mod PoolsV2
pub mod CliPools
pub mod Adjustment
pub mod Shortcuts
pub mod Suspension
pub mod Secure
pub mod Tracked
pub mod Reorder
pub mod Tiers
pub mod Display
pub mod Polling
pub mod Claude
pub mod Backup
pub mod Overlay
mod Examples
