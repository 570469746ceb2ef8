-- ===== src/Examples.antt =====
-- Runs of the modelled code, and the theorems at concrete inputs.
mod PoolsV2
mod CliPools
mod Secure
mod Tracked
mod Cards
mod Settings
mod Backup
mod Overlay
mod Claude
mod Shortcuts
mod Suspension
mod Adjustment
mod Rotation
