-- ===== src/Engine.antt =====
-- internal/engine/reconciler.go: the scaling logic.
pub mod Labels
pub mod Names
pub mod Calls
pub mod Commands
pub mod Settings
pub mod Provision
pub mod Teardown
pub mod Baseline
pub mod Visit
pub mod Reconcile
pub mod Emits
