-- ===== src/Tests.antt =====
-- The definitions and the theorems at concrete inputs.
mod DemandTests
mod EngineTests
mod DaemonTests
mod TriggerTests
mod LogTests
mod ConfigTests
mod GithubTests
mod WiringTests
mod WorkflowTests
mod AnalyticsTests
