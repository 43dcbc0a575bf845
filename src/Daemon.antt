-- ===== src/Daemon.antt =====
-- internal/daemon: the webhook server, the reconcile loop, the queue audit, the metrics of runners
-- and of workflow runs, the log store and what is derived from it, and the cache of what was
-- delivered.
pub mod Routing
pub mod Shell
pub mod Sync
pub mod Handler
pub mod Debounce
pub mod SeenCache
pub mod Trigger
pub mod Logs
pub mod Audit
pub mod Metrics
pub mod Workflows
pub mod Analytics
