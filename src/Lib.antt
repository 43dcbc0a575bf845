-- ===== src/Lib.antt =====
-- A model of gh-runner-scaler, the daemon that keeps a pool of GitHub Actions runners on LXD
-- containers in step with the jobs that are queued.
--
-- A configuration is loaded and validated, and its runner classes become the runner groups.
-- Webhooks and periodic audits say which jobs wait; the demand tracker keeps them, per runner
-- group, in a file. The reconcile loop of the daemon answers triggers and a timer: it runs the
-- reconciler of each group, which lists runners and containers, tears down what has stopped, has
-- lost its runner or has been idle too long, and clones, configures and registers as many new
-- runners as the demand asks for. The log store keeps what the daemon logs and answers queries;
-- the delivery caches keep metrics and issues from being sent twice.
--
-- Files, with the code they are about:
--   Prelude           numbers, lists, texts, association lists and decimal numerals, shared by all
--   Domain            internal/domain/types.go
--   Demand            internal/demand/tracker.go: Queue is `queue` on the tracker and
--                     `queue_groups` on its map, likewise Clear, Replace; Snapshot is `snapshot`,
--                     ActiveGroups `active_groups`, pruneLocked `prune`, persistLocked
--                     `persist_locked` in Demand/Persist; below it one file per kind of theorem
--   Engine/Calls      internal/iface: what the engine asks of the providers
--   Engine            internal/engine/reconciler.go: Provision is scaleUp, Teardown scaleDown,
--                     Baseline ensureBaseline, Visit the loop over the containers, Reconcile the
--                     pass, Names nextName, Labels the counting of runners
--   Config            internal/config/config.go: the records; Target, Cache and Sections hold the
--                     checks of its parts, Classes is RunnerClassConfigs, Validate is validate,
--                     Environment applyEnvOverrides and Load
--   Github/Inventory  provider/github/ci.go: the cache of runners with its generations
--   Github/Tokens     provider/github/ci.go: GetRegistrationToken and GetRemoveToken
--   Github/Repos      provider/github/ci.go: the names of repositories, workflowRepoBatch,
--                     listOrgRepos
--                     Shared: the cursor that two callers of workflowRepoBatch advance
--   Github/Pages      provider/github: the loops over pages, among them fetchRunners and
--                     listRepositoryWorkflowRuns
--   Github/Queue      provider/github/ci.go: ListQueuedJobs
--   Github/Webhooks   provider/github/webhook.go
--   Github/Failures   provider/github/workflow_metrics.go
--   Github/Workflows  provider/github/ci.go: ListRecentWorkflowRuns, EnrichWorkflowMetrics
--   Daemon/Routing    internal/daemon/webhook.go: groupsForEvent, groupMatchesRepo, labelsMatch
--   Daemon/Handler    internal/daemon/webhook.go: handleWebhook, authorizeLogsRequest
--   Daemon/Sync       internal/daemon/webhook.go: handlePushEvent, syncCacheRepo
--   Daemon/Shell      internal/daemon/webhook.go: shellQuote
--   Daemon/Debounce   internal/daemon/webhook.go: the debouncer
--   Daemon/Trigger    internal/daemon/daemon.go: triggerGroup and doReconcileGroups
--   Daemon/Audit      internal/daemon/daemon.go: auditQueuedJobs
--   Daemon/Metrics    internal/daemon/daemon.go: buildRunnerMetrics
--   Daemon/Workflows  internal/daemon/daemon.go: collectWorkflowMetrics
--   Daemon/Analytics  internal/daemon/analytics.go: Cached is cachedLogDerivedMetrics and
--                     storeLogDerivedMetrics
--   Daemon/SeenCache  internal/daemon/seen_cache.go
--   Daemon/Logs       internal/daemon/logs.go: the store and its queries; appendLocked is
--                     `append_locked`, load is `read_file` and `load`
--   Wiring            cmd/scaler/main.go: wireRunnerGroups is `wire_runner_groups`, wireCIProvider
--                     `wire_ci_provider`; a provider is known by its target and by the class whose
--                     inventory it uses
--   Tests             the definitions and the theorems at concrete inputs
--
-- A program that calls the providers is a function of the history of calls made so far. The
-- environment, a parameter, answers each call by that history, so that it may answer the same
-- question differently each time and fail wherever it likes. The tracker and the log store carry
-- their file and what the disk does as arguments. The debouncer and the reconcile loop are step
-- functions on their state, one for each critical section, and the order of the steps is free.
--
-- Each call into the operating system that writes the state of the tracker can fail, the removal of
-- the temporary file included. An append to the log writes the line, nothing, part of it, or all
-- but its newline, or fails after it; the log file is the list of its lines and what stands behind
-- them, and whether a line that was cut off more than once is read as cut short is an argument, as
-- encoding/json decides it. A rewriting of the log works or leaves the file as it was.
--
-- Fuel: the search for a container name tries one number more than there are names, and a decimal
-- numeral gets one more step than its number; cloning tries as often as the source does.
-- A listing may ask for as many pages as its fuel says, which is enough when it is more than the
-- number of the last page.
--
-- A time is a number of nanoseconds, 0 being the zero time of Go; an int64 identifier is a natural
-- number, since it is only compared. Case is folded for the ASCII letters only. encoding/json is a
-- codec parameter whose law is that it decodes what it has encoded; of a log entry the encoding is
-- left out. HMAC, the decoding of webhook payloads and the replies of the REST client of GitHub
-- are arguments; its generation counter is a natural number that does not wrap. A Go map is an
-- association list whose order stands for the order of iteration. Not modelled: log output, the
-- HTTP server and the calls of the REST client, the LXD and Loki providers, the decoding of TOML
-- with the defaults under it, the host metrics, averages and percentiles, deployment scripts. A
-- text is the list of its characters, so a length in bytes is that of an ASCII text. Contexts are
-- not done. A status that a visit has refreshed is used in that visit and not written back to the
-- list of containers from which a later name is chosen, where only names are read.
pub mod Prelude
pub mod Domain
pub mod Demand
pub mod Engine
pub mod Config
pub mod Github
pub mod Daemon
pub mod Wiring
mod Tests
