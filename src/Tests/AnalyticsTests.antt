-- ===== src/Tests/AnalyticsTests.antt =====
-- What is derived from the log, at concrete inputs.
use gh_runner_scaler.Prelude.{
  ℕ, ◌≤◌, ◌≡◌, true, List, [], ◌∷◌, length, count, nat_eq, Text, text_eq,
}
use gh_runner_scaler.Prelude.Strings.{text}
use gh_runner_scaler.Daemon.Logs.{LogEntry, LogStore, Disk, written, ended, record_entry}
use gh_runner_scaler.Daemon.Analytics.{select_issue_log_entries, build_lifecycle_metrics}
use gh_runner_scaler.Daemon.Analytics.Samples.{
  is_queued, is_started, is_up, is_requested, is_down, build_lifecycle_metrics_lem,
}
use gh_runner_scaler.Daemon.Analytics.Cached.{
  LogAnalytics, no_analytics, log_derived_metrics, started, recorded, collected,
  log_derived_metrics_lem,
}

abbrev entry : ℕ → Text → Text → LogEntry
entry time event_type action = record {
  time = time;
  level = text "WARN";
  message = text "m";
  component = [];
  event_type = event_type;
  action = action;
  repo = [];
  workflow = [];
  job = [];
  job_id = 7;
  runner = text "auto-1";
  container = [];
  commit = [];
  branch = [];
  status = [];
  conclusion = [];
  detail = [];
  cache_path = [];
  run_id = 0;
  run_attempt = 0;
  error = [];
  attributes = [];
}

-- A job is queued and started, and its runner comes up and goes.
abbrev entries : List LogEntry
entries =
    entry 300 (text "workflow_job") (text "in_progress")
    ∷ entry 100 (text "workflow_job") (text "queued")
    ∷ entry 200 (text "scale_up") (text "completed")
    ∷ entry 400 (text "scale_down") (text "started")
    ∷ []

build_lifecycle_metrics_lem_example :
    (length (build_lifecycle_metrics entries).queue_waits ≤ count is_queued entries)
    × (length (build_lifecycle_metrics entries).queue_waits ≤ count is_started entries)
    × (length (build_lifecycle_metrics entries).lifecycle_job_counts ≤ count is_up entries)
    × (length (build_lifecycle_metrics entries).lifecycle_job_counts ≤ count is_down entries)
    × (length (build_lifecycle_metrics entries).scale_gaps ≤ count is_down entries)
    × (length (build_lifecycle_metrics entries).scale_gaps ≤ count is_requested entries)
build_lifecycle_metrics_lem_example = build_lifecycle_metrics_lem entries

abbrev disk : Disk
disk = record { append = written; reads = true; rewrites = true; reads_cut = true }

abbrev log : LogStore
log = record {
  max_entries = 10;
  compact_at = 0;
  entries = [];
  file_entries = 0;
  version = 0;
  file = record { lines = []; tail = ended };
}

abbrev later : LogStore
later = (record_entry disk 1 (entry 100 (text "workflow_job") (text "queued")) log).0

-- A collection, an entry, and two collections more.
abbrev again : LogAnalytics
again = (log_derived_metrics 1 later (log_derived_metrics 0 log no_analytics).1).1

log_derived_metrics_lem_example :
    (log_derived_metrics later.version later again).0
    ≡ (build_lifecycle_metrics later.entries, select_issue_log_entries later.entries)
log_derived_metrics_lem_example = log_derived_metrics_lem later again (
    collected 1 (
      recorded disk 1 (entry 100 (text "workflow_job") (text "queued"))
        (collected 0 (started log))))
