-- ===== src/Daemon/Analytics.antt =====
-- internal/daemon/analytics.go: what is derived from the log. Averages and percentiles, which are
-- floating-point numbers, are left out: the model keeps the samples that they are taken of.
pub mod Reason
pub mod Steps
pub mod Samples
pub mod Cached
use gh_runner_scaler.Prelude.{
  ℕ, ◌-◌, Bool, true, false, not, ◌&&◌, Option, none, some, List, [], ◌∷◌, ◌++◌, map, ltb, leb,
  nat_beq, if◌then◌else◌, length, take, ◌==◌, nat_eq, Text, text_eq, contains,
}
use gh_runner_scaler.Prelude.Strings.{text, is_space, trim_space}
use gh_runner_scaler.Prelude.Dict.{Dict, get, put, delete}
use gh_runner_scaler.Prelude.Decimal.{decimal}
use gh_runner_scaler.Daemon.Logs.{LogEntry}

abbrev pub upper_code : ℕ → ℕ
upper_code c = if leb b'a' c && leb c b'z' then c - 32 else c

-- strings.ToUpper
unfoldable pub to_upper : Text → Text
to_upper = map upper_code

unfoldable pub select_issue_log_entries : List LogEntry → List LogEntry
select_issue_log_entries [] = []
select_issue_log_entries (entry ∷ entries) =
    let rest = select_issue_log_entries entries in
    let level = to_upper (trim_space entry.level) in
    if not (level == text "WARN") && not (level == text "ERROR")
    then rest
    else if entry.event_type == text "issue_events"
    then rest
    else entry ∷ rest

-- strings.Join(strings.Fields(s), " "): runs of space become one space, and those at the ends go.
-- The test says whether a space is due before the next character.
unfoldable pub join_fields : Bool → Text → Text
join_fields due [] = []
join_fields due (c ∷ s) =
    let after_space = join_fields true s in
    let after_char = join_fields false s in
    if is_space c then after_space else if due then b' ' ∷ c ∷ after_char else c ∷ after_char

abbrev pub shortened : Text → Text
shortened candidate =
    if ltb 160 (length candidate) then take 157 candidate ++ text "..." else candidate

-- The loop over the candidates.
unfoldable pub first_reason : List Text → Text
first_reason [] = text "unknown"
first_reason (candidate ∷ candidates) =
    let rest = first_reason candidates in
    let trimmed = trim_space candidate in
    if trimmed == [] then rest else shortened (join_fields false trimmed)

unfoldable pub derive_issue_reason : LogEntry → Text
derive_issue_reason entry = first_reason (entry.detail ∷ entry.error ∷ entry.message ∷ [])

unfoldable pub analytics_job_key : LogEntry → Text
analytics_job_key entry =
    if not (nat_beq entry.job_id 0)
    then decimal entry.job_id
    else entry.repo
      ++ b'|'
        ∷ (decimal entry.run_id
            ++ b'|' ∷ (decimal entry.run_attempt ++ b'|' ∷ (entry.workflow ++ b'|' ∷ entry.job)))

-- The variables of buildLifecycleMetrics. A set of jobs is a list used through membership and
-- length; a time that is 0 is the zero time.
pub record Lifecycles : Type 0 where
  pub queue_starts : Dict Text ℕ
  pub active_lifecycles : Dict Text (List Text)
  pub pending_runner_jobs : Dict Text (List Text)
  pub queue_waits : List ℕ
  pub lifecycle_job_counts : List ℕ
  pub scale_gaps : List ℕ
  pub last_scale_down_at : ℕ

abbrev pub no_lifecycles : Lifecycles
no_lifecycles = record {
  queue_starts = [];
  active_lifecycles = [];
  pending_runner_jobs = [];
  queue_waits = [];
  lifecycle_job_counts = [];
  scale_gaps = [];
  last_scale_down_at = 0;
}

abbrev pub add_job : Text → List Text → List Text
add_job key jobs = if contains key jobs then jobs else key ∷ jobs

abbrev pub jobs_of : Option (List Text) → List Text
jobs_of none = []
jobs_of (some jobs) = jobs

abbrev pub is : LogEntry → Text → Text → Bool
is entry event_type action = entry.event_type == event_type && entry.action == action

unfoldable pub job_queued : LogEntry → Lifecycles → Lifecycles
job_queued entry s = record s {
  queue_starts = put (analytics_job_key entry) entry.time s.queue_starts;
}

-- The wait of a job that starts, unless its time lies before that of its queueing.
abbrev pub job_started : LogEntry → Option ℕ → Lifecycles → Lifecycles
job_started entry none s = s
job_started entry (some queued_at) s = if ltb entry.time queued_at then s else record s {
  queue_waits = s.queue_waits ++ (entry.time - queued_at) ∷ [];
  queue_starts = delete (analytics_job_key entry) s.queue_starts;
}

-- The job is counted for its runner, whether or not the runner is known to be up.
abbrev pub runner_took : LogEntry → Option (List Text) → Lifecycles → Lifecycles
runner_took entry (some jobs) s = record s {
  active_lifecycles = put entry.runner (add_job (analytics_job_key entry) jobs) s.active_lifecycles;
}
runner_took entry none s = record s {
  pending_runner_jobs =
      put entry.runner
        (add_job (analytics_job_key entry) (jobs_of (get entry.runner s.pending_runner_jobs)))
        s.pending_runner_jobs;
}

unfoldable pub job_in_progress : LogEntry → Lifecycles → Lifecycles
job_in_progress entry s =
    let waited = job_started entry (get (analytics_job_key entry) s.queue_starts) s in
    if entry.runner == []
    then waited
    else runner_took entry (get entry.runner s.active_lifecycles) waited

unfoldable pub runner_up : LogEntry → Lifecycles → Lifecycles
runner_up entry s = record s {
  active_lifecycles =
      put entry.runner (jobs_of (get entry.runner s.pending_runner_jobs)) s.active_lifecycles;
  pending_runner_jobs = delete entry.runner s.pending_runner_jobs;
}

unfoldable pub scale_up_requested : LogEntry → Lifecycles → Lifecycles
scale_up_requested entry s =
    if not (nat_beq s.last_scale_down_at 0) && not (ltb entry.time s.last_scale_down_at)
    then record s {
      scale_gaps = s.scale_gaps ++ (entry.time - s.last_scale_down_at) ∷ [];
      last_scale_down_at = 0;
    }
    else s

abbrev pub lifecycle_over : LogEntry → Option (List Text) → Lifecycles → Lifecycles
lifecycle_over entry none s = s
lifecycle_over entry (some jobs) s = record s {
  lifecycle_job_counts = s.lifecycle_job_counts ++ length jobs ∷ [];
  active_lifecycles = delete entry.runner s.active_lifecycles;
}

abbrev pub runner_downed : LogEntry → Lifecycles → Lifecycles
runner_downed entry s = record s {
  pending_runner_jobs = delete entry.runner s.pending_runner_jobs;
  last_scale_down_at = entry.time;
}

unfoldable pub runner_down : LogEntry → Lifecycles → Lifecycles
runner_down entry s =
    runner_downed entry (lifecycle_over entry (get entry.runner s.active_lifecycles) s)

-- The switch of the loop.
unfoldable pub observe_entry : LogEntry → Lifecycles → Lifecycles
observe_entry entry s =
    if is entry (text "workflow_job") (text "queued")
    then job_queued entry s
    else if is entry (text "workflow_job") (text "in_progress")
    then job_in_progress entry s
    else if is entry (text "scale_up") (text "completed") && not (entry.runner == [])
    then runner_up entry s
    else if is entry (text "scale_up") (text "requested")
    then scale_up_requested entry s
    else if is entry (text "scale_down") (text "started") && not (entry.runner == [])
    then runner_down entry s
    else s

-- The loop over the entries, in their order of time.
unfoldable pub observe_entries : List LogEntry → Lifecycles → Lifecycles
observe_entries [] s = s
observe_entries (entry ∷ entries) s = observe_entries entries (observe_entry entry s)

abbrev pub insert_entry : LogEntry → List LogEntry → List LogEntry
insert_entry entry [] = entry ∷ []
insert_entry entry (e ∷ es) =
    if leb entry.time e.time then entry ∷ e ∷ es else e ∷ insert_entry entry es

-- sort.SliceStable by time
unfoldable pub sort_entries : List LogEntry → List LogEntry
sort_entries [] = []
sort_entries (entry ∷ entries) = insert_entry entry (sort_entries entries)

-- buildLifecycleMetrics, up to the samples.
unfoldable pub build_lifecycle_metrics : List LogEntry → Lifecycles
build_lifecycle_metrics entries = observe_entries (sort_entries entries) no_lifecycles
