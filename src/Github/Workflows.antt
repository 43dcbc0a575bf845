-- ===== src/Github/Workflows.antt =====
-- provider/github/ci.go: the listing of recent workflow runs and the details of those that failed.
pub mod Names
use gh_runner_scaler.Prelude.{
  ℕ, ◌-◌, ◌/◌, Bool, true, not, ◌&&◌, Option, none, some, List, [], ◌∷◌, ◌++◌, map, nat_beq,
  if◌then◌else◌, nat_eq, Text, text_eq,
}
use gh_runner_scaler.Prelude.Strings.{trim_space}
use gh_runner_scaler.Github.Pages.{
  Page, Fetched, fetched, refused, unfinished, all_pages, limited_pages,
}
use gh_runner_scaler.Github.Repos.{
  Target, is_org, split_repo_full_name, metric_repo_name, api_repo_name, workflow_repo_batch,
}
use gh_runner_scaler.Github.Failures.{
  Job, Blame, should_enrich_workflow_failure, hydrate_workflow_failure_details,
}

-- gh.WorkflowRun as far as it is read. Times that are 0 are zero times.
pub record CompletedRun : Type 0 where
  pub id : ℕ
  pub attempt : ℕ
  pub name : Text
  pub conclusion : Text
  pub number : ℕ
  pub event : Text
  pub head_branch : Text
  pub created_at : ℕ
  pub run_started_at : ℕ
  pub updated_at : ℕ

-- The time of completion is kept as a time, 0 standing for the empty text.
pub record WorkflowMetrics : Type 0 where
  pub run_id : ℕ
  pub run_attempt : ℕ
  pub repo : Text
  pub workflow : Text
  pub conclusion : Text
  pub duration_s : ℕ
  pub run_number : ℕ
  pub event : Text
  pub branch : Text
  pub completed_at : ℕ
  pub failed_job : Text
  pub failed_step : Text
  pub failure_reason : Text

-- What the API replies: the pages of the completed runs of a repository, and of the jobs of an
-- attempt of a run, 0 being the latest one; and how many pages a listing may ask for.
pub record WorkflowApi : Type 0 where
  pub runs : Text → ℕ → Option (Page CompletedRun)
  pub jobs : Text → ℕ → ℕ → ℕ → Option (Page Job)
  pub fuel : ℕ

-- New and NewForRepo
unfoldable pub new : Text → Target
new org = record { org = trim_space org; repo = [] }

abbrev pub repo_target_of : Option (Text × Text) → Option Target
repo_target_of none = none
repo_target_of (some (owner, name)) = some (record { org = trim_space owner; repo = name })

unfoldable pub new_for_repo : Text → Option Target
new_for_repo repo_full_name = repo_target_of (split_repo_full_name repo_full_name)

-- listWorkflowRepos: the repository of the target, or those of its organisation.
unfoldable pub list_workflow_repos : Target → Option (List Text) → Option (List Text)
list_workflow_repos t org_repos = if is_org t.repo then org_repos else some (t.repo ∷ [])

-- int(d.Seconds()), and 0 for a negative duration
abbrev pub seconds_between : ℕ → ℕ → ℕ
seconds_between start end = (end - start) / 1000000000

unfoldable pub duration_s_of : CompletedRun → ℕ
duration_s_of run =
    if not (nat_beq run.run_started_at 0) && not (nat_beq run.updated_at 0)
    then seconds_between run.run_started_at run.updated_at
    else if not (nat_beq run.created_at 0) && not (nat_beq run.updated_at 0)
    then seconds_between run.created_at run.updated_at
    else 0

unfoldable pub workflow_metrics : Target → Text → CompletedRun → WorkflowMetrics
workflow_metrics t repo run = record {
  run_id = run.id;
  run_attempt = run.attempt;
  repo = metric_repo_name t repo;
  workflow = run.name;
  conclusion = run.conclusion;
  duration_s = duration_s_of run;
  run_number = run.number;
  event = run.event;
  branch = run.head_branch;
  completed_at = if nat_beq run.updated_at 0 then run.created_at else run.updated_at;
  failed_job = [];
  failed_step = [];
  failure_reason = [];
}

-- A repository whose listing fails is left out.
abbrev pub runs_or_none : Fetched CompletedRun → List CompletedRun
runs_or_none (fetched runs) = runs
runs_or_none refused = []
runs_or_none unfinished = []

-- The loop over the repositories of the batch.
unfoldable pub recent_runs_of : Target → WorkflowApi → ℕ → List Text → List WorkflowMetrics
recent_runs_of t api per_repo [] = []
recent_runs_of t api per_repo (repo ∷ repos) =
    map (workflow_metrics t repo)
      (runs_or_none (limited_pages (api.runs repo) per_repo api.fuel 0 []))
    ++ recent_runs_of t api per_repo repos

abbrev pub recent_runs_in :
    Target → WorkflowApi → ℕ → Option (List Text) → Option (List WorkflowMetrics)
recent_runs_in t api per_repo none = none
recent_runs_in t api per_repo (some repos) = some (recent_runs_of t api per_repo repos)

-- The metrics, `none` being an error, and the cursor afterwards. A batch is never out of range.
unfoldable pub list_recent_workflow_runs_shallow :
    Target → WorkflowApi → ℕ → ℕ → ℕ → Option (List Text) → Option (List WorkflowMetrics) × ℕ
list_recent_workflow_runs_shallow t api size cursor per_repo org_repos =
    if nat_beq per_repo 0 then (some [], cursor) else elim (list_workflow_repos t org_repos) [
      | none ↦ (none, cursor)
      | some repos ↦
          let batch = workflow_repo_batch size cursor repos in
          (recent_runs_in t api per_repo batch.0, batch.1)
    ]

abbrev pub jobs_or_error : Fetched Job → Option (List Job)
jobs_or_error (fetched jobs) = some jobs
jobs_or_error refused = none
jobs_or_error unfinished = none

abbrev pub blamed : WorkflowMetrics → Blame → WorkflowMetrics
blamed run blame = record run {
  failed_job = blame.job;
  failed_step = blame.step;
  failure_reason = blame.reason;
}

-- One turn of the loop, and whether it went without an error.
unfoldable pub enriched : Target → WorkflowApi → WorkflowMetrics → WorkflowMetrics × Bool
enriched t api run =
    let listed =
      all_pages (api.jobs (api_repo_name t run.repo) run.run_id run.run_attempt) api.fuel 0 in
    let jobs = if nat_beq run.run_id 0 then fetched [] else listed in
    let (blame, ok) = hydrate_workflow_failure_details run.conclusion (jobs_or_error jobs) in
    if should_enrich_workflow_failure run.conclusion then (blamed run blame, ok) else (run, true)

-- EnrichWorkflowMetrics: the metrics, and whether there was no error.
unfoldable pub enrich_workflow_metrics :
    Target → WorkflowApi → List WorkflowMetrics → List WorkflowMetrics × Bool
unfolding enriched
enrich_workflow_metrics t api [] = ([], true)
enrich_workflow_metrics t api (run ∷ runs) =
    let (first, first_ok) = enriched t api run in
    let (rest, rest_ok) = enrich_workflow_metrics t api runs in (first ∷ rest, first_ok && rest_ok)

abbrev pub or_shallow : List WorkflowMetrics → List WorkflowMetrics → List WorkflowMetrics
or_shallow [] runs = runs
or_shallow (run ∷ more) runs = run ∷ more

abbrev pub with_details :
    Target → WorkflowApi → Option (List WorkflowMetrics) → Option (List WorkflowMetrics)
with_details t api none = none
with_details t api (some runs) = some (or_shallow (enrich_workflow_metrics t api runs).0 runs)

unfoldable pub list_recent_workflow_runs :
    Target → WorkflowApi → ℕ → ℕ → ℕ → Option (List Text) → Option (List WorkflowMetrics) × ℕ
list_recent_workflow_runs t api size cursor per_repo org_repos =
    let (runs, next) = list_recent_workflow_runs_shallow t api size cursor per_repo org_repos in
    (with_details t api runs, next)
