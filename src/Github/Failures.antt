-- ===== src/Github/Failures.antt =====
-- provider/github/workflow_metrics.go: which job and step a failed workflow run is blamed on.
pub mod Blamed
pub mod Culprit
use gh_runner_scaler.Prelude.{
  ℕ, Bool, true, false, not, ◌||◌, Option, none, some, List, [], ◌∷◌, leb, nat_beq, if◌then◌else◌,
  ◌==◌, nat_eq, Text, text_eq,
}
use gh_runner_scaler.Prelude.Strings.{text}

-- Times that are 0 are zero times.
pub record Step : Type 0 where
  pub name : Text
  pub conclusion : Text

pub record Job : Type 0 where
  pub name : Text
  pub conclusion : Text
  pub started_at : ℕ
  pub created_at : ℕ
  pub completed_at : ℕ
  pub steps : List Step

unfoldable pub should_enrich_workflow_failure : Text → Bool
should_enrich_workflow_failure conclusion = not (
    conclusion == []
    || conclusion == text "success"
    || conclusion == text "neutral"
    || conclusion == text "skipped")

unfoldable pub first_failed_step : List Step → Text
first_failed_step [] = []
first_failed_step (step ∷ steps) =
    let rest = first_failed_step steps in
    if should_enrich_workflow_failure step.conclusion then step.name else rest

unfoldable pub workflow_job_order_time : Job → ℕ
workflow_job_order_time job =
    if not (nat_beq job.started_at 0)
    then job.started_at
    else if not (nat_beq job.created_at 0)
    then job.created_at
    else job.completed_at

abbrev pub insert_job : Job → List Job → List Job
insert_job job [] = job ∷ []
insert_job job (j ∷ jobs) =
    if leb (workflow_job_order_time job) (workflow_job_order_time j)
    then job ∷ j ∷ jobs
    else j ∷ insert_job job jobs

-- sort.SliceStable by the order time
unfoldable pub sort_jobs : List Job → List Job
sort_jobs [] = []
sort_jobs (job ∷ jobs) = insert_job job (sort_jobs jobs)

-- The failed job, the failed step and the reason.
pub record Blame : Type 0 where
  pub job : Text
  pub step : Text
  pub reason : Text

abbrev pub no_blame : Text → Blame
no_blame conclusion = record { job = []; step = []; reason = conclusion }

-- The step, else the conclusion of the job, which is not empty where the job has failed.
abbrev pub reason_of : Text → Job → Text
reason_of [] job = job.conclusion
reason_of (c ∷ step) job = c ∷ step

-- The loop over the sorted jobs.
unfoldable pub blame_first : Text → List Job → Blame
blame_first conclusion [] = no_blame conclusion
blame_first conclusion (job ∷ jobs) =
    let rest = blame_first conclusion jobs in
    let step = first_failed_step job.steps in
    if should_enrich_workflow_failure job.conclusion
    then record { job = job.name; step = step; reason = reason_of step job }
    else rest

-- hydrateWorkflowFailureDetails; `none` is an error of the listing, which is passed on.
unfoldable pub hydrate_workflow_failure_details : Text → Option (List Job) → Blame × Bool
hydrate_workflow_failure_details conclusion none = (no_blame conclusion, false)
hydrate_workflow_failure_details conclusion (some jobs) =
    (blame_first conclusion (sort_jobs jobs), true)
