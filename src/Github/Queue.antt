-- ===== src/Github/Queue.antt =====
-- provider/github/ci.go: ListQueuedJobs, the audit of the queue, and what it leaves of the demand.
use gh_runner_scaler.Prelude.{
  ℕ, ◌≡◌, refl, sym, ap, ◌∙◌, inl, inr, Bool, false, not, ◌&&◌, ◌||◌, Option, none, some, List, [],
  ◌∷◌, ◌++◌, arith, nat_beq, if◌then◌else◌, Bool-cases, Option-cases, ◌==◌, nat_eq, Text, text_eq,
  contains, contains-append,
}
use gh_runner_scaler.Prelude.Strings.{text}
use gh_runner_scaler.Domain.{QueuedJob}
use gh_runner_scaler.Github.Repos.{workflow_repo_batch}

pub record WorkflowRun : Type 0 where
  pub id : ℕ
  pub status : Text

-- A creation time that is 0 is the zero time.
pub record WorkflowJob : Type 0 where
  pub id : ℕ
  pub status : Text
  pub labels : List Text
  pub created_at : ℕ

-- What the API replies to ListRepositoryWorkflowRuns and ListWorkflowJobs; `none` is an error. The
-- clock is read for a job without a creation time.
pub record Api : Type 0 where
  pub org : Text
  pub runs : Text → Option (List WorkflowRun)
  pub jobs : Text → ℕ → Option (List WorkflowJob)
  pub clock : ℕ

abbrev pub full_name : Api → Text → Text
full_name api repo = api.org ++ b'/' ∷ repo

abbrev pub or_now : ℕ → ℕ → ℕ
or_now now created_at = if nat_beq created_at 0 then now else created_at

-- The loop over the jobs of a run.
unfoldable pub queued_of : Api → Text → List WorkflowJob → List QueuedJob
queued_of api repo [] = []
queued_of api repo (job ∷ jobs) =
    let rest = queued_of api repo jobs in
    if job.status == text "queued"
    then record {
      id = job.id;
      repo = full_name api repo;
      labels = job.labels;
      queued_at = or_now api.clock job.created_at;
    }
      ∷ rest
    else rest

abbrev pub is_active : WorkflowRun → Bool
is_active run = run.status == text "queued" || run.status == text "in_progress"

abbrev pub prepend : List QueuedJob → Option (List QueuedJob) → Option (List QueuedJob)
prepend jobs none = none
prepend jobs (some later) = some (jobs ++ later)

-- The loop over the runs of a repository.
unfoldable pub queued_in_runs : Api → Text → List WorkflowRun → Option (List QueuedJob)
queued_in_runs api repo [] = some []
queued_in_runs api repo (run ∷ runs) =
    let rest = queued_in_runs api repo runs in
    if not (is_active run) then rest else elim (api.jobs repo run.id) [
      | none ↦ none
      | some jobs ↦ prepend (queued_of api repo jobs) rest
    ]

-- The loop over the repositories of the batch.
unfoldable pub queued_in_repos : Api → List Text → Option (List QueuedJob)
queued_in_repos api [] = some []
queued_in_repos api (repo ∷ repos) =
    let rest = queued_in_repos api repos in
    elim (api.runs repo) [
      | none ↦ none
      | some runs ↦ elim (queued_in_runs api repo runs) [
        | none ↦ none
        | some jobs ↦ prepend jobs rest
      ]
    ]

abbrev pub in_batch : Api → Option (List Text) → Option (List QueuedJob)
in_batch api none = none
in_batch api (some repos) = queued_in_repos api repos

-- ListQueuedJobs on a list of repositories, and the cursor afterwards; `none` is an error, or an
-- index out of range, which cannot be.
unfoldable pub list_queued_jobs : Api → ℕ → ℕ → List Text → Option (List QueuedJob) × ℕ
list_queued_jobs api size cursor repos =
    let batch = workflow_repo_batch size cursor repos in (in_batch api batch.0, batch.1)

-- Some repository of the list lists the job as queued, in a run that is active.
abbrev pub is_queued_id : ℕ → List WorkflowJob → Bool
is_queued_id id [] = false
is_queued_id id (job ∷ jobs) =
    (nat_beq job.id id && job.status == text "queued") || is_queued_id id jobs

abbrev pub jobs_or_none : Option (List WorkflowJob) → List WorkflowJob
jobs_or_none none = []
jobs_or_none (some jobs) = jobs

abbrev pub queued_id_in_runs : Api → Text → ℕ → List WorkflowRun → Bool
queued_id_in_runs api repo id [] = false
queued_id_in_runs api repo id (run ∷ runs) =
    (is_active run && is_queued_id id (jobs_or_none (api.jobs repo run.id)))
    || queued_id_in_runs api repo id runs

abbrev pub runs_or_none : Option (List WorkflowRun) → List WorkflowRun
runs_or_none none = []
runs_or_none (some runs) = runs

abbrev pub is_queued_in : Api → ℕ → List Text → Bool
is_queued_in api id [] = false
is_queued_in api id (repo ∷ repos) =
    queued_id_in_runs api repo id (runs_or_none (api.runs repo)) || is_queued_in api id repos

abbrev pub ids : List QueuedJob → List ℕ
ids [] = []
ids (job ∷ jobs) = job.id ∷ ids jobs

ids-append : (xs ys : List QueuedJob) → ids (xs ++ ys) ≡ ids xs ++ ids ys
ids-append [] ys = refl
ids-append (x ∷ xs) ys = ap (λ zs. x.id ∷ zs) (ids-append xs ys)

contains-ids-append :
    (id : ℕ) (xs ys : List QueuedJob)
    → contains id (ids (xs ++ ys)) ≡ (contains id (ids xs) || contains id (ids ys))
contains-ids-append id xs ys =
    ap (contains id) (ids-append xs ys) ∙ contains-append id (ids xs) (ids ys)

contains-queued_of :
    (api : Api) (repo : Text) (id : ℕ) (jobs : List WorkflowJob)
    → contains id (ids (queued_of api repo jobs)) ≡ is_queued_id id jobs
unfolding queued_of
contains-queued_of api repo id [] = refl
contains-queued_of api repo id (job ∷ jobs) = ground (arith, contains-queued_of api repo id jobs)

-- The ids of what is prepended are those of both parts.
contains-prepend :
    (id : ℕ) (jobs listed : List QueuedJob) (rest : Option (List QueuedJob))
    → prepend jobs rest ≡ some listed
    → (later : List QueuedJob) × (rest ≡ some later)
      × (contains id (ids listed) ≡ (contains id (ids jobs) || contains id (ids later)))
contains-prepend id jobs listed none h = cc
contains-prepend id jobs listed (some later) h =
    let same : jobs ++ later ≡ listed = ground (arith, h) in
    (later, refl, ap (λ xs. contains id (ids xs)) (sym same) ∙ contains-ids-append id jobs later)

contains-queued_in_runs :
    (api : Api) (repo : Text) (id : ℕ) (runs : List WorkflowRun) (listed : List QueuedJob)
    → queued_in_runs api repo runs ≡ some listed
    → contains id (ids listed) ≡ queued_id_in_runs api repo id runs
unfolding queued_in_runs
contains-queued_in_runs api repo id [] listed h = ground (arith, h)
contains-queued_in_runs api repo id (run ∷ runs) listed h = elim (Bool-cases (is_active run)) [
  | inr idle ↦
      let rest = contains-queued_in_runs api repo id runs listed (ground (arith, idle, h)) in
      ground (arith, idle, rest)
  | inl active ↦ elim (Option-cases (api.jobs repo run.id)) [
    | inl e ↦ ground (arith, active, e, h)
    | inr (jobs, e) ↦
        let (later, f, both) =
          contains-prepend id (queued_of api repo jobs) listed (queued_in_runs api repo runs)
            (ground (arith, active, e, h)) in
        let rest = contains-queued_in_runs api repo id runs later f in
        ground (arith, active, e, both, rest, contains-queued_of api repo id jobs)
  ]
]

contains-queued_in_repos :
    (api : Api) (id : ℕ) (repos : List Text) (listed : List QueuedJob)
    → queued_in_repos api repos ≡ some listed
    → contains id (ids listed) ≡ is_queued_in api id repos
unfolding queued_in_repos
contains-queued_in_repos api id [] listed h = ground (arith, h)
contains-queued_in_repos api id (repo ∷ repos) listed h = elim (Option-cases (api.runs repo)) [
  | inl e ↦ ground (arith, e, h)
  | inr (runs, e) ↦ elim (Option-cases (queued_in_runs api repo runs)) [
    | inl f ↦ ground (arith, e, f, h)
    | inr (jobs, f) ↦
        let (later, g, both) =
          contains-prepend id jobs listed (queued_in_repos api repos) (ground (arith, e, f, h)) in
        let rest = contains-queued_in_repos api id repos later g in
        ground (arith, e, both, rest, contains-queued_in_runs api repo id runs jobs f)
  ]
]

in_batch_lem :
    (api : Api) (id : ℕ) (batch : Option (List Text)) (listed : List QueuedJob)
    → in_batch api batch ≡ some listed
    → (repos : List Text) × (batch ≡ some repos)
      × (contains id (ids listed) ≡ is_queued_in api id repos)
in_batch_lem api id none listed h = cc
in_batch_lem api id (some repos) listed h =
    (repos, refl, contains-queued_in_repos api id repos listed h)

-- What a listing without an error lists are exactly the ids of the jobs that some repository of
-- the batch, and no other repository, has queued in an active run.
pub list_queued_jobs_lem :
    (api : Api) (size cursor id : ℕ) (repos : List Text) (listed : List QueuedJob)
    → (list_queued_jobs api size cursor repos).0 ≡ some listed
    → (batch : List Text) × ((workflow_repo_batch size cursor repos).0 ≡ some batch)
      × (contains id (ids listed) ≡ is_queued_in api id batch)
unfolding list_queued_jobs
list_queued_jobs_lem api size cursor id repos listed h =
    in_batch_lem api id (workflow_repo_batch size cursor repos).0 listed h
