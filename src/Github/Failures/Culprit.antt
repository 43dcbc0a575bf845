-- ===== src/Github/Failures/Culprit.antt =====
-- provider/github/workflow_metrics.go: the job, the step and the reason that a failed workflow run
-- is blamed on, said without the code that looks for them.
use gh_runner_scaler.Prelude.{
  ℕ, ◌≤◌, ◌≡◌, refl, ap, ◌≢◌, ◌↔◌, ◌⊎◌, inl, inr, true, some, List, [], ◌∷◌, ◌++◌, arith,
  Bool-cases, All, Any, nat_eq, Text, text_eq,
}
use gh_runner_scaler.Prelude.Strings.{text}
use gh_runner_scaler.Github.Failures.{
  Step, Job, should_enrich_workflow_failure, workflow_job_order_time, first_failed_step, Blame,
  reason_of, hydrate_workflow_failure_details,
}
use gh_runner_scaler.Github.Failures.Blamed.{
  has_failed, none_before, any_failed, IsIn, IsBlamed, hydrate-IsBlamed,
}

abbrev pub Fails : Text → Type 0
Fails conclusion =
    (conclusion ≢ [])
    × (conclusion ≢ text "success")
    × (conclusion ≢ text "neutral")
    × (conclusion ≢ text "skipped")

-- The start, else the creation, else the completion; a time is known where it is not 0.
abbrev pub BeganAt : Job → ℕ → Type 0
BeganAt job time =
    ((job.started_at ≢ 0) × (time ≡ job.started_at))
    ⊎ ((job.started_at ≡ 0) × (job.created_at ≢ 0) × (time ≡ job.created_at))
    ⊎ ((job.started_at ≡ 0) × (job.created_at ≡ 0) × (time ≡ job.completed_at))

-- The name of the first step that fails, and no name where none does.
abbrev pub IsFirstFailed : List Step → Text → Type 0
IsFirstFailed steps name =
    (All (λ step. ¬ Fails step.conclusion) steps × (name ≡ []))
    ⊎ ((before : List Step) × (step : Step) × (later : List Step) × (steps ≡ before ++ step ∷ later)
        × All (λ s. ¬ Fails s.conclusion) before
        × Fails step.conclusion
        × (name ≡ step.name))

-- The blame falls on a job of the list that fails, that began no later than any other that fails.
pub record IsCulprit (jobs : List Job) (blame : Blame) : Type 0 where
  pub job : Job
  pub listed : IsIn job jobs
  pub fails : Fails job.conclusion
  pub time : ℕ
  pub began : BeganAt job time
  pub first :
      All (λ j. ¬ Fails j.conclusion ⊎ ((other : ℕ) × BeganAt j other × (time ≤ other))) jobs
  pub named : blame.job ≡ job.name
  pub step : IsFirstFailed job.steps blame.step
  pub reason :
      ((blame.step ≢ []) × (blame.reason ≡ blame.step))
      ⊎ ((blame.step ≡ []) × (blame.reason ≡ job.conclusion))

Fails_iff : (c : Text) → (should_enrich_workflow_failure c ≡ true) ↔ Fails c
unfolding should_enrich_workflow_failure
Fails_iff c = ground (
  arith,
  text_eq.beq_iff c [],
  text_eq.beq_iff c (text "success"),
  text_eq.beq_iff c (text "neutral"),
  text_eq.beq_iff c (text "skipped"),
)

workflow_job_order_time-BeganAt : (job : Job) → BeganAt job (workflow_job_order_time job)
unfolding workflow_job_order_time
workflow_job_order_time-BeganAt job = ground arith

first_failed_step-IsFirstFailed :
    (steps : List Step) → IsFirstFailed steps (first_failed_step steps)
unfolding first_failed_step
first_failed_step-IsFirstFailed [] = inl (tt, refl)
first_failed_step-IsFirstFailed (s ∷ ss) =
    elim (Bool-cases (should_enrich_workflow_failure s.conclusion)) [
      | inl failed ↦ rw failed (inr ([], s, ss, refl, tt, (Fails_iff s.conclusion).0 failed, refl))
      | inr fine ↦
          let passes : ¬ Fails s.conclusion =
            λ f. absurd (ground (arith, fine, (Fails_iff s.conclusion).1 f)) in
          rw fine (elim (first_failed_step-IsFirstFailed ss) [
            | inl (passed, e) ↦ inl ((passes, passed), e)
            | inr (before, step, later, e, passed, fails, named) ↦
                inr (s ∷ before, step, later, ap (λ l. s ∷ l) e, (passes, passed), fails, named)
          ])
    ]

none_before-first :
    (time : ℕ) (jobs : List Job)
    → none_before time jobs ≡ true
    → All (λ j. ¬ Fails j.conclusion ⊎ ((other : ℕ) × BeganAt j other × (time ≤ other))) jobs
none_before-first time [] h = tt
none_before-first time (j ∷ jobs) h = (
  elim (Bool-cases (has_failed j)) [
    | inr fine ↦ inl (λ f. absurd (ground (arith, fine, (Fails_iff j.conclusion).1 f)))
    | inl failed ↦
        inr
          (workflow_job_order_time j, workflow_job_order_time-BeganAt j, ground (arith, h, failed))
  ],
  none_before-first time jobs (ground (arith, h)),
)

any_failed_iff : (jobs : List Job) → (any_failed jobs ≡ true) ↔ Any (λ j. Fails j.conclusion) jobs
any_failed_iff [] = ((λ e. absurd (ground (arith, e))), (λ e. absurd e))
any_failed_iff (j ∷ jobs) = ground (arith, any_failed_iff jobs, Fails_iff j.conclusion)

reason_of-step :
    (step : Text) (job : Job)
    → ((step ≢ []) × (reason_of step job ≡ step))
      ⊎ ((step ≡ []) × (reason_of step job ≡ job.conclusion))
reason_of-step [] job = inr (refl, refl)
reason_of-step (c ∷ cs) job = inl ((λ e. cc), refl)

IsBlamed-IsCulprit : (jobs : List Job) (blame : Blame) → IsBlamed jobs blame → IsCulprit jobs blame
IsBlamed-IsCulprit jobs blame b = record {
  job = b.job;
  listed = b.listed;
  fails = (Fails_iff b.job.conclusion).0 b.failed;
  time = workflow_job_order_time b.job;
  began = workflow_job_order_time-BeganAt b.job;
  first = none_before-first (workflow_job_order_time b.job) jobs b.first;
  named = ap (λ x. x.job) b.named;
  step = rw b.named (first_failed_step-IsFirstFailed b.job.steps);
  reason = rw b.named (reason_of-step (first_failed_step b.job.steps) b.job);
}

-- If some job of the run has failed, the run is blamed on a job of the run that has failed and that
-- began no later than any other that has, a job beginning when it starts, or else is created, or
-- else is completed; with the name of the first step of the job that has failed, and with that name
-- for a reason, or the conclusion of the job where the name is empty. If none has failed it is
-- blamed on nothing, with its own conclusion for a reason.
pub hydrate_lem :
    (conclusion : Text) (jobs : List Job)
    → (Any (λ j. Fails j.conclusion) jobs
        × IsCulprit jobs (hydrate_workflow_failure_details conclusion (some jobs)).0)
      ⊎ (¬ Any (λ j. Fails j.conclusion) jobs
          × ((hydrate_workflow_failure_details conclusion (some jobs)).0
              ≡ record { job = []; step = []; reason = conclusion }))
hydrate_lem conclusion jobs =
    let h = hydrate-IsBlamed conclusion jobs in
    elim (Bool-cases (any_failed jobs)) [
      | inl some_failed ↦ inl (
        (any_failed_iff jobs).0 some_failed,
        IsBlamed-IsCulprit jobs (hydrate_workflow_failure_details conclusion (some jobs)).0
            (h.0 some_failed),
      )
      | inr none_failed ↦
          inr (
            (λ a. absurd (ground (arith, none_failed, (any_failed_iff jobs).1 a))),
            h.1 none_failed,
          )
    ]
