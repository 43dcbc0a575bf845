-- ===== src/Github/Failures/Blamed.antt =====
-- provider/github/workflow_metrics.go: the job that a failed workflow run is blamed on is the first
-- one that failed.
use gh_runner_scaler.Prelude.{
  ℕ, ◌≤◌, ◌≡◌, refl, sym, ap, ◌∙◌, ◌⊎◌, inl, inr, Bool, true, false, not, ◌&&◌, ◌||◌, some, List,
  [], ◌∷◌, arith, ltb, leb, leb→le, Bool-cases, All, nat_eq, Text, text_eq,
}
use gh_runner_scaler.Github.Failures.{
  Job, should_enrich_workflow_failure, workflow_job_order_time, first_failed_step, insert_job,
  sort_jobs, Blame, no_blame, reason_of, blame_first, hydrate_workflow_failure_details,
}

abbrev pub has_failed : Job → Bool
has_failed job = should_enrich_workflow_failure job.conclusion

-- No failed job of the list starts before the time.
abbrev pub none_before : ℕ → List Job → Bool
none_before time [] = true
none_before time (job ∷ jobs) =
    not (has_failed job && ltb (workflow_job_order_time job) time) && none_before time jobs

abbrev pub IsIn : Job → List Job → Type 0
IsIn job [] = false ≡ true
IsIn job (j ∷ jobs) = (j ≡ job) ⊎ IsIn job jobs

abbrev IsSorted : List Job → Type 0
IsSorted [] = Unit {0}
IsSorted (job ∷ jobs) =
    All (λ j. workflow_job_order_time job ≤ workflow_job_order_time j) jobs × IsSorted jobs

-- The blame falls on a failed job of the list, and no failed job started before it.
pub record IsBlamed (jobs : List Job) (blame : Blame) : Type 0 where
  pub job : Job
  pub listed : IsIn job jobs
  pub failed : has_failed job ≡ true
  pub first : none_before (workflow_job_order_time job) jobs ≡ true
  pub named : blame ≡ record {
    job = job.name;
    step = first_failed_step job.steps;
    reason = reason_of (first_failed_step job.steps) job;
  }

none_before-insert_job :
    (time : ℕ) (job : Job) (jobs : List Job)
    → none_before time (insert_job job jobs) ≡ none_before time (job ∷ jobs)
none_before-insert_job time job [] = refl
none_before-insert_job time job (j ∷ jobs) = ground (arith, none_before-insert_job time job jobs)

none_before-sort_jobs :
    (time : ℕ) (jobs : List Job) → none_before time (sort_jobs jobs) ≡ none_before time jobs
unfolding sort_jobs
none_before-sort_jobs time [] = refl
none_before-sort_jobs time (job ∷ jobs) =
    none_before-insert_job time job (sort_jobs jobs)
    ∙ ap (λ b. not (has_failed job && ltb (workflow_job_order_time job) time) && b)
        (none_before-sort_jobs time jobs)

insert_job-IsIn :
    (found job : Job) (jobs : List Job) → IsIn found (insert_job job jobs) → IsIn found (job ∷ jobs)
insert_job-IsIn found job [] h = h
insert_job-IsIn found job (j ∷ jobs) h =
    elim (Bool-cases (leb (workflow_job_order_time job) (workflow_job_order_time j))) [
      | inl before ↦ rw before at h
      | inr after ↦ elim (rw after at h) [
        | inl e ↦ inr (inl e)
        | inr further ↦ elim (insert_job-IsIn found job jobs further) [
          | inl e ↦ inl e
          | inr rest ↦ inr (inr rest)
        ]
      ]
    ]

sort_jobs-IsIn : (found : Job) (jobs : List Job) → IsIn found (sort_jobs jobs) → IsIn found jobs
unfolding sort_jobs
sort_jobs-IsIn found [] h = h
sort_jobs-IsIn found (job ∷ jobs) h = elim (insert_job-IsIn found job (sort_jobs jobs) h) [
  | inl e ↦ inl e
  | inr rest ↦ inr (sort_jobs-IsIn found jobs rest)
]

abbrev IsNotBefore : ℕ → Job → Type 0
IsNotBefore time job = time ≤ workflow_job_order_time job

All-insert_job :
    (time : ℕ) (job : Job) (jobs : List Job)
    → IsNotBefore time job
    → All (IsNotBefore time) jobs
    → All (IsNotBefore time) (insert_job job jobs)
All-insert_job time job [] h a = (h, tt)
All-insert_job time job (j ∷ jobs) h a =
    ground (arith, h, a.0, a.1, All-insert_job time job jobs h a.1)

All-later :
    (early late : ℕ) (jobs : List Job)
    → early ≤ late
    → All (IsNotBefore late) jobs
    → All (IsNotBefore early) jobs
All-later early late [] h a = tt
All-later early late (j ∷ jobs) h a = (omega (arith, h, a.0), All-later early late jobs h a.1)

insert_job-IsSorted : (job : Job) (jobs : List Job) → IsSorted jobs → IsSorted (insert_job job jobs)
insert_job-IsSorted job [] s = (tt, tt)
insert_job-IsSorted job (j ∷ jobs) s =
    let time = workflow_job_order_time job in
    let other = workflow_job_order_time j in
    elim (Bool-cases (leb time other)) [
      | inl before ↦
          let le = leb→le time other before in rw before ((le, All-later time other jobs le s.0), s)
      | inr after ↦
          let le : other ≤ time = ground (arith, after) in
          rw after (All-insert_job other job jobs le s.0, insert_job-IsSorted job jobs s.1)
    ]

sort_jobs-IsSorted : (jobs : List Job) → IsSorted (sort_jobs jobs)
unfolding sort_jobs
sort_jobs-IsSorted [] = tt
sort_jobs-IsSorted (job ∷ jobs) = insert_job-IsSorted job (sort_jobs jobs) (sort_jobs-IsSorted jobs)

none_before-IsNotBefore :
    (time : ℕ) (jobs : List Job) → All (IsNotBefore time) jobs → none_before time jobs ≡ true
none_before-IsNotBefore time [] a = refl
none_before-IsNotBefore time (j ∷ jobs) a =
    ground (arith, a.0, none_before-IsNotBefore time jobs a.1)

abbrev pub any_failed : List Job → Bool
any_failed [] = false
any_failed (job ∷ jobs) = has_failed job || any_failed jobs

any_failed-insert_job :
    (job : Job) (jobs : List Job) → any_failed (insert_job job jobs) ≡ any_failed (job ∷ jobs)
any_failed-insert_job job [] = refl
any_failed-insert_job job (j ∷ jobs) = ground (arith, any_failed-insert_job job jobs)

any_failed-sort_jobs : (jobs : List Job) → any_failed (sort_jobs jobs) ≡ any_failed jobs
unfolding sort_jobs
any_failed-sort_jobs [] = refl
any_failed-sort_jobs (job ∷ jobs) =
    any_failed-insert_job job (sort_jobs jobs)
    ∙ ap (λ b. has_failed job || b) (any_failed-sort_jobs jobs)

blame_first-IsBlamed :
    (conclusion : Text) (jobs : List Job)
    → IsSorted jobs
    → any_failed jobs ≡ true
    → IsBlamed jobs (blame_first conclusion jobs)
unfolding blame_first
blame_first-IsBlamed conclusion [] s a = cc
blame_first-IsBlamed conclusion (job ∷ jobs) s a = elim (Bool-cases (has_failed job)) [
  | inl failed ↦ rw failed (record {
    job = job;
    listed = inl refl;
    failed = failed;
    first = ground (arith, none_before-IsNotBefore (workflow_job_order_time job) jobs s.0);
    named = refl;
  })
  | inr fine ↦
      let rest = blame_first-IsBlamed conclusion jobs s.1 (ground (arith, fine, a)) in
      rw fine (record {
        job = rest.job;
        listed = inr rest.listed;
        failed = rest.failed;
        first = ground (arith, fine, rest.first);
        named = rest.named;
      })
]

blame_first_none :
    (conclusion : Text) (jobs : List Job)
    → any_failed jobs ≡ false
    → blame_first conclusion jobs ≡ no_blame conclusion
unfolding blame_first
blame_first_none conclusion [] a = refl
blame_first_none conclusion (job ∷ jobs) a = ground (arith, a, blame_first_none conclusion jobs)

-- The same in the terms of the code.
pub hydrate-IsBlamed :
    (conclusion : Text) (jobs : List Job)
    → (any_failed jobs ≡ true
        → IsBlamed jobs (hydrate_workflow_failure_details conclusion (some jobs)).0)
      × (any_failed jobs ≡ false
          → (hydrate_workflow_failure_details conclusion (some jobs)).0 ≡ no_blame conclusion)
unfolding hydrate_workflow_failure_details
hydrate-IsBlamed conclusion jobs = (
  λ a.
      let b =
        blame_first-IsBlamed conclusion (sort_jobs jobs) (sort_jobs-IsSorted jobs)
          (any_failed-sort_jobs jobs ∙ a) in
      record {
        job = b.job;
        listed = sort_jobs-IsIn b.job jobs b.listed;
        failed = b.failed;
        first = sym (none_before-sort_jobs (workflow_job_order_time b.job) jobs) ∙ b.first;
        named = b.named;
      },
  λ a. blame_first_none conclusion (sort_jobs jobs) (any_failed-sort_jobs jobs ∙ a),
)
