-- ===== src/Demand/Lookup.antt =====
-- internal/demand/tracker.go: what each operation does to the demand that is on record, as the
-- answer to "which job stands under this group and id".
use gh_runner_scaler.Prelude.{
  ℕ, ◌+◌, ◌≡◌, refl, inl, inr, Bool, true, false, not, ◌&&◌, ◌||◌, Option, none, some, List, [],
  ◌∷◌, map, arith, if◌then◌else◌, Bool-cases, Option-cases, ◌==◌, beq_refl, nat_eq, Text, text_eq,
  contains,
}
use gh_runner_scaler.Prelude.Dict.{
  keys, get, put, delete, HasUniqueKeys, get-put, get-delete, get-none,
}
use gh_runner_scaler.Domain.{QueuedJob}
use gh_runner_scaler.Demand.{
  Jobs, Groups, expired, prune_jobs, prune, stamp, jobs_of, queue_groups, clear_groups, replacement,
  replace_groups, store_jobs, keep_nonempty,
}
use gh_runner_scaler.Demand.Invariant.{IsValid, contains-prune, contains-prune_jobs, jobs_of-IsJobs}

-- The job on record under a group and an id.
abbrev pub job_of : Text → ℕ → Groups → Option QueuedJob
job_of g id groups = get id (jobs_of g groups)

abbrev pub fresh : ℕ → ℕ → Option QueuedJob → Option QueuedJob
fresh now ttl none = none
fresh now ttl (some job) = if expired now ttl job then none else some job

get-prune_jobs :
    (now ttl id : ℕ) (jobs : Jobs)
    → HasUniqueKeys jobs
    → get id (prune_jobs now ttl jobs) ≡ fresh now ttl (get id jobs)
unfolding prune_jobs
get-prune_jobs now ttl id [] u = refl
get-prune_jobs now ttl id ((i, job) ∷ jobs) u = elim (Bool-cases (i == id)) [
  | inl hit ↦
      let gone : get i (prune_jobs now ttl jobs) ≡ none =
        get-none i (prune_jobs now ttl jobs) (contains-prune_jobs now ttl i jobs u.0) in
      ground (arith, hit, gone, nat_eq.beq_iff i id)
  | inr miss ↦ ground (arith, miss, get-prune_jobs now ttl id jobs u.1)
]

jobs_of-keep_nonempty :
    (g i : Text) (jobs : Jobs) (rest : Groups)
    → contains i (keys rest) ≡ false
    → jobs_of g (keep_nonempty i jobs rest) ≡ (if i == g then jobs else jobs_of g rest)
unfolding keep_nonempty
jobs_of-keep_nonempty g i [] rest c = ground (arith, get-none i rest c, text_eq.beq_iff i g)
jobs_of-keep_nonempty g i (j ∷ jobs) rest c = ground arith

pub jobs_of-prune :
    (now ttl : ℕ) (g : Text) (groups : Groups)
    → HasUniqueKeys groups
    → jobs_of g (prune now ttl groups) ≡ prune_jobs now ttl (jobs_of g groups)
unfolding prune prune_jobs
jobs_of-prune now ttl g [] u = refl
jobs_of-prune now ttl g ((i, jobs) ∷ groups) u = ground (
  arith,
  jobs_of-prune now ttl g groups u.1,
  jobs_of-keep_nonempty g i (prune_jobs now ttl jobs) (prune now ttl groups)
      (contains-prune now ttl i groups u.0),
)

-- In a valid state, pruning forgets a job exactly when it has expired.
pub job_of-prune :
    (now ttl : ℕ) (g : Text) (id : ℕ) (groups : Groups)
    → IsValid groups
    → job_of g id (prune now ttl groups) ≡ fresh now ttl (job_of g id groups)
job_of-prune now ttl g id groups v =
    rw (jobs_of-prune now ttl g groups v.unique)
      (get-prune_jobs now ttl id (jobs_of g groups) (jobs_of-IsJobs g groups v).0)

jobs_of-put :
    (g h : Text) (jobs : Jobs) (groups : Groups)
    → jobs_of h (put g jobs groups) ≡ (if g == h then jobs else jobs_of h groups)
jobs_of-put g h jobs groups = ground (arith, get-put g h jobs groups)

jobs_of-store_jobs :
    (g h : Text) (jobs : Jobs) (groups : Groups)
    → jobs_of h (store_jobs g jobs groups) ≡ (if g == h then jobs else jobs_of h groups)
unfolding store_jobs
jobs_of-store_jobs g h [] groups = ground (arith, get-delete g h groups)
jobs_of-store_jobs g h (j ∷ jobs) groups = jobs_of-put g h (j ∷ jobs) groups

-- In a valid state, queueing puts the job, with its time, under its group and id, and otherwise
-- only forgets what has expired.
pub job_of-queue_groups :
    (now stamped ttl : ℕ) (g h : Text) (job : QueuedJob) (id : ℕ) (groups : Groups)
    → IsValid groups
    → job_of h id (queue_groups now stamped ttl g job groups) ≡ (
        if g == h && job.id == id
        then some (stamp stamped job)
        else fresh now ttl (job_of h id groups))
unfolding queue_groups
job_of-queue_groups now stamped ttl g h job id groups v = ground (
  arith,
  jobs_of-put g h (put job.id (stamp stamped job) (jobs_of g (prune now ttl groups)))
      (prune now ttl groups),
  get-put job.id id (stamp stamped job) (jobs_of g (prune now ttl groups)),
  job_of-prune now ttl h id groups v,
  text_eq.beq_iff g h,
)

-- In a valid state, clearing removes the job under the group and id, and otherwise only forgets
-- what has expired.
pub job_of-clear_groups :
    (now ttl : ℕ) (g h : Text) (cleared id : ℕ) (groups : Groups)
    → IsValid groups
    → job_of h id (clear_groups now ttl g cleared groups)
      ≡ (if g == h && cleared == id then none else fresh now ttl (job_of h id groups))
unfolding clear_groups
job_of-clear_groups now ttl g h cleared id groups v =
    elim (Option-cases (get g (prune now ttl groups))) [
      | inl e ↦ ground (arith, e, job_of-prune now ttl h id groups v, text_eq.beq_iff g h)
      | inr (jobs, e) ↦ ground (
        arith,
        e,
        jobs_of-store_jobs g h (delete cleared jobs) (prune now ttl groups),
        get-delete cleared id jobs,
        job_of-prune now ttl h id groups v,
        text_eq.beq_iff g h,
      )
    ]

abbrev pub is_some {ℓ} : {A : Type ℓ} → Option A → Bool
is_some none = false
is_some (some a) = true

has_id-replacement :
    (clock : ℕ → ℕ) (n id : ℕ) (incoming : List QueuedJob) (jobs : Jobs)
    → is_some (get id (replacement clock n incoming jobs))
      ≡ (is_some (get id jobs) || (not (id == 0) && contains id (map (λ j. j.id) incoming)))
unfolding replacement
has_id-replacement clock n id [] jobs = ground arith
has_id-replacement clock n id (job ∷ rest) jobs = elim (Bool-cases (job.id == 0)) [
  | inl e ↦ rw e (ground (arith, has_id-replacement clock n id rest jobs))
  | inr e ↦ rw e (
      ground (
        arith,
        has_id-replacement clock (if job.queued_at == 0 then n + 1 else n) id rest
            (put job.id (stamp (clock n) job) jobs),
        get-put job.id id (stamp (clock n) job) jobs,
      ))
]

-- In a valid state, after an audit the ids on record under the group are exactly the nonzero ids
-- that it listed, and of the other groups only what has expired is forgotten.
pub job_of-replace_groups :
    (now : ℕ) (clock : ℕ → ℕ) (ttl : ℕ) (g h : Text) (incoming : List QueuedJob) (id : ℕ)
    (groups : Groups)
    → IsValid groups
    → (is_some (job_of g id (replace_groups now clock ttl g incoming groups))
        ≡ (not (id == 0) && contains id (map (λ j. j.id) incoming)))
      × ((g == h) ≡ false
          → job_of h id (replace_groups now clock ttl g incoming groups)
            ≡ fresh now ttl (job_of h id groups))
unfolding replace_groups
job_of-replace_groups now clock ttl g h incoming id groups v = (
  ground (
    arith,
    jobs_of-store_jobs g g (replacement clock 0 incoming []) (prune now ttl groups),
    has_id-replacement clock 0 id incoming [],
    beq_refl g,
  ),
  λ ne. ground (
    arith,
    ne,
    jobs_of-store_jobs g h (replacement clock 0 incoming []) (prune now ttl groups),
    job_of-prune now ttl h id groups v,
  ),
)
