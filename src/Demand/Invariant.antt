-- ===== src/Demand/Invariant.antt =====
-- internal/demand/tracker.go: the maps of the tracker stay well formed.
use gh_runner_scaler.Prelude.{
  ◌+◌, if◌then◌else◌, ℕ, ◌≡◌, refl, ◌≢◌, inl, inr, false, List, [], ◌∷◌, arith, Bool-cases,
  Option-cases, All, ◌==◌, nat_eq, Text, text_eq, contains,
}
use gh_runner_scaler.Prelude.Dict.{
  keys, get, put, delete, HasUniqueKeys, put-HasUniqueKeys, delete-HasUniqueKeys, All-put,
  All-delete, All-get, put_nonempty,
}
use gh_runner_scaler.Domain.{QueuedJob}
use gh_runner_scaler.Demand.{
  Jobs, Groups, prune_jobs, prune, stamp, jobs_of, queue_groups, clear_groups, replacement,
  replace_groups, store_jobs, keep_nonempty,
}

-- A job is stored under its own id.
abbrev pub IsFiled : ℕ × QueuedJob → Type 0
IsFiled e = e.1.id ≡ e.0

abbrev pub IsJobs : Jobs → Type 0
IsJobs jobs = HasUniqueKeys jobs × All IsFiled jobs

abbrev pub IsGroup : Text × Jobs → Type 0
IsGroup e = (e.1 ≢ []) × IsJobs e.1

-- Groups and ids are unique, no group is empty, and each job stands under its own id.
pub record IsValid (groups : Groups) : Type 0 where
  pub unique : HasUniqueKeys groups
  pub each : All IsGroup groups

pub contains-prune_jobs :
    (now ttl id : ℕ) (jobs : Jobs)
    → contains id (keys jobs) ≡ false
    → contains id (keys (prune_jobs now ttl jobs)) ≡ false
unfolding prune_jobs
contains-prune_jobs now ttl id [] h = refl
contains-prune_jobs now ttl id ((i, job) ∷ jobs) h =
    ground (arith, contains-prune_jobs now ttl id jobs)

pub prune_jobs-IsJobs : (now ttl : ℕ) (jobs : Jobs) → IsJobs jobs → IsJobs (prune_jobs now ttl jobs)
unfolding prune_jobs
prune_jobs-IsJobs now ttl [] h = h
prune_jobs-IsJobs now ttl ((i, job) ∷ jobs) h =
    ground
      (arith, prune_jobs-IsJobs now ttl jobs (h.0.1, h.1.1), contains-prune_jobs now ttl i jobs)

contains-keep_nonempty :
    (g h : Text) (jobs : Jobs) (rest : Groups)
    → contains g (keys rest) ≡ false
    → (h == g) ≡ false
    → contains g (keys (keep_nonempty h jobs rest)) ≡ false
unfolding keep_nonempty
contains-keep_nonempty g h [] rest c n = c
contains-keep_nonempty g h (j ∷ jobs) rest c n = ground arith

pub contains-prune :
    (now ttl : ℕ) (g : Text) (groups : Groups)
    → contains g (keys groups) ≡ false
    → contains g (keys (prune now ttl groups)) ≡ false
unfolding prune
contains-prune now ttl g [] h = refl
contains-prune now ttl g ((i, jobs) ∷ groups) h =
    contains-keep_nonempty g i (prune_jobs now ttl jobs) (prune now ttl groups)
      (contains-prune now ttl g groups (ground arith)) (ground arith)

keep_nonempty-IsValid :
    (g : Text) (jobs : Jobs) (rest : Groups)
    → contains g (keys rest) ≡ false
    → IsJobs jobs
    → IsValid rest
    → IsValid (keep_nonempty g jobs rest)
unfolding keep_nonempty
keep_nonempty-IsValid g [] rest c h v = v
keep_nonempty-IsValid g (j ∷ jobs) rest c h v = record {
  unique = (c, v.unique);
  each = (((λ e. cc), h), v.each);
}

-- Pruning makes the groups valid that are so but for empty ones.
pub prune-IsValid :
    (now ttl : ℕ) (groups : Groups)
    → HasUniqueKeys groups
    → All (λ e. IsJobs e.1) groups
    → IsValid (prune now ttl groups)
unfolding prune
prune-IsValid now ttl [] u h = record { unique = tt; each = tt }
prune-IsValid now ttl ((g, jobs) ∷ groups) u h =
    keep_nonempty-IsValid g (prune_jobs now ttl jobs) (prune now ttl groups)
      (contains-prune now ttl g groups u.0) (prune_jobs-IsJobs now ttl jobs h.0)
      (prune-IsValid now ttl groups u.1 h.1)

forget_nonempty : (groups : Groups) → All IsGroup groups → All (λ e. IsJobs e.1) groups
forget_nonempty [] h = tt
forget_nonempty (e ∷ groups) h = (h.0.1, forget_nonempty groups h.1)

pub pruned_again : (now ttl : ℕ) (groups : Groups) → IsValid groups → IsValid (prune now ttl groups)
pruned_again now ttl groups v =
    prune-IsValid now ttl groups v.unique (forget_nonempty groups v.each)

pub jobs_of-IsJobs : (g : Text) (groups : Groups) → IsValid groups → IsJobs (jobs_of g groups)
jobs_of-IsJobs g groups v = elim (Option-cases (get g groups)) [
  | inl e ↦ rw (e, jobs_of) (tt, tt)
  | inr (jobs, e) ↦ rw (e, jobs_of) (All-get IsGroup g jobs groups v.each e).1
]

put-IsJobs :
    (id : ℕ) (job : QueuedJob) (jobs : Jobs) → job.id ≡ id → IsJobs jobs → IsJobs (put id job jobs)
put-IsJobs id job jobs e h = (put-HasUniqueKeys id job jobs h.0, All-put IsFiled id job jobs e h.1)

store_jobs-IsValid :
    (g : Text) (jobs : Jobs) (groups : Groups)
    → IsJobs jobs
    → IsValid groups
    → IsValid (store_jobs g jobs groups)
unfolding store_jobs
store_jobs-IsValid g [] groups h v = record {
  unique = delete-HasUniqueKeys g groups v.unique;
  each = All-delete IsGroup g groups v.each;
}
store_jobs-IsValid g (j ∷ jobs) groups h v = record {
  unique = put-HasUniqueKeys g (j ∷ jobs) groups v.unique;
  each = All-put IsGroup g (j ∷ jobs) groups ((λ e. cc), h) v.each;
}

id-stamp : (now : ℕ) (job : QueuedJob) → (stamp now job).id ≡ job.id
id-stamp now job = ground arith

stamped-IsJobs :
    (now : ℕ) (job : QueuedJob) (jobs : Jobs)
    → IsJobs jobs
    → IsJobs (put job.id (stamp now job) jobs)
stamped-IsJobs now job jobs h = put-IsJobs job.id (stamp now job) jobs (id-stamp now job) h

-- Queueing a job keeps the state valid.
pub queue_groups-IsValid :
    (now stamped ttl : ℕ) (g : Text) (job : QueuedJob) (groups : Groups)
    → IsValid groups
    → IsValid (queue_groups now stamped ttl g job groups)
unfolding queue_groups
queue_groups-IsValid now stamped ttl g job groups v =
    let p : IsValid (prune now ttl groups) = pruned_again now ttl groups v in
    let jobs : Jobs = put job.id (stamp stamped job) (jobs_of g (prune now ttl groups)) in
    record {
      unique = put-HasUniqueKeys g jobs (prune now ttl groups) p.unique;
      each =
          All-put IsGroup g jobs (prune now ttl groups)
            (
              put_nonempty job.id (stamp stamped job) (jobs_of g (prune now ttl groups)),
              stamped-IsJobs stamped job (jobs_of g (prune now ttl groups))
                  (jobs_of-IsJobs g (prune now ttl groups) p),
            )
            p.each;
    }

-- Clearing a job keeps the state valid.
pub clear_groups-IsValid :
    (now ttl : ℕ) (g : Text) (id : ℕ) (groups : Groups)
    → IsValid groups
    → IsValid (clear_groups now ttl g id groups)
unfolding clear_groups
clear_groups-IsValid now ttl g id groups v =
    let p : IsValid (prune now ttl groups) = pruned_again now ttl groups v in
    elim (Option-cases (get g (prune now ttl groups))) [
      | inl e ↦ rw (e, clear_groups) p
      | inr (jobs, e) ↦
          let ok : IsJobs jobs = (All-get IsGroup g jobs (prune now ttl groups) p.each e).1 in
          rw (e, clear_groups)
            (store_jobs-IsValid g (delete id jobs) (prune now ttl groups)
              (delete-HasUniqueKeys id jobs ok.0, All-delete IsFiled id jobs ok.1) p)
    ]

replacement-IsJobs :
    (clock : ℕ → ℕ) (n : ℕ) (incoming : List QueuedJob) (jobs : Jobs)
    → IsJobs jobs
    → IsJobs (replacement clock n incoming jobs)
unfolding replacement
replacement-IsJobs clock n [] jobs h = h
replacement-IsJobs clock n (job ∷ rest) jobs h = elim (Bool-cases (job.id == 0)) [
  | inl e ↦ rw e (replacement-IsJobs clock n rest jobs h)
  | inr e ↦ rw e (
      replacement-IsJobs clock (if job.queued_at == 0 then n + 1 else n) rest
        (put job.id (stamp (clock n) job) jobs) (stamped-IsJobs (clock n) job jobs h))
]

-- An audit's replacement keeps the state valid.
pub replace_groups-IsValid :
    (now : ℕ) (clock : ℕ → ℕ) (ttl : ℕ) (g : Text) (incoming : List QueuedJob) (groups : Groups)
    → IsValid groups
    → IsValid (replace_groups now clock ttl g incoming groups)
unfolding replace_groups
replace_groups-IsValid now clock ttl g incoming groups v =
    store_jobs-IsValid g (replacement clock 0 incoming []) (prune now ttl groups)
      (replacement-IsJobs clock 0 incoming [] (tt, tt)) (pruned_again now ttl groups v)
