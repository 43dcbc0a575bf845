-- ===== src/Demand/Refinement.antt =====
-- internal/demand/tracker.go: the tracker refines a function from groups and ids to jobs.
use gh_runner_scaler.Prelude.{
  ℕ, ◌≡◌, refl, ◌≢◌, ◌⊎◌, inl, inr, false, not, ◌&&◌, ◌||◌, Option, none, some, List, [], ◌∷◌, map,
  arith, if◌then◌else◌, Bool-cases, ◌==◌, nat_eq, Text, text_eq, contains,
}
use gh_runner_scaler.Domain.{QueuedJob}
use gh_runner_scaler.Demand.{Groups, stamp}
use gh_runner_scaler.Demand.Invariant.{IsValid}
use gh_runner_scaler.Demand.Lookup.{
  job_of, fresh, is_some, job_of-prune, job_of-queue_groups, job_of-clear_groups,
  job_of-replace_groups,
}
use gh_runner_scaler.Demand.Reach.{
  Operation, queues, clears, replaces, observes, apply, run, apply-IsValid,
}

-- What is promised of the demand: which job, if any, waits under a group and an id. How the jobs
-- are kept, in which order and whether empty groups are, is forgotten.
abbrev pub View : Type 0
View = Text → ℕ → Option QueuedJob

abbrev pub view : Groups → View
view groups g id = job_of g id groups

-- What each operation promises. One that is refused changes nothing; every other one forgets what
-- has expired by its time.
abbrev pub Promise : ℕ → Operation → View → View → Type 0
Promise ttl (queues now stamped g job) before after =
    (h : Text) (id : ℕ)
    → after h id ≡ (
        if (g == []) || (job.id == 0)
        then before h id
        else if g == h && job.id == id
        then some (stamp stamped job)
        else fresh now ttl (before h id))
Promise ttl (clears now g cleared) before after =
    (h : Text) (id : ℕ)
    → after h id ≡ (if g == h && cleared == id then none else fresh now ttl (before h id))
Promise ttl (replaces now clock g jobs) before after =
    (h : Text) (id : ℕ)
    → ((g ≡ []) × (after h id ≡ before h id))
      ⊎ ((g ≢ [])
          × (is_some (after g id) ≡ (not (id == 0) && contains id (map (λ j. j.id) jobs)))
          × ((g == h) ≡ false → after h id ≡ fresh now ttl (before h id)))
Promise ttl (observes now) before after =
    (h : Text) (id : ℕ) → after h id ≡ fresh now ttl (before h id)

-- A sequence of operations, each as it is promised.
pub data Kept (ttl : ℕ) : List Operation → View → View → Type 0 where
  done : {v : View} → Kept ttl [] v v
  kept :
      {o : Operation} {os : List Operation} {u v w : View}
      → Promise ttl o u v
      → Kept ttl os v w
      → Kept ttl (o ∷ os) u w

apply-Promise :
    (ttl : ℕ) (o : Operation) (groups : Groups)
    → IsValid groups
    → Promise ttl o (view groups) (view (apply ttl groups o))
unfolding apply
apply-Promise ttl (queues now stamped g job) groups v = λ h id.
    elim (Bool-cases ((g == []) || (job.id == 0))) [
      | inl refused ↦ rw refused refl
      | inr accepted ↦ rw accepted (job_of-queue_groups now stamped ttl g h job id groups v)
    ]
apply-Promise ttl (clears now g cleared) groups v =
    λ h id. job_of-clear_groups now ttl g h cleared id groups v
apply-Promise ttl (replaces now clock g jobs) groups v = λ h id. elim (Bool-cases (g == [])) [
  | inl refused ↦ inl ((text_eq.beq_iff g []).0 refused, rw refused refl)
  | inr accepted ↦ inr (
    (λ e. absurd (ground (arith, accepted, (text_eq.beq_iff g []).1 e))),
    rw accepted (job_of-replace_groups now clock ttl g h jobs id groups v).0,
    rw accepted (job_of-replace_groups now clock ttl g h jobs id groups v).1,
  )
]
apply-Promise ttl (observes now) groups v = λ h id. job_of-prune now ttl h id groups v

-- From a valid state, every sequence of operations does to the jobs on record what its operations
-- promise one after the other: a job that is queued with a group and an id is put under them, a
-- cleared one removed, an audit of a group leaves exactly the nonzero ids that it lists, each
-- forgets only what has expired, and a call without a group or an id that it needs changes nothing.
pub run-Kept :
    (ttl : ℕ) (os : List Operation) (groups : Groups)
    → IsValid groups
    → Kept ttl os (view groups) (view (run ttl groups os))
unfolding run
run-Kept ttl [] groups v = done
run-Kept ttl (o ∷ os) groups v =
    kept (apply-Promise ttl o groups v)
      (run-Kept ttl os (apply ttl groups o) (apply-IsValid ttl groups o v))
