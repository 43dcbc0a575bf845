-- ===== src/Demand/Reach.antt =====
-- internal/demand/tracker.go: the state after any sequence of operations.
use gh_runner_scaler.Prelude.{
  ℕ, inl, inr, ◌||◌, List, [], ◌∷◌, if◌then◌else◌, Bool-cases, ◌==◌, nat_eq, Text, text_eq,
}
use gh_runner_scaler.Domain.{QueuedJob}
use gh_runner_scaler.Demand.{Groups, prune, queue_groups, clear_groups, replace_groups}
use gh_runner_scaler.Demand.Invariant.{
  IsValid, pruned_again, queue_groups-IsValid, clear_groups-IsValid, replace_groups-IsValid,
}

-- A call with the readings of the clock that it makes; `observe` is what Snapshot and
-- ActiveGroups do to the state.
pub data Operation : Type 0 where
  queues : ℕ → ℕ → Text → QueuedJob → Operation
  clears : ℕ → Text → ℕ → Operation
  replaces : ℕ → (ℕ → ℕ) → Text → List QueuedJob → Operation
  observes : ℕ → Operation

-- Queue refuses a job without a group or an id, Replace one without a group, and nothing changes.
unfoldable pub apply : ℕ → Groups → Operation → Groups
apply ttl groups (queues now stamped g job) =
    if (g == []) || (job.id == 0) then groups else queue_groups now stamped ttl g job groups
apply ttl groups (clears now g id) = clear_groups now ttl g id groups
apply ttl groups (replaces now clock g jobs) =
    if g == [] then groups else replace_groups now clock ttl g jobs groups
apply ttl groups (observes now) = prune now ttl groups

unfoldable pub run : ℕ → Groups → List Operation → Groups
run ttl groups [] = groups
run ttl groups (o ∷ os) = run ttl (apply ttl groups o) os

pub apply-IsValid :
    (ttl : ℕ) (groups : Groups) (o : Operation) → IsValid groups → IsValid (apply ttl groups o)
unfolding apply
apply-IsValid ttl groups (queues now stamped g job) v =
    elim (Bool-cases ((g == []) || (job.id == 0))) [
      | inl refused ↦ rw refused v
      | inr accepted ↦ rw accepted (queue_groups-IsValid now stamped ttl g job groups v)
    ]
apply-IsValid ttl groups (clears now g id) v = clear_groups-IsValid now ttl g id groups v
apply-IsValid ttl groups (replaces now clock g jobs) v = elim (Bool-cases (g == [])) [
  | inl refused ↦ rw refused v
  | inr accepted ↦ rw accepted (replace_groups-IsValid now clock ttl g jobs groups v)
]
apply-IsValid ttl groups (observes now) v = pruned_again now ttl groups v

-- From a valid state every sequence of operations leads to a valid one: group names and job ids are
-- unique, no group is empty, and every job stands under its own id.
pub run-IsValid :
    (ttl : ℕ) (groups : Groups) (os : List Operation) → IsValid groups → IsValid (run ttl groups os)
unfolding run
run-IsValid ttl groups [] v = v
run-IsValid ttl groups (o ∷ os) v =
    run-IsValid ttl (apply ttl groups o) os (apply-IsValid ttl groups o v)
