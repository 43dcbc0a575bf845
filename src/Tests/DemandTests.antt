-- ===== src/Tests/DemandTests.antt =====
-- The demand tracker at concrete inputs.
use gh_runner_scaler.Prelude.{
  ℕ, ◌+◌, ◌≡◌, refl, sym, ◌≢◌, ◌↔◌, ◌⊎◌, inl, true, false, none, some, List, [], ◌∷◌, arith,
  if◌then◌else◌, Any, ◌==◌, nat_eq, text_eq,
}
use gh_runner_scaler.Prelude.Strings.{text}
use gh_runner_scaler.Domain.{QueuedJob}
use gh_runner_scaler.Demand.{Groups, Codec, Tracker, queue}
use gh_runner_scaler.Demand.Persist.{Faults, persist_locked, persist_locked_atomic}
use gh_runner_scaler.Demand.Invariant.{IsValid}
use gh_runner_scaler.Demand.Lookup.{job_of, is_some}
use gh_runner_scaler.Demand.Restart.{queue-restart, restarted}
use gh_runner_scaler.Demand.Reach.{Operation, queues, clears, observes, run, run-IsValid}
use gh_runner_scaler.Demand.Refinement.{Kept, view, run-Kept}
use gh_runner_scaler.Github.Repos.{workflow_repo_batch}
use gh_runner_scaler.Github.Queue.{
  Api, queued_of, queued_in_runs, queued_in_repos, list_queued_jobs,
}
use gh_runner_scaler.Daemon.Audit.Scanned.{audit_group_unscanned}
use gh_runner_scaler.Daemon.Routing.{RunnerGroup}
use gh_runner_scaler.Daemon.Audit.{Round, audit_group, IsWanted, audit_group_lem}

abbrev job : ℕ → ℕ → QueuedJob
job id at = record { id = id; repo = text "o/r"; labels = text "x64" ∷ []; queued_at = at }

abbrev one_group : Groups
one_group = (text "a", (7, job 7 100) ∷ (8, job 8 900) ∷ []) ∷ []

one_group-IsValid : IsValid one_group
one_group-IsValid = record {
  unique = (refl, tt);
  each = (((λ e. cc), ((refl, (refl, tt)), (refl, (refl, tt)))), tt);
}

abbrev audit : List QueuedJob
audit = job 0 5 ∷ job 9 0 ∷ []

run-IsValid_example :
    IsValid
      (run 500 one_group (queues 1000 1001 (text "b") (job 9 0) ∷ clears 1002 (text "a") 8 ∷ []))
run-IsValid_example =
    run-IsValid 500 one_group
      (queues 1000 1001 (text "b") (job 9 0) ∷ clears 1002 (text "a") 8 ∷ []) one_group-IsValid

-- A codec that keeps the state as it is.
abbrev plain : Codec
plain = record {
  Bytes = Groups;
  empty = [];
  encode = λ g. some g;
  decode = λ b. some b;
  decode-encode = λ g b e. sym e;
}

abbrev tracker : Tracker plain
tracker = record {
  ttl = 500;
  groups = one_group;
  files = record { target = some one_group; temp = none };
}

abbrev no_faults : Faults
no_faults = record {
  mkdir_all = false;
  create_temp = false;
  chmod = false;
  write = false;
  sync = false;
  close = false;
  rename = false;
  remove = false;
}

persist_locked_atomic_example :
    let (after, failure) =
      persist_locked
        (record no_faults { sync = true; remove = true })
        []
        (some one_group)
        (record { target = none; temp = none }) in
    (((failure ≡ none)
        × (some one_group ≢ none)
        × (after.target ≡ some one_group)
        × (after.temp ≡ none))
      ⊎ ((failure ≢ none)
          × (after.target ≡ none)
          × ((true ≡ true) ⊎ (after.temp ≡ none) ⊎ (after.temp ≡ none))))
persist_locked_atomic_example =
    persist_locked_atomic (record no_faults { sync = true; remove = true }) [] (some one_group)
      (record { target = none; temp = none })

queue-restart_example :
    (b : Groups) × (s : Tracker plain) × ((queue plain no_faults 1000 1001 tracker
        (text "a")
        (job 9 0)).0.files.target
      ≡ some b)
    × (restarted plain
          (text "/d")
          no_faults
          tracker
          1200
          (queue plain no_faults 1000 1001 tracker (text "a") (job 9 0)).0
          b
        ≡ inl s)
    × (job_of (text "a") 9 s.groups ≡ some (job 9 1001))
unfolding queue persist_locked
queue-restart_example =
    queue-restart plain (text "/d") no_faults tracker 1000 1001 1200 (text "a") (job 9 0)
      one_group-IsValid (λ e. cc) (omega arith) refl

abbrev group_a : RunnerGroup
group_a = record {
  id = text "a";
  target = text "o";
  repo_scoped = false;
  prefix = text "auto";
  match_labels = text "X64" ∷ [];
  baseline_name = [];
  cache_pool = [];
}

abbrev round : Round
round = record {
  is_auditor = true;
  listed = some audit;
  faults = no_faults;
  now = 1000;
  clock = λ n. 1001 + n;
}

audit_group_lem_example :
    ((jobs : List QueuedJob)
      → some audit ≡ some jobs
      → ((id : ℕ)
          → (is_some (job_of (text "a") id (audit_group plain group_a round tracker).0.groups)
              ≡ true)
            ↔ ((id ≢ 0) × Any (λ j. (j.id ≡ id) × IsWanted group_a j) jobs))
        × ((Any (IsWanted group_a) jobs
              × ((audit_group plain group_a round tracker).1 ≡ text "a" ∷ []))
            ⊎ (¬ Any (IsWanted group_a) jobs × ((audit_group plain group_a round tracker).1 ≡ []))))
    × (some audit ≡ none → audit_group plain group_a round tracker ≡ (tracker, []))
audit_group_lem_example = audit_group_lem plain group_a round tracker one_group-IsValid refl refl

abbrev operations : List Operation
operations = queues 1000 1001 (text "b") (job 9 0) ∷ clears 1002 (text "a") 8 ∷ observes 1003 ∷ []

run-Kept_example : Kept 500 operations (view one_group) (view (run 500 one_group operations))
run-Kept_example = run-Kept 500 operations one_group one_group-IsValid

-- Job 8 waits in repository y, which a batch of one repository from x on leaves out.
abbrev api : Api
api = record {
  org = text "o";
  runs = λ repo. some (record { id = 1; status = text "queued" } ∷ []);
  jobs = λ repo run. some (
      record {
        id = if repo == text "x" then 9 else 8;
        status = text "queued";
        labels = text "x64" ∷ [];
        created_at = 900;
      }
      ∷ []);
  clock = 1000;
}

abbrev scanned : QueuedJob
scanned = record { id = 9; repo = text "o/x"; labels = text "x64" ∷ []; queued_at = 900 }

audit_group_unscanned_example :
    is_some (
      job_of
        (text "a")
        8
        (audit_group plain group_a
          (record round { listed = some (scanned ∷ []) })
          tracker).0.groups)
    ≡ false
unfolding list_queued_jobs workflow_repo_batch queued_in_repos queued_in_runs queued_of
audit_group_unscanned_example =
    audit_group_unscanned plain group_a (record round { listed = some (scanned ∷ []) }) tracker api
      1 0 8 (text "x" ∷ text "y" ∷ []) (text "x" ∷ []) (scanned ∷ []) one_group-IsValid refl refl
      refl refl refl refl
