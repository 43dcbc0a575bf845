-- ===== src/Daemon/Audit/Scanned.antt =====
-- internal/daemon/daemon.go with provider/github/ci.go: the audit of the queue looks at one batch of
-- repositories and replaces the demand of the group with what it finds there.
use gh_runner_scaler.Prelude.{
  ℕ, ◌≡◌, refl, ap, ◌∙◌, Bool, true, false, ◌&&◌, some, List, [], ◌∷◌, map, arith, filter, ◌==◌,
  nat_eq, Text, text_eq, contains,
}
use gh_runner_scaler.Domain.{QueuedJob}
use gh_runner_scaler.Demand.{Codec, Tracker}
use gh_runner_scaler.Demand.Invariant.{IsValid}
use gh_runner_scaler.Demand.Lookup.{job_of, is_some}
use gh_runner_scaler.Daemon.Routing.{RunnerGroup, group_matches_repo, labels_match}
use gh_runner_scaler.Daemon.Audit.{Round, matched_jobs, audit_group, audit_group-matched_jobs}
use gh_runner_scaler.Github.Repos.{workflow_repo_batch}
use gh_runner_scaler.Github.Queue.{Api, list_queued_jobs, is_queued_in, ids, list_queued_jobs_lem}

unlisted-filter :
    (p : QueuedJob → Bool) (id : ℕ) (jobs : List QueuedJob)
    → contains id (ids jobs) ≡ false
    → contains id (map (λ j. j.id) (filter p jobs)) ≡ false
unlisted-filter p id [] h = refl
unlisted-filter p id (job ∷ jobs) h = ground (arith, unlisted-filter p id jobs, h)

unlisted-matched_jobs :
    (group : RunnerGroup) (id : ℕ) (jobs : List QueuedJob)
    → contains id (ids jobs) ≡ false
    → contains id (map (λ j. j.id) (matched_jobs group jobs)) ≡ false
unfolding matched_jobs
unlisted-matched_jobs group id jobs h =
    unlisted-filter
      (λ job. group_matches_repo group job.repo && labels_match job.labels group.match_labels) id
      jobs h

-- In a valid state, and for a group with a name: a round that lists the jobs of one batch of
-- repositories forgets every job of the group that no repository of the batch has queued, also one
-- that has not expired and waits in a repository outside the batch.
pub audit_group_unscanned :
    (codec : Codec) (group : RunnerGroup) (round : Round) (t : Tracker codec) (api : Api)
    (size cursor id : ℕ) (repos batch : List Text) (listed : List QueuedJob)
    → IsValid t.groups
    → (group.id == []) ≡ false
    → round.is_auditor ≡ true
    → round.listed ≡ some listed
    → (list_queued_jobs api size cursor repos).0 ≡ some listed
    → (workflow_repo_batch size cursor repos).0 ≡ some batch
    → is_queued_in api id batch ≡ false
    → is_some (job_of group.id id (audit_group codec group round t).0.groups) ≡ false
audit_group_unscanned codec group round t api size cursor id repos batch listed v named auditor r l
      b q =
    let (found, same, listed_ids) = list_queued_jobs_lem api size cursor id repos listed l in
    let batches : found ≡ batch = ground (arith, same, b) in
    let unlisted : contains id (ids listed) ≡ false =
      listed_ids ∙ ap (is_queued_in api id) batches ∙ q in
    let audited = (audit_group-matched_jobs codec group round t listed v named auditor r).0 id in
    ground (arith, audited, unlisted-matched_jobs group id listed unlisted)
