-- ===== src/Daemon/Audit.antt =====
-- internal/daemon/daemon.go: auditQueuedJobs.
pub mod Scanned
use gh_runner_scaler.Prelude.{
  ℕ, zero, suc, ◌+◌, ◌-◌, ◌*◌, ◌/◌, ◌%◌, ◌^◌, ◌≤◌, ◌<◌, ◌≡◌, refl, sym, ap, subst, ◌∙◌, ◌≢◌, ◌↔◌,
  ◌⊎◌, inl, inr, Bool, true, false, not, ◌&&◌, ◌||◌, false≢true, Option, none, some, List, [], ◌∷◌,
  ◌++◌, map, append_assoc, append-nil, arith, ltb, leb, nat_beq, if◌then◌else◌, ltb→lt, lt→ltb,
  leb→le, nat_beq_iff, Bool-cases, Option-cases, length, get_elem?, take, drop, filter, all, count,
  length-append, length-drop, length-take-le, length-filter-le, count-le, count-append, All, Any,
  All-append, All-get_elem, some_injective, Eq, ◌==◌, beq_refl, nat_eq, Text, text_eq, contains,
  IsNodup, remove, contains-append, contains-remove, length-remove-le, length-remove-lt,
  remove-IsNodup, append-IsNodup, length-le_of_subset,
}
use gh_runner_scaler.Daemon.Routing.Matching.{
  Serves, HasLabels, group_matches_repo_iff, labels_match_iff,
}
use gh_runner_scaler.Domain.{QueuedJob}
use gh_runner_scaler.Demand.{Codec, Tracker, replace}
use gh_runner_scaler.Demand.Persist.{Faults}
use gh_runner_scaler.Demand.Invariant.{IsValid}
use gh_runner_scaler.Demand.Lookup.{job_of, is_some, job_of-replace_groups}
use gh_runner_scaler.Daemon.Routing.{RunnerGroup, group_matches_repo, labels_match}

-- What the round of one group meets: whether its provider can list queued jobs, the list, `none`
-- where the listing fails, and then what the disk does and the readings of the clock.
pub record Round : Type 0 where
  pub is_auditor : Bool
  pub listed : Option (List QueuedJob)
  pub faults : Faults
  pub now : ℕ
  pub clock : ℕ → ℕ

unfoldable pub matched_jobs : RunnerGroup → List QueuedJob → List QueuedJob
matched_jobs group jobs =
    filter (λ job. group_matches_repo group job.repo && labels_match job.labels group.match_labels)
      jobs

abbrev pub trigger_unless_empty : Text → List QueuedJob → List Text
trigger_unless_empty group [] = []
trigger_unless_empty group (job ∷ jobs) = group ∷ []

module _ (codec : Codec) where
  -- The tracker afterwards and the groups that are triggered. An error of Replace is only logged.
  pub replace_matched :
      RunnerGroup → Round → List QueuedJob → Tracker codec → Tracker codec × List Text
  replace_matched group round matched t = (
    (replace codec round.faults round.now round.clock t group.id matched).0,
    trigger_unless_empty group.id matched,
  )

  unfoldable pub audit_group : RunnerGroup → Round → Tracker codec → Tracker codec × List Text
  unfolding replace_matched
  audit_group group round t = if not round.is_auditor then (t, []) else elim round.listed [
    | none ↦ (t, [])
    | some jobs ↦ replace_matched group round (matched_jobs group jobs) t
  ]

  -- The loop over the groups; round `n` is the next one.
  unfoldable pub audit_queued_jobs :
      (ℕ → Round) → ℕ → List RunnerGroup → Tracker codec → Tracker codec × List Text
  audit_queued_jobs rounds n [] t = (t, [])
  audit_queued_jobs rounds n (g ∷ gs) t =
      let (t', triggers) = audit_group g (rounds n) t in
      let (t'', later) = audit_queued_jobs rounds (n + 1) gs t' in (t'', triggers ++ later)

  pub audit_group-matched_jobs :
      (group : RunnerGroup) (round : Round) (t : Tracker codec) (jobs : List QueuedJob)
      → IsValid t.groups
      → (group.id == []) ≡ false
      → round.is_auditor ≡ true
      → round.listed ≡ some jobs
      → ((id : ℕ)
          → is_some (job_of group.id id (audit_group group round t).0.groups)
            ≡ (not (id == 0) && contains id (map (λ j. j.id) (matched_jobs group jobs))))
        × ((audit_group group round t).1 ≡ trigger_unless_empty group.id (matched_jobs group jobs))
  unfolding audit_group replace_matched replace
  audit_group-matched_jobs group round t jobs v named auditor e =
      rw (auditor, e, named)
        (
          (λ id.
              (job_of-replace_groups round.now round.clock t.ttl group.id group.id
                (matched_jobs group jobs) id t.groups v).0),
          refl,
        )

  audit_group-unlisted :
      (group : RunnerGroup) (round : Round) (t : Tracker codec)
      → round.listed ≡ none
      → audit_group group round t ≡ (t, [])
  unfolding audit_group
  audit_group-unlisted group round t e = ground (arith, e)

-- The group serves the repository of the job and asks for no label that the job lacks.
abbrev pub IsWanted : RunnerGroup → QueuedJob → Type 0
IsWanted group job = Serves group job.repo × HasLabels job.labels group.match_labels

contains-matched_jobs :
    (group : RunnerGroup) (id : ℕ) (jobs : List QueuedJob)
    → (contains id (map (λ j. j.id) (matched_jobs group jobs)) ≡ true)
      ↔ Any (λ job. (job.id ≡ id) × IsWanted group job) jobs
unfolding matched_jobs
contains-matched_jobs group id [] = ((λ e. absurd (ground (arith, e))), (λ e. absurd e))
contains-matched_jobs group id (job ∷ jobs) = ground (
  arith,
  contains-matched_jobs group id jobs,
  group_matches_repo_iff group job.repo,
  labels_match_iff job.labels group.match_labels,
  nat_eq.beq_iff job.id id,
)

trigger_unless_empty-matched_jobs :
    (group : RunnerGroup) (jobs : List QueuedJob)
    → (Any (IsWanted group) jobs
        × (trigger_unless_empty group.id (matched_jobs group jobs) ≡ group.id ∷ []))
      ⊎ (¬ Any (IsWanted group) jobs
          × (trigger_unless_empty group.id (matched_jobs group jobs) ≡ []))
unfolding matched_jobs
trigger_unless_empty-matched_jobs group [] = inr ((λ e. e), refl)
trigger_unless_empty-matched_jobs group (job ∷ jobs) = ground (
  arith,
  trigger_unless_empty-matched_jobs group jobs,
  group_matches_repo_iff group job.repo,
  labels_match_iff job.labels group.match_labels,
)

-- In a valid state, and for a group with a name whose provider can list jobs: a round that lists
-- them leaves on record under the group exactly the nonzero ids of the listed jobs whose repository
-- the group serves and whose labels include those that the group asks for, also where the state
-- cannot be written, and triggers the group once if there is such a job and not at all if there is
-- none; a round whose listing fails changes nothing and triggers nothing.
pub audit_group_lem :
    (codec : Codec) (group : RunnerGroup) (round : Round) (t : Tracker codec)
    → IsValid t.groups
    → (group.id == []) ≡ false
    → round.is_auditor ≡ true
    → ((jobs : List QueuedJob)
        → round.listed ≡ some jobs
        → ((id : ℕ)
            → (is_some (job_of group.id id (audit_group codec group round t).0.groups) ≡ true)
              ↔ ((id ≢ 0) × Any (λ job. (job.id ≡ id) × IsWanted group job) jobs))
          × ((Any (IsWanted group) jobs × ((audit_group codec group round t).1 ≡ group.id ∷ []))
              ⊎ (¬ Any (IsWanted group) jobs × ((audit_group codec group round t).1 ≡ []))))
      × (round.listed ≡ none → audit_group codec group round t ≡ (t, []))
audit_group_lem codec group round t v named auditor = (
  λ jobs e.
      let (kept, triggers) = audit_group-matched_jobs codec group round t jobs v named auditor e in
      (
        λ id. ground (arith, kept id, contains-matched_jobs group id jobs, nat_eq.beq_iff id 0),
        rw triggers (trigger_unless_empty-matched_jobs group jobs),
      ),
  λ e. audit_group-unlisted codec group round t e,
)
