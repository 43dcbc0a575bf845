-- ===== src/Demand/Restart.antt =====
-- internal/demand/tracker.go: the demand on disk, across failed writes and restarts.
use gh_runner_scaler.Prelude.{
  ℕ, ◌<◌, ◌≡◌, sym, ap, ◌∙◌, ◌≢◌, ◌⊎◌, inl, inr, none, some, [], arith, Bool-cases, Option-cases,
  ◌==◌, beq_refl, nat_eq, Text, text_eq,
}
use gh_runner_scaler.Domain.{QueuedJob}
use gh_runner_scaler.Demand.{
  Groups, Codec, Tracker, DemandError, prune, stamp, queue_groups, commit, queue, new_tracker,
  content,
}
use gh_runner_scaler.Demand.Persist.{Faults, persist_locked, persist_locked_atomic}
use gh_runner_scaler.Demand.Invariant.{IsValid, queue_groups-IsValid}
use gh_runner_scaler.Demand.Lookup.{job_of, fresh, job_of-queue_groups, job_of-prune}

module _ (codec : Codec) (path : Text) (faults : Faults) (t : Tracker codec) where
  open codec use {Bytes, empty, encode, decode, decode-encode}

  -- What a start of the daemon at time `now` reads from the files of `s`.
  abbrev pub restarted : ℕ → Tracker codec → Bytes → (Tracker codec ⊎ DemandError)
  restarted now s b = new_tracker codec path s.ttl now s.files (content b)

  commit-new_tracker :
      (groups : Groups) (now : ℕ)
      → path ≢ []
      → 0 < t.ttl
      → (commit codec faults t groups).1 ≡ none
      → (b : Bytes) × ((commit codec faults t groups).0.files.target ≡ some b)
        × (restarted now (commit codec faults t groups).0 b
            ≡ inl (record (commit codec faults t groups).0 { groups = prune now t.ttl groups }))
  unfolding new_tracker
  commit-new_tracker groups now p ttl e = elim (Option-cases (encode groups)) [
    | inl q ↦ absurd (ground (arith, q, atomic))
    | inr (b, q) ↦ (
      b,
      ground (arith, q, atomic),
      ground (arith, q, text_eq.beq_iff path [], decode-encode groups b q),
    )
  ]
    where
      atomic :
          (persist_locked faults empty (encode groups) t.files).1 ≡ none
          → ((persist_locked faults empty (encode groups) t.files).0.target ≡ encode groups)
            × (encode groups ≢ none)
      atomic none_failed =
          ground (arith, persist_locked_atomic faults empty (encode groups) t.files)

  queue-commit :
      (now stamped : ℕ) (g : Text) (job : QueuedJob)
      → (queue codec faults now stamped t g job).1 ≡ none
      → queue codec faults now stamped t g job
        ≡ commit codec faults t (queue_groups now stamped t.ttl g job t.groups)
  unfolding queue
  queue-commit now stamped g job e = elim (Bool-cases (g == [])) [
    | inl q ↦ absurd (ground (arith, q))
    | inr q ↦ elim (Bool-cases (job.id == 0)) [
      | inl r ↦ absurd (ground (arith, q, r))
      | inr r ↦ ground (arith, q, r)
    ]
  ]

  -- In a valid state, a queue call that reports no error survives a restart: the state file holds
  -- bytes from which the daemon starts again, and the job is then on record with its time unless it
  -- has expired by then.
  pub queue-restart :
      (now stamped later : ℕ) (g : Text) (job : QueuedJob)
      → IsValid t.groups
      → path ≢ []
      → 0 < t.ttl
      → (queue codec faults now stamped t g job).1 ≡ none
      → (b : Bytes) × (s : Tracker codec) × ((queue codec faults now stamped t g job).0.files.target
          ≡ some b)
        × (restarted later (queue codec faults now stamped t g job).0 b ≡ inl s)
        × (job_of g job.id s.groups ≡ fresh later t.ttl (some (stamp stamped job)))
  queue-restart now stamped later g job v p ttl e =
      let same = queue-commit now stamped g job e in
      let groups : Groups = queue_groups now stamped t.ttl g job t.groups in
      let (b, target, start) =
        commit-new_tracker groups later p ttl (ap (λ r. r.1) (sym same) ∙ e) in
      (
        b,
        record (commit codec faults t groups).0 { groups = prune later t.ttl groups },
        rw same target,
        rw same start,
        job_of-prune later t.ttl g job.id groups
              (queue_groups-IsValid now stamped t.ttl g job t.groups v)
            ∙ ap (fresh later t.ttl) {y = some (stamp stamped job)} (
                job_of-queue_groups now stamped t.ttl g g job job.id t.groups v
                ∙ ground (arith, beq_refl g, beq_refl job.id)),
      )

  -- In a valid state, a valid queue call that reports an error keeps the job in memory and leaves
  -- the state file as it was.
  pub queue_unwritten :
      (now stamped : ℕ) (g : Text) (job : QueuedJob)
      → IsValid t.groups
      → g ≢ []
      → job.id ≢ 0
      → (queue codec faults now stamped t g job).1 ≢ none
      → ((queue codec faults now stamped t g job).0.files.target ≡ t.files.target)
        × (job_of g job.id (queue codec faults now stamped t g job).0.groups
            ≡ some (stamp stamped job))
  unfolding queue
  queue_unwritten now stamped g job v gne idne e = (
    ground (
      arith,
      text_eq.beq_iff g [],
      persist_locked_atomic faults empty (encode (queue_groups now stamped t.ttl g job t.groups))
          t.files,
    ),
    ground (
      arith,
      text_eq.beq_iff g [],
      job_of-queue_groups now stamped t.ttl g g job job.id t.groups v,
      beq_refl g,
    ),
  )
