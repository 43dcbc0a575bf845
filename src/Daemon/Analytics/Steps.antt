-- ===== src/Daemon/Analytics/Steps.antt =====
-- internal/daemon/analytics.go: what each entry of the log does to the number of samples.
use gh_runner_scaler.Prelude.{
  ℕ, ◌+◌, ◌-◌, ◌≤◌, ◌≡◌, inl, inr, Bool, true, false, not, ◌&&◌, Option, none, some, List, [], ◌∷◌,
  arith, ltb, nat_beq, Bool-cases, length, length-append, ◌==◌, nat_eq, Text, text_eq,
}
use gh_runner_scaler.Prelude.Dict.{Dict, get, put, delete}
use gh_runner_scaler.Daemon.Logs.{LogEntry}
use gh_runner_scaler.Daemon.Analytics.{
  Lifecycles, analytics_job_key, add_job, jobs_of, job_queued, job_started, runner_took, runner_up,
  scale_up_requested, lifecycle_over, runner_downed,
}

module _ {V : Type 0} where
  length-put : (k : Text) (v : V) (d : Dict Text V) → length (put k v d) ≤ length d + 1
  length-put k v [] = omega arith
  length-put k v ((j, w) ∷ d) = ground (arith, length-put k v d)

  -- What is there is replaced.
  length-put_known :
      (k : Text) (v w : V) (d : Dict Text V) → get k d ≡ some w → length (put k v d) ≤ length d
  length-put_known k v w [] h = cc
  length-put_known k v w ((j, u) ∷ d) h = elim (Bool-cases (j == k)) [
    | inl hit ↦ rw hit (omega arith)
    | inr miss ↦ ground (arith, miss, length-put_known k v w d (ground (arith, h, miss)))
  ]

  length-delete : (k : Text) (d : Dict Text V) → length (delete k d) ≤ length d
  length-delete k [] = omega arith
  length-delete k ((j, w) ∷ d) = ground (arith, length-delete k d)

  length-delete_known :
      (k : Text) (w : V) (d : Dict Text V) → get k d ≡ some w → length (delete k d) + 1 ≤ length d
  length-delete_known k w [] h = cc
  length-delete_known k w ((j, u) ∷ d) h = elim (Bool-cases (j == k)) [
    | inl hit ↦ rw hit (ground (arith, length-delete k d))
    | inr miss ↦ ground (arith, miss, length-delete_known k w d (ground (arith, h, miss)))
  ]

abbrev pub one_if : Bool → ℕ
one_if true = 1
one_if false = 0

-- The samples and what they may still come from, against the entries counted so far.
pub record IsCounted (queued started up requested down : ℕ) (s : Lifecycles) : Type 0 where
  pub waits_queued : length s.queue_waits + length s.queue_starts ≤ queued
  pub waits_started : length s.queue_waits ≤ started
  pub cycles_up : length s.lifecycle_job_counts + length s.active_lifecycles ≤ up
  pub cycles_down : length s.lifecycle_job_counts ≤ down
  pub gaps_down : length s.scale_gaps + one_if (not (nat_beq s.last_scale_down_at 0)) ≤ down
  pub gaps_requested : length s.scale_gaps ≤ requested

module _ (entry : LogEntry) (s : Lifecycles) (q p u r d : ℕ) (v : IsCounted q p u r d s) where
  pub job_queued-IsCounted : IsCounted (q + 1) p u r d (job_queued entry s)
  unfolding job_queued
  job_queued-IsCounted = record {
    waits_queued =
        omega
          (arith, v.waits_queued, length-put (analytics_job_key entry) entry.time s.queue_starts);
    waits_started = v.waits_started;
    cycles_up = v.cycles_up;
    cycles_down = v.cycles_down;
    gaps_down = v.gaps_down;
    gaps_requested = v.gaps_requested;
  }

  one_start-IsCounted : IsCounted q (p + 1) u r d s
  one_start-IsCounted = record {
    waits_queued = v.waits_queued;
    waits_started = omega (arith, v.waits_started);
    cycles_up = v.cycles_up;
    cycles_down = v.cycles_down;
    gaps_down = v.gaps_down;
    gaps_requested = v.gaps_requested;
  }

  pub job_started-IsCounted :
      (found : Option ℕ)
      → get (analytics_job_key entry) s.queue_starts ≡ found
      → IsCounted q (p + 1) u r d (job_started entry found s)
  job_started-IsCounted none e = one_start-IsCounted
  job_started-IsCounted (some queued_at) e = elim (Bool-cases (ltb entry.time queued_at)) [
    | inl early ↦ rw early one_start-IsCounted
    | inr late ↦
        let longer = length-append s.queue_waits ((entry.time - queued_at) ∷ []) in
        rw late (record {
          waits_queued = omega (
            arith,
            v.waits_queued,
            longer,
            length-delete_known (analytics_job_key entry) queued_at s.queue_starts e,
          );
          waits_started = omega (arith, v.waits_started, longer);
          cycles_up = v.cycles_up;
          cycles_down = v.cycles_down;
          gaps_down = v.gaps_down;
          gaps_requested = v.gaps_requested;
        })
  ]

  pub runner_took-IsCounted :
      (found : Option (List Text))
      → get entry.runner s.active_lifecycles ≡ found
      → IsCounted q p u r d (runner_took entry found s)
  runner_took-IsCounted none e = record {
    waits_queued = v.waits_queued;
    waits_started = v.waits_started;
    cycles_up = v.cycles_up;
    cycles_down = v.cycles_down;
    gaps_down = v.gaps_down;
    gaps_requested = v.gaps_requested;
  }
  runner_took-IsCounted (some jobs) e = record {
    waits_queued = v.waits_queued;
    waits_started = v.waits_started;
    cycles_up = omega (
      arith,
      v.cycles_up,
      length-put_known entry.runner (add_job (analytics_job_key entry) jobs) jobs
          s.active_lifecycles e,
    );
    cycles_down = v.cycles_down;
    gaps_down = v.gaps_down;
    gaps_requested = v.gaps_requested;
  }

  pub runner_up-IsCounted : IsCounted q p (u + 1) r d (runner_up entry s)
  unfolding runner_up
  runner_up-IsCounted = record {
    waits_queued = v.waits_queued;
    waits_started = v.waits_started;
    cycles_up = omega (
      arith,
      v.cycles_up,
      length-put entry.runner (jobs_of (get entry.runner s.pending_runner_jobs))
          s.active_lifecycles,
    );
    cycles_down = v.cycles_down;
    gaps_down = v.gaps_down;
    gaps_requested = v.gaps_requested;
  }

  pub scale_up_requested-IsCounted : IsCounted q p u (r + 1) d (scale_up_requested entry s)
  unfolding scale_up_requested
  scale_up_requested-IsCounted =
      elim (Bool-cases
        (not (nat_beq s.last_scale_down_at 0) && not (ltb entry.time s.last_scale_down_at))) [
          | inr none_due ↦ rw none_due (record {
            waits_queued = v.waits_queued;
            waits_started = v.waits_started;
            cycles_up = v.cycles_up;
            cycles_down = v.cycles_down;
            gaps_down = v.gaps_down;
            gaps_requested = omega (arith, v.gaps_requested);
          })
          | inl due ↦
              let longer = length-append s.scale_gaps ((entry.time - s.last_scale_down_at) ∷ []) in
              rw due (record {
                waits_queued = v.waits_queued;
                waits_started = v.waits_started;
                cycles_up = v.cycles_up;
                cycles_down = v.cycles_down;
                gaps_down = ground (arith, v.gaps_down, longer, due);
                gaps_requested = omega (arith, v.gaps_requested, longer);
              })
        ]

  pub lifecycle_over-IsCounted :
      (found : Option (List Text))
      → get entry.runner s.active_lifecycles ≡ found
      → IsCounted q p u r (d + 1) (runner_downed entry (lifecycle_over entry found s))
  lifecycle_over-IsCounted none e = record {
    waits_queued = v.waits_queued;
    waits_started = v.waits_started;
    cycles_up = v.cycles_up;
    cycles_down = omega (arith, v.cycles_down);
    gaps_down = ground (arith, v.gaps_down);
    gaps_requested = v.gaps_requested;
  }
  lifecycle_over-IsCounted (some jobs) e =
      let longer = length-append s.lifecycle_job_counts (length jobs ∷ []) in
      record {
        waits_queued = v.waits_queued;
        waits_started = v.waits_started;
        cycles_up = omega (
          arith,
          v.cycles_up,
          longer,
          length-delete_known entry.runner jobs s.active_lifecycles e,
        );
        cycles_down = omega (arith, v.cycles_down, longer);
        gaps_down = ground (arith, v.gaps_down);
        gaps_requested = v.gaps_requested;
      }
