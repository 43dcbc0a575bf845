-- ===== src/Daemon/Analytics/Samples.antt =====
-- internal/daemon/analytics.go: how many samples the log can yield.
use gh_runner_scaler.Prelude.{
  ℕ, suc, ◌+◌, ◌≤◌, ◌≡◌, refl, ap, ◌∙◌, inl, inr, Bool, true, false, not, ◌&&◌, Option, none, some,
  List, [], ◌∷◌, arith, ltb, leb, if◌then◌else◌, Bool-cases, length, count, ◌==◌, nat_eq, text_eq,
}
use gh_runner_scaler.Prelude.Strings.{text}
use gh_runner_scaler.Prelude.Dict.{get}
use gh_runner_scaler.Daemon.Logs.{LogEntry}
use gh_runner_scaler.Daemon.Analytics.{
  Lifecycles, no_lifecycles, is, analytics_job_key, job_started, job_in_progress, runner_down,
  observe_entry, observe_entries, insert_entry, sort_entries, build_lifecycle_metrics,
}
use gh_runner_scaler.Daemon.Analytics.Steps.{
  IsCounted, one_if, job_queued-IsCounted, job_started-IsCounted, runner_took-IsCounted,
  runner_up-IsCounted, scale_up_requested-IsCounted, lifecycle_over-IsCounted,
}

abbrev pub is_queued : LogEntry → Bool
is_queued e = is e (text "workflow_job") (text "queued")

abbrev pub is_started : LogEntry → Bool
is_started e = is e (text "workflow_job") (text "in_progress")

abbrev pub is_up : LogEntry → Bool
is_up e = is e (text "scale_up") (text "completed") && not (e.runner == [])

abbrev pub is_requested : LogEntry → Bool
is_requested e = is e (text "scale_up") (text "requested")

abbrev pub is_down : LogEntry → Bool
is_down e = is e (text "scale_down") (text "started") && not (e.runner == [])

-- More entries may be counted than were.
more-IsCounted :
    {q p u r d q' p' u' r' d' : ℕ} {s : Lifecycles}
    → IsCounted q p u r d s
    → (q ≤ q') × (p ≤ p') × (u ≤ u') × (r ≤ r') × (d ≤ d')
    → IsCounted q' p' u' r' d' s
more-IsCounted v more = record {
  waits_queued = omega (arith, v.waits_queued, more.0);
  waits_started = omega (arith, v.waits_started, more.1);
  cycles_up = omega (arith, v.cycles_up, more.2);
  cycles_down = omega (arith, v.cycles_down, more.4);
  gaps_down = omega (arith, v.gaps_down, more.4);
  gaps_requested = omega (arith, v.gaps_requested, more.3);
}

active_kept :
    (entry : LogEntry) (found : Option ℕ) (s : Lifecycles)
    → (job_started entry found s).active_lifecycles ≡ s.active_lifecycles
active_kept entry none s = refl
active_kept entry (some queued_at) s = elim (Bool-cases (ltb entry.time queued_at)) [
  | inl early ↦ rw early refl
  | inr late ↦ rw late refl
]

module _ (entry : LogEntry) (s : Lifecycles) (q p u r d : ℕ) (v : IsCounted q p u r d s) where
  job_in_progress-IsCounted : IsCounted q (p + 1) u r d (job_in_progress entry s)
  unfolding job_in_progress
  job_in_progress-IsCounted =
      let started =
        job_started-IsCounted entry s q p u r d v (get (analytics_job_key entry) s.queue_starts)
          refl in
      elim (Bool-cases (entry.runner == [])) [
        | inl unnamed ↦ rw unnamed started
        | inr named ↦ rw named (
            runner_took-IsCounted entry
              (job_started entry (get (analytics_job_key entry) s.queue_starts) s) q (p + 1) u r d
              started (get entry.runner s.active_lifecycles)
              (ap (get entry.runner)
                (active_kept entry (get (analytics_job_key entry) s.queue_starts) s)))
      ]

  runner_down-IsCounted : IsCounted q p u r (d + 1) (runner_down entry s)
  unfolding runner_down
  runner_down-IsCounted =
      lifecycle_over-IsCounted entry s q p u r d v (get entry.runner s.active_lifecycles) refl

  observe_entry-IsCounted :
      IsCounted
        (q + one_if (is_queued entry))
        (p + one_if (is_started entry))
        (u + one_if (is_up entry))
        (r + one_if (is_requested entry))
        (d + one_if (is_down entry))
        (observe_entry entry s)
  unfolding observe_entry
  observe_entry-IsCounted = elim (Bool-cases (is_queued entry)) [
    | inl a ↦ rw a (more-IsCounted (job_queued-IsCounted entry s q p u r d v) (ground arith))
    | inr a ↦ elim (Bool-cases (is_started entry)) [
      | inl b ↦ rw (a, b) (more-IsCounted job_in_progress-IsCounted (ground arith))
      | inr b ↦ elim (Bool-cases (is_up entry)) [
        | inl c ↦
            rw (a, b, c) (more-IsCounted (runner_up-IsCounted entry s q p u r d v) (ground arith))
        | inr c ↦ elim (Bool-cases (is_requested entry)) [
          | inl e ↦
              rw (a, b, c, e)
                (more-IsCounted (scale_up_requested-IsCounted entry s q p u r d v) (ground arith))
          | inr e ↦ elim (Bool-cases (is_down entry)) [
            | inl f ↦ rw (a, b, c, e, f) (more-IsCounted runner_down-IsCounted (ground arith))
            | inr f ↦ rw (a, b, c, e, f) (more-IsCounted v (ground arith))
          ]
        ]
      ]
    ]
  ]

-- `count` at one entry more.
counted : (b : Bool) (n k : ℕ) → k + one_if b + n ≤ k + (if b then suc n else n)
counted true n k = omega arith
counted false n k = omega arith

no_lifecycles-IsCounted : IsCounted 0 0 0 0 0 no_lifecycles
no_lifecycles-IsCounted = record {
  waits_queued = omega arith;
  waits_started = omega arith;
  cycles_up = omega arith;
  cycles_down = omega arith;
  gaps_down = omega arith;
  gaps_requested = omega arith;
}

observe_entries-IsCounted :
    (entries : List LogEntry) (s : Lifecycles) (q p u r d : ℕ)
    → IsCounted q p u r d s
    → IsCounted
        (q + count is_queued entries)
        (p + count is_started entries)
        (u + count is_up entries)
        (r + count is_requested entries)
        (d + count is_down entries)
        (observe_entries entries s)
unfolding observe_entries
observe_entries-IsCounted [] s q p u r d v = more-IsCounted v (ground arith)
observe_entries-IsCounted (entry ∷ entries) s q p u r d v =
    more-IsCounted
      (observe_entries-IsCounted entries (observe_entry entry s) _ _ _ _ _
        (observe_entry-IsCounted entry s q p u r d v))
      (
        counted (is_queued entry) (count is_queued entries) q,
        counted (is_started entry) (count is_started entries) p,
        counted (is_up entry) (count is_up entries) u,
        counted (is_requested entry) (count is_requested entries) r,
        counted (is_down entry) (count is_down entries) d,
      )

module _ (chosen : LogEntry → Bool) where
  count-insert_entry :
      (entry : LogEntry) (entries : List LogEntry)
      → count chosen (insert_entry entry entries) ≡ count chosen (entry ∷ entries)
  count-insert_entry entry [] = refl
  count-insert_entry entry (e ∷ es) = elim (Bool-cases (leb entry.time e.time)) [
    | inl before ↦ rw before refl
    | inr after ↦ rw after (ground (arith, count-insert_entry entry es))
  ]

  count-sort_entries :
      (entries : List LogEntry) → count chosen (sort_entries entries) ≡ count chosen entries
  unfolding sort_entries
  count-sort_entries [] = refl
  count-sort_entries (entry ∷ entries) =
      count-insert_entry entry (sort_entries entries) ∙ ground (arith, count-sort_entries entries)

-- However the log is ordered, it yields no more queue waits than jobs were queued and than jobs
-- were started, no more lifecycles than runners came up and than runners were scaled down, and no
-- more gaps between a scale-down and a scale-up than scale-downs and than requests to scale up.
pub build_lifecycle_metrics_lem :
    (entries : List LogEntry)
    → let m = build_lifecycle_metrics entries in
      (length m.queue_waits ≤ count is_queued entries)
      × (length m.queue_waits ≤ count is_started entries)
      × (length m.lifecycle_job_counts ≤ count is_up entries)
      × (length m.lifecycle_job_counts ≤ count is_down entries)
      × (length m.scale_gaps ≤ count is_down entries)
      × (length m.scale_gaps ≤ count is_requested entries)
unfolding build_lifecycle_metrics
build_lifecycle_metrics_lem entries =
    let v =
      observe_entries-IsCounted (sort_entries entries) no_lifecycles 0 0 0 0 0
        no_lifecycles-IsCounted in
    (
      omega (arith, v.waits_queued, count-sort_entries is_queued entries),
      omega (arith, v.waits_started, count-sort_entries is_started entries),
      omega (arith, v.cycles_up, count-sort_entries is_up entries),
      omega (arith, v.cycles_down, count-sort_entries is_down entries),
      omega (arith, v.gaps_down, count-sort_entries is_down entries),
      omega (arith, v.gaps_requested, count-sort_entries is_requested entries),
    )
