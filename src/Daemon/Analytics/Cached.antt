-- ===== src/Daemon/Analytics/Cached.antt =====
-- internal/daemon/analytics.go: what is derived from the log is kept until the log changes.
use gh_runner_scaler.Prelude.{
  ℕ, ◌+◌, ◌≤◌, ◌≡◌, refl, sym, ap, subst, ◌∙◌, ◌⊎◌, inl, inr, Bool, true, false, ◌&&◌, ◌||◌, Option,
  none, some, List, [], arith, ltb, nat_beq, if◌then◌else◌, Bool-cases, Option-cases, length,
  nat_eq, text_eq,
}
use gh_runner_scaler.Daemon.Logs.{
  LogEntry, LogStore, Disk, append_locked, is_written, compact_locked, trimmed, appended, stamped,
  record_entry,
}
use gh_runner_scaler.Daemon.Analytics.{
  Lifecycles, no_lifecycles, select_issue_log_entries, build_lifecycle_metrics,
}

-- The fields of the daemon under analyticsMu.
pub record LogAnalytics : Type 0 where
  pub cached : Bool
  pub version : ℕ
  pub lifecycle : Lifecycles
  pub issue_entries : List LogEntry

abbrev pub no_analytics : LogAnalytics
no_analytics = record { cached = false; version = 0; lifecycle = no_lifecycles; issue_entries = [] }

unfoldable pub cached_log_derived_metrics : ℕ → LogAnalytics → Option (Lifecycles × List LogEntry)
cached_log_derived_metrics version a =
    if a.cached && nat_beq a.version version then some (a.lifecycle, a.issue_entries) else none

unfoldable pub store_log_derived_metrics : ℕ → Lifecycles → List LogEntry → LogAnalytics
store_log_derived_metrics version lifecycle issue_entries = record {
  cached = true;
  version = version;
  lifecycle = lifecycle;
  issue_entries = issue_entries;
}

abbrev pub kept_or_derived :
    LogStore
    → LogAnalytics
    → Option (Lifecycles × List LogEntry)
    → (Lifecycles × List LogEntry) × LogAnalytics
kept_or_derived log a (some kept) = (kept, a)
kept_or_derived log a none =
    let lifecycle = build_lifecycle_metrics log.entries in
    let issues = select_issue_log_entries log.entries in
    ((lifecycle, issues), store_log_derived_metrics log.version lifecycle issues)

-- What collectLogDerivedMetrics works with, and the cache afterwards. The version was read before;
-- the log is as it is when a snapshot is taken.
unfoldable pub log_derived_metrics :
    ℕ → LogStore → LogAnalytics → (Lifecycles × List LogEntry) × LogAnalytics
log_derived_metrics version log a = kept_or_derived log a (cached_log_derived_metrics version a)

-- The log and the cache after any number of entries and collections; between the reading of the
-- version and the snapshot there may be entries.
pub data Reachable : LogStore → LogAnalytics → Type 0 where
  started : (log : LogStore) → Reachable log no_analytics
  recorded :
      {log : LogStore} {a : LogAnalytics} (disk : Disk) (now : ℕ) (entry : LogEntry)
      → Reachable log a
      → Reachable (record_entry disk now entry log).0 a
  collected :
      {log : LogStore} {a : LogAnalytics} (version : ℕ)
      → Reachable log a
      → Reachable log (log_derived_metrics version log a).1

record IsCoherent (log : LogStore) (a : LogAnalytics) : Type 0 where
  past : a.cached ≡ true → a.version ≤ log.version
  same :
      a.cached ≡ true
      → a.version ≡ log.version
      → (a.lifecycle ≡ build_lifecycle_metrics log.entries)
        × (a.issue_entries ≡ select_issue_log_entries log.entries)

trimmed-version : (log : LogStore) → (trimmed log).version ≡ log.version
trimmed-version log = elim (Bool-cases (ltb log.max_entries (length log.entries))) [
  | inl long ↦ rw long refl
  | inr short ↦ rw short refl
]

compact_locked-version :
    (disk : Disk) (log : LogStore) → (compact_locked disk log).0.version ≡ log.version
unfolding compact_locked
compact_locked-version disk log = elim (Bool-cases disk.rewrites) [
  | inl ok ↦ rw ok refl
  | inr fails ↦ rw fails refl
]

-- A log whose entries an entry does not leave as they were has a later version.
record_entry-version :
    (disk : Disk) (now : ℕ) (entry : LogEntry) (log : LogStore)
    → (((record_entry disk now entry log).0.version ≡ log.version)
        × ((record_entry disk now entry log).0.entries ≡ log.entries))
      ⊎ ((record_entry disk now entry log).0.version ≡ log.version + 1)
unfolding record_entry
record_entry-version disk now entry log =
    let tried : LogStore = record log { file = append_locked disk (stamped now entry) log.file } in
    let added = appended (stamped now entry) tried in
    let later = trimmed-version added in
    elim (Bool-cases (is_written disk.append)) [
      | inr fails ↦ inl (rw fails (refl, refl))
      | inl ok ↦
          elim (Bool-cases (
            ltb log.max_entries (length added.entries)
            || (ltb 0 log.compact_at && ltb log.compact_at added.file_entries))) [
              | inl compacts ↦
                  inr (rw (ok, compacts) (compact_locked-version disk (trimmed added) ∙ later))
              | inr fits ↦ inr (rw (ok, fits) later)
            ]
    ]

recorded-IsCoherent :
    (log after : LogStore) (a : LogAnalytics)
    → ((after.version ≡ log.version) × (after.entries ≡ log.entries))
      ⊎ (after.version ≡ log.version + 1)
    → IsCoherent log a
    → IsCoherent after a
recorded-IsCoherent log after a (inl (e, same)) v = record {
  past = λ c. omega (arith, v.past c, e);
  same = λ c s. rw same (v.same c (s ∙ e));
}
recorded-IsCoherent log after a (inr e) v = record {
  past = λ c. omega (arith, v.past c, e);
  same = λ c s. absurd (omega (arith, v.past c, s, e));
}

collected-IsCoherent :
    (version : ℕ) (log : LogStore) (a : LogAnalytics)
    → IsCoherent log a
    → IsCoherent log (log_derived_metrics version log a).1
unfolding log_derived_metrics store_log_derived_metrics
collected-IsCoherent version log a v = elim (Option-cases (cached_log_derived_metrics version a)) [
  | inr (kept, e) ↦ subst (λ o. IsCoherent log (kept_or_derived log a o).1) (sym e) v
  | inl e ↦
      subst (λ o. IsCoherent log (kept_or_derived log a o).1) (sym e)
        (record { past = λ c. omega arith; same = λ c s. (refl, refl) })
]

Reachable-IsCoherent : (log : LogStore) (a : LogAnalytics) → Reachable log a → IsCoherent log a
Reachable-IsCoherent log a (started l) = record { past = λ c. cc; same = λ c s. cc }
Reachable-IsCoherent log a (recorded {log = before} {a = b} disk now entry r) =
    recorded-IsCoherent before (record_entry disk now entry before).0 b
      (record_entry-version disk now entry before) (Reachable-IsCoherent before b r)
Reachable-IsCoherent log a (collected {log = l} {a = b} version r) =
    collected-IsCoherent version l b (Reachable-IsCoherent l b r)

-- Whatever entries and collections came before, a collection that reads the version and finds the
-- log unchanged works with what the entries of the log yield, whether from the cache or anew.
pub log_derived_metrics_lem :
    (log : LogStore) (a : LogAnalytics)
    → Reachable log a
    → (log_derived_metrics log.version log a).0
      ≡ (build_lifecycle_metrics log.entries, select_issue_log_entries log.entries)
unfolding log_derived_metrics cached_log_derived_metrics
log_derived_metrics_lem log a r =
    let v = Reachable-IsCoherent log a r in
    elim (Bool-cases (a.cached && nat_beq a.version log.version)) [
      | inr miss ↦
          ap
            (λ b.
              (kept_or_derived log a (if b then some (a.lifecycle, a.issue_entries) else none)).0)
            miss
      | inl hit ↦
          let current = v.same (ground (arith, hit)) (ground (arith, hit)) in
          ap
            (λ b.
              (kept_or_derived log a (if b then some (a.lifecycle, a.issue_entries) else none)).0)
            hit
          ∙ (λ i. (current.0 i, current.1 i))
    ]
