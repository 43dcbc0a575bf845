-- ===== src/Demand/Snapshot.antt =====
-- internal/demand/tracker.go: what Snapshot and ActiveGroups report of the demand on record.
use gh_runner_scaler.Prelude.{
  ℕ, ◌+◌, ◌-◌, ◌≤◌, ◌≡◌, refl, ◌∙◌, inl, inr, true, false, not, ◌||◌, some, List, [], ◌∷◌, arith,
  ltb, if◌then◌else◌, Bool-cases, length, count, All, ◌==◌, nat_eq, Text, text_eq, contains,
}
use gh_runner_scaler.Prelude.Dict.{HasUniqueKeys, get-none, All-get}
use gh_runner_scaler.Domain.{QueuedJob}
use gh_runner_scaler.Demand.{
  Jobs, Groups, Codec, Tracker, expired, prune_jobs, prune, jobs_of, oldest_age, sort_strings,
  insert_text, text_le, nonempty_groups, snapshot, active_groups,
}
use gh_runner_scaler.Demand.Invariant.{IsValid, pruned_again}
use gh_runner_scaler.Demand.Lookup.{job_of, jobs_of-prune}

le-oldest_age : (now : ℕ) (jobs : Jobs) (oldest : ℕ) → oldest ≤ oldest_age now jobs oldest
unfolding oldest_age
le-oldest_age now [] oldest = omega arith
le-oldest_age now ((id, job) ∷ jobs) oldest = ground (
  arith,
  le-oldest_age now jobs (if ltb oldest (now - job.queued_at) then now - job.queued_at else oldest),
)

ages-le-oldest_age :
    (now : ℕ) (jobs : Jobs) (oldest : ℕ)
    → All (λ e. now - e.1.queued_at ≤ oldest_age now jobs oldest) jobs
unfolding oldest_age
ages-le-oldest_age now [] oldest = tt
ages-le-oldest_age now ((id, job) ∷ jobs) oldest = (
  ground (
    arith,
    le-oldest_age now jobs
        (if ltb oldest (now - job.queued_at) then now - job.queued_at else oldest),
  ),
  ages-le-oldest_age now jobs
      (if ltb oldest (now - job.queued_at) then now - job.queued_at else oldest),
)

oldest_age-le :
    (now bound : ℕ) (jobs : Jobs) (oldest : ℕ)
    → oldest ≤ bound
    → All (λ e. now - e.1.queued_at ≤ bound) jobs
    → oldest_age now jobs oldest ≤ bound
unfolding oldest_age
oldest_age-le now bound [] oldest h a = h
oldest_age-le now bound ((id, job) ∷ jobs) oldest h a =
    oldest_age-le now bound jobs
      (if ltb oldest (now - job.queued_at) then now - job.queued_at else oldest)
      (ground (arith, a.0)) a.1

fresh_ages :
    (now later ttl : ℕ) (jobs : Jobs)
    → now ≤ later
    → All (λ e. later - e.1.queued_at ≤ ttl + (later - now)) (prune_jobs now ttl jobs)
unfolding prune_jobs
fresh_ages now later ttl [] h = tt
fresh_ages now later ttl ((id, job) ∷ jobs) h = elim (Bool-cases (expired now ttl job)) [
  | inl e ↦ rw e (fresh_ages now later ttl jobs h)
  | inr e ↦ rw e (ground arith, fresh_ages now later ttl jobs h)
]

length-prune_jobs :
    (now ttl : ℕ) (jobs : Jobs)
    → length (prune_jobs now ttl jobs) ≡ count (λ e. not (expired now ttl e.1)) jobs
unfolding prune_jobs
length-prune_jobs now ttl [] = refl
length-prune_jobs now ttl ((id, job) ∷ jobs) = ground (arith, length-prune_jobs now ttl jobs)

module _ (codec : Codec) (t : Tracker codec) (g : Text) (now later : ℕ) (v : IsValid t.groups) where
  -- A snapshot of a valid state at a later reading of the clock counts the unexpired jobs of the
  -- group; its oldest age is at least the age of each job that stays on record, and at most the
  -- time to live and the time between the two readings.
  pub snapshot_lem :
      now ≤ later
      → let (t', demand) = snapshot codec now later t g in
        (demand.queued_jobs ≡ count (λ e. not (expired now t.ttl e.1)) (jobs_of g t.groups))
        × ((id : ℕ) (job : QueuedJob)
            → job_of g id t'.groups ≡ some job
            → later - job.queued_at ≤ demand.oldest_age)
        × (demand.oldest_age ≤ t.ttl + (later - now))
  unfolding snapshot
  snapshot_lem h = (
    rw (jobs_of-prune now t.ttl g t.groups v.unique)
        (length-prune_jobs now t.ttl (jobs_of g t.groups)),
    (λ id job e.
        All-get
          (λ x. later - x.1.queued_at ≤ oldest_age later (jobs_of g (prune now t.ttl t.groups)) 0)
          id job (jobs_of g (prune now t.ttl t.groups))
          (ages-le-oldest_age later (jobs_of g (prune now t.ttl t.groups)) 0) e),
    oldest_age-le later (t.ttl + (later - now)) (jobs_of g (prune now t.ttl t.groups)) 0
        (omega arith)
        (rw (jobs_of-prune now t.ttl g t.groups v.unique)
          (fresh_ages now later t.ttl (jobs_of g t.groups) h)),
  )

contains-insert_text :
    (g s : Text) (ts : List Text) → contains g (insert_text s ts) ≡ (s == g || contains g ts)
unfolding insert_text
contains-insert_text g s [] = refl
contains-insert_text g s (t ∷ ts) = ground (arith, contains-insert_text g s ts)

contains-sort_strings : (g : Text) (ts : List Text) → contains g (sort_strings ts) ≡ contains g ts
unfolding sort_strings
contains-sort_strings g [] = refl
contains-sort_strings g (t ∷ ts) =
    ground (arith, contains-insert_text g t (sort_strings ts), contains-sort_strings g ts)

text_le_total : (s t : Text) → text_le s t ≡ false → text_le t s ≡ true
unfolding text_le
text_le_total [] t h = ground arith
text_le_total (c ∷ s) [] h = refl
text_le_total (c ∷ s) (d ∷ t) h = ground (arith, text_le_total s t)

-- Each text is at most the next one.
abbrev pub IsSorted : List Text → Type 0
IsSorted [] = Unit {0}
IsSorted (s ∷ []) = Unit {0}
IsSorted (s ∷ t ∷ ts) = (text_le s t ≡ true) × IsSorted (t ∷ ts)

insert_text-IsSorted : (s : Text) (ts : List Text) → IsSorted ts → IsSorted (insert_text s ts)
unfolding insert_text
insert_text-IsSorted s [] h = tt
insert_text-IsSorted s (t ∷ []) h = ground (arith, text_le_total s t)
insert_text-IsSorted s (t ∷ u ∷ ts) h =
    ground (arith, text_le_total s t, text_le_total s u, insert_text-IsSorted s (u ∷ ts) h.1)

sort_strings-IsSorted : (ts : List Text) → IsSorted (sort_strings ts)
unfolding sort_strings
sort_strings-IsSorted [] = tt
sort_strings-IsSorted (t ∷ ts) = insert_text-IsSorted t (sort_strings ts) (sort_strings-IsSorted ts)

contains-nonempty_groups :
    (g : Text) (groups : Groups)
    → HasUniqueKeys groups
    → contains g (nonempty_groups groups) ≡ ltb 0 (length (jobs_of g groups))
contains-nonempty_groups g [] u = refl
contains-nonempty_groups g ((i, []) ∷ groups) u = elim (Bool-cases (i == g)) [
  | inl hit ↦ ground (
    arith,
    hit,
    contains-nonempty_groups g groups u.1,
    get-none i groups u.0,
    text_eq.beq_iff i g,
  )
  | inr miss ↦ ground (arith, miss, contains-nonempty_groups g groups u.1)
]
contains-nonempty_groups g ((i, j ∷ jobs) ∷ groups) u =
    ground (arith, contains-nonempty_groups g groups u.1)

module _ (codec : Codec) (t : Tracker codec) (now : ℕ) (v : IsValid t.groups) where
  -- In a valid state the active groups come sorted, and a group is one exactly when a snapshot at
  -- that time counts a job in it.
  pub active_groups_lem :
      IsSorted (active_groups codec now t).1
      × ((g : Text) (later : ℕ)
          → contains g (active_groups codec now t).1
            ≡ ltb 0 (snapshot codec now later t g).1.queued_jobs)
  unfolding active_groups snapshot
  active_groups_lem = (
    sort_strings-IsSorted (nonempty_groups (prune now t.ttl t.groups)),
    (λ g later.
        contains-sort_strings g (nonempty_groups (prune now t.ttl t.groups))
        ∙ contains-nonempty_groups g (prune now t.ttl t.groups)
            (pruned_again now t.ttl t.groups v).unique),
  )
