-- ===== src/Demand.antt =====
-- internal/demand/tracker.go: queued workflow jobs by runner group and job id. Each operation takes
-- the readings of the clock that it makes, in their order, and the faults of its write to disk.
pub mod Persist
pub mod Invariant
pub mod Lookup
pub mod Snapshot
pub mod Restart
pub mod Reach
pub mod Refinement
use gh_runner_scaler.Prelude.{
  ℕ, ◌+◌, ◌-◌, ◌≡◌, ◌⊎◌, inl, inr, Bool, true, false, not, ◌&&◌, ◌||◌, Option, none, some, List, [],
  ◌∷◌, ltb, if◌then◌else◌, length, ◌==◌, nat_eq, Text, text_eq,
}
use gh_runner_scaler.Prelude.Dict.{Dict, get, put, delete}
use gh_runner_scaler.Domain.{QueuedJob, CapacityDemand}
use Persist.{PersistError, Faults, Files, persist_locked}

abbrev pub Jobs : Type 0
Jobs = Dict ℕ QueuedJob

abbrev pub Groups : Type 0
Groups = Dict Text Jobs

pub data DemandError : Type 0 where
  path_required ttl_not_positive read_failed decode_failed group_required job_required : DemandError
  persist_failed : PersistError → DemandError

-- encoding/json on the state: the encoder may refuse, and what it wrote the decoder reads back.
pub record Codec : Type 1 where
  pub Bytes : Type 0
  pub empty : Bytes
  pub encode : Groups → Option Bytes
  pub decode : Bytes → Option Groups
  pub decode-encode : (g : Groups) (b : Bytes) → encode g ≡ some b → decode b ≡ some g

-- job.QueuedAt.Before(now.Add(-ttl))
abbrev pub expired : ℕ → ℕ → QueuedJob → Bool
expired now ttl job = ltb (job.queued_at + ttl) now

unfoldable pub prune_jobs : ℕ → ℕ → Jobs → Jobs
prune_jobs now ttl [] = []
prune_jobs now ttl ((id, job) ∷ jobs) =
    let rest = prune_jobs now ttl jobs in if expired now ttl job then rest else (id, job) ∷ rest

keep_nonempty : Text → Jobs → Groups → Groups
keep_nonempty group [] rest = rest
keep_nonempty group (j ∷ jobs) rest = (group, j ∷ jobs) ∷ rest

unfoldable pub prune : ℕ → ℕ → Groups → Groups
unfolding keep_nonempty
prune now ttl [] = []
prune now ttl ((group, jobs) ∷ groups) =
    keep_nonempty group (prune_jobs now ttl jobs) (prune now ttl groups)

-- A zero QueuedAt is replaced by the clock.
abbrev pub stamp : ℕ → QueuedJob → QueuedJob
stamp now job = if job.queued_at == 0 then record job { queued_at = now } else job

-- t.state.Groups[groupID], a missing group being a nil map
abbrev pub jobs_of : Text → Groups → Jobs
jobs_of group groups = elim (get group groups) [ none ↦ [] | some jobs ↦ jobs ]

unfoldable pub queue_groups : ℕ → ℕ → ℕ → Text → QueuedJob → Groups → Groups
queue_groups now stamped ttl group job groups =
    let pruned = prune now ttl groups in
    put group (put job.id (stamp stamped job) (jobs_of group pruned)) pruned

-- The group's entry is put back, or dropped with its last job.
store_jobs : Text → Jobs → Groups → Groups
store_jobs group [] groups = delete group groups
store_jobs group (j ∷ jobs) groups = put group (j ∷ jobs) groups

unfoldable pub clear_groups : ℕ → ℕ → Text → ℕ → Groups → Groups
unfolding store_jobs
clear_groups now ttl group id groups =
    let pruned = prune now ttl groups in
    elim (get group pruned) [ none ↦ pruned | some jobs ↦ store_jobs group (delete id jobs) pruned ]

-- The loop of Replace. The clock is read for each job with a zero time; `clock n` is reading `n`.
unfoldable pub replacement : (ℕ → ℕ) → ℕ → List QueuedJob → Jobs → Jobs
replacement clock n [] jobs = jobs
replacement clock n (job ∷ rest) jobs =
    if job.id == 0
    then replacement clock n rest jobs
    else replacement clock (if job.queued_at == 0 then n + 1 else n) rest
        (put job.id (stamp (clock n) job) jobs)

unfoldable pub replace_groups : ℕ → (ℕ → ℕ) → ℕ → Text → List QueuedJob → Groups → Groups
unfolding store_jobs
replace_groups now clock ttl group jobs groups =
    store_jobs group (replacement clock 0 jobs []) (prune now ttl groups)

-- now.Sub(job.QueuedAt), a negative age counting as 0 like the code's comparison with OldestAge
unfoldable pub oldest_age : ℕ → Jobs → ℕ → ℕ
oldest_age now [] oldest = oldest
oldest_age now ((id, job) ∷ jobs) oldest =
    oldest_age now jobs (if ltb oldest (now - job.queued_at) then now - job.queued_at else oldest)

pub text_le : Text → Text → Bool
text_le [] t = true
text_le (c ∷ s) [] = false
text_le (c ∷ s) (d ∷ t) = ltb c d || (c == d && text_le s t)

insert_text : Text → List Text → List Text
insert_text s [] = s ∷ []
insert_text s (t ∷ ts) = if text_le s t then s ∷ t ∷ ts else t ∷ insert_text s ts

-- sort.Strings
unfoldable pub sort_strings : List Text → List Text
unfolding insert_text text_le
sort_strings [] = []
sort_strings (s ∷ ts) = insert_text s (sort_strings ts)

-- The groups with a job, in the order of iteration.
abbrev pub nonempty_groups : Groups → List Text
nonempty_groups [] = []
nonempty_groups ((group, []) ∷ groups) = nonempty_groups groups
nonempty_groups ((group, j ∷ jobs) ∷ groups) = group ∷ nonempty_groups groups

module _ (codec : Codec) where
  open codec use {Bytes, empty, encode, decode}

  pub record Tracker : Type 0 where
    pub ttl : ℕ
    pub groups : Groups
    pub files : Files Bytes

  abbrev failure : Option PersistError → Option DemandError
  failure none = none
  failure (some e) = some (persist_failed e)

  -- The new state stays in memory also when it could not be written.
  abbrev pub commit : Faults → Tracker → Groups → Tracker × Option DemandError
  commit faults t groups =
      let (files, error) = persist_locked faults empty (encode groups) t.files in
      (record t { groups = groups; files = files }, failure error)

  unfoldable pub queue : Faults → ℕ → ℕ → Tracker → Text → QueuedJob → Tracker × Option DemandError
  queue faults now stamped t group job =
      if group == []
      then (t, some group_required)
      else if job.id == 0
      then (t, some job_required)
      else commit faults t (queue_groups now stamped t.ttl group job t.groups)

  unfoldable pub clear : Faults → ℕ → Tracker → Text → ℕ → Tracker × Option DemandError
  clear faults now t group id = commit faults t (clear_groups now t.ttl group id t.groups)

  unfoldable pub replace :
      Faults → ℕ → (ℕ → ℕ) → Tracker → Text → List QueuedJob → Tracker × Option DemandError
  replace faults now clock t group jobs =
      if group == []
      then (t, some group_required)
      else commit faults t (replace_groups now clock t.ttl group jobs t.groups)

  unfoldable pub snapshot : ℕ → ℕ → Tracker → Text → Tracker × CapacityDemand
  snapshot now later t group =
      let groups = prune now t.ttl t.groups in
      let jobs = jobs_of group groups in
      (
        record t { groups = groups },
        record { queued_jobs = length jobs; oldest_age = oldest_age later jobs 0 },
      )

  unfoldable pub active_groups : ℕ → Tracker → Tracker × List Text
  active_groups now t =
      let groups = prune now t.ttl t.groups in
      (record t { groups = groups }, sort_strings (nonempty_groups groups))

  -- What os.ReadFile gives: the content, or an error that says the file is not there, or another.
  pub data ReadResult : Type 0 where
    content : Bytes → ReadResult
    missing failed : ReadResult

  unfoldable pub new_tracker : Text → ℕ → ℕ → Files Bytes → ReadResult → (Tracker ⊎ DemandError)
  new_tracker path ttl now files read =
      if path == []
      then inr path_required
      else if ttl == 0
      then inr ttl_not_positive
      else elim read [
        | missing ↦ inl (record { ttl = ttl; groups = []; files = files })
        | failed ↦ inr read_failed
        | content bytes ↦ elim (decode bytes) [
          | none ↦ inr decode_failed
          | some groups ↦ inl (record { ttl = ttl; groups = prune now ttl groups; files = files })
        ]
      ]
