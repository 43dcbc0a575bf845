-- ===== src/Tests/LogTests.antt =====
-- The log store at concrete inputs.
use gh_runner_scaler.Prelude.{
  ℕ, ◌≤◌, ◌<◌, ◌≡◌, refl, ◌↔◌, ◌⊎◌, inr, Bool, true, false, none, [], ◌∷◌, arith, take, filter,
  nat_eq, text_eq,
}
use mathlib.Core.List.{reverse}
use gh_runner_scaler.Daemon.Logs.{
  LogEntry, LogQuery, LogStore, Disk, written, unwritten, partial, ended, cut_short, record_entry,
  load, matches_log_query, log_entry_contains, query,
}
use gh_runner_scaler.Daemon.Logs.Matching.{IsMatch}
use gh_runner_scaler.Daemon.Logs.Retention.{IsValid, IsCut, record_entry-IsValid}
use gh_runner_scaler.Daemon.Logs.Restart.{IsFound, load-entries}
use gh_runner_scaler.Daemon.Logs.Results.{IsLimit, query_lem}
use gh_runner_scaler.Prelude.Strings.{text, to_lower, has_prefix, contains_text}

abbrev entry : LogEntry
entry = record {
  time = 5;
  level = text "INFO";
  message = text "webhook event";
  component = [];
  event_type = text "push";
  action = [];
  repo = text "org/app";
  workflow = [];
  job = [];
  job_id = 0;
  runner = [];
  container = [];
  commit = [];
  branch = [];
  status = [];
  conclusion = [];
  detail = [];
  cache_path = [];
  run_id = 0;
  run_attempt = 0;
  error = [];
  attributes = [];
}

abbrev pushes : LogQuery
pushes = record {
  limit = 0;
  since = 0;
  until = 0;
  level = text "info";
  component = [];
  event_type = [];
  action = [];
  repo = [];
  workflow = [];
  job = [];
  runner = [];
  commit = [];
  branch = [];
  search = text "Event";
}

-- A store of two entries, full.
abbrev store : LogStore
store = record {
  max_entries = 2;
  compact_at = 4;
  entries = entry ∷ entry ∷ [];
  file_entries = 2;
  version = 2;
  file = record { lines = entry ∷ entry ∷ []; tail = ended };
}

abbrev failing : Disk
failing = record { append = partial; reads = true; rewrites = false; reads_cut = true }

store-IsValid : IsValid store
store-IsValid = record { newest = refl; bounded = omega arith; intact = refl }

matches_test : matches_log_query entry pushes ≡ true
unfolding matches_log_query log_entry_contains to_lower contains_text has_prefix
matches_test = refl

record_entry-IsValid_example :
    ((partial ≡ written) × IsValid (record_entry failing 9 entry store).0)
    ⊎ ((partial ≡ unwritten) × (record_entry failing 9 entry store ≡ (store, false)))
    ⊎ IsCut entry store partial (record_entry failing 9 entry store)
record_entry-IsValid_example = record_entry-IsValid failing 9 entry store store-IsValid

-- The store after a write that breaks off.
abbrev torn : LogStore
torn = record store { file = record { lines = entry ∷ entry ∷ []; tail = cut_short } }

load-entries_example :
    ((true ≡ true) × ((false ≡ true) ⊎ ((cut_short ≡ ended) × (2 ≤ 2))) × IsFound failing 4 torn)
    ⊎ (((true ≡ false) ⊎ ((false ≡ false) × ((cut_short ≡ cut_short) ⊎ (2 < 2))))
        × (load failing 2 4 torn.file ≡ none))
load-entries_example = load-entries failing 4 torn (record { newest = refl; tail = inr refl })

query_lem_example :
    (limit : ℕ) × (wanted : LogEntry → Bool) × IsLimit 0 limit
    × ((e : LogEntry) → (wanted e ≡ true) ↔ IsMatch e pushes)
    × (query store pushes ≡ take limit (filter wanted (reverse (entry ∷ entry ∷ []))))
query_lem_example = query_lem store pushes
