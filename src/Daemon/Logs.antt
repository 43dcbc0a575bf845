-- ===== src/Daemon/Logs.antt =====
-- internal/daemon/logs.go: the log store. Encoding an entry as a line is left out: the file is the
-- list of the entries of its lines, and what stands behind them where a write has failed.
pub mod Retention
pub mod Restart
pub mod Matching
pub mod Results
use gh_runner_scaler.Prelude.{
  ℕ, zero, suc, ◌+◌, ◌-◌, ◌*◌, ◌/◌, ◌%◌, ◌^◌, ◌≤◌, ◌<◌, ◌≡◌, refl, sym, ap, subst, ◌∙◌, ◌≢◌, ◌↔◌,
  ◌⊎◌, inl, inr, Bool, true, false, not, ◌&&◌, ◌||◌, false≢true, Option, none, some, List, [], ◌∷◌,
  ◌++◌, map, append_assoc, append-nil, arith, ltb, leb, nat_beq, if◌then◌else◌, ltb→lt, lt→ltb,
  leb→le, nat_beq_iff, Bool-cases, Option-cases, length, get_elem?, take, drop, filter, all, count,
  length-append, length-drop, length-take-le, length-filter-le, count-le, count-append, All, Any,
  All-append, All-get_elem, some_injective, Eq, ◌==◌, beq_refl, nat_eq, Text, text_eq, contains,
  IsNodup, remove, contains-append, contains-remove, length-remove-le, length-remove-lt,
  remove-IsNodup, append-IsNodup, length-le_of_subset,
}
use gh_runner_scaler.Prelude.Strings.{to_lower, has_prefix, contains_text}
use gh_runner_scaler.Prelude.Dict.{Dict}

-- internal/domain/types.go
pub record LogEntry : Type 0 where
  pub time : ℕ
  pub level : Text
  pub message : Text
  pub component : Text
  pub event_type : Text
  pub action : Text
  pub repo : Text
  pub workflow : Text
  pub job : Text
  pub job_id : ℕ
  pub runner : Text
  pub container : Text
  pub commit : Text
  pub branch : Text
  pub status : Text
  pub conclusion : Text
  pub detail : Text
  pub cache_path : Text
  pub run_id : ℕ
  pub run_attempt : ℕ
  pub error : Text
  pub attributes : Dict Text Text

-- A limit that is not positive is 0.
pub record LogQuery : Type 0 where
  pub limit : ℕ
  pub since : ℕ
  pub until : ℕ
  pub level : Text
  pub component : Text
  pub event_type : Text
  pub action : Text
  pub repo : Text
  pub workflow : Text
  pub job : Text
  pub runner : Text
  pub commit : Text
  pub branch : Text
  pub search : Text

unfoldable pub normalize_limit : ℕ → ℕ
normalize_limit limit = if nat_beq limit 0 then 200 else if ltb 1000 limit then 1000 else limit

abbrev pub blank : Text → Bool
blank [] = true
blank (c ∷ s) = false

-- strings.EqualFold
abbrev pub equal_fold : Text → Text → Bool
equal_fold a b = to_lower a == to_lower b

abbrev pub contains_fold : Text → Text → Bool
contains_fold haystack needle = blank needle || contains_text (to_lower haystack) (to_lower needle)

abbrev pub any_attribute : Text → Dict Text Text → Bool
any_attribute query [] = false
any_attribute query ((key, value) ∷ rest) =
    contains_fold key query || contains_fold value query || any_attribute query rest

abbrev pub any_field : Text → List Text → Bool
any_field query [] = false
any_field query (field ∷ fields) = contains_fold field query || any_field query fields

unfoldable pub log_entry_contains : LogEntry → Text → Bool
log_entry_contains e query =
    any_field query (
      e.message ∷ e.detail ∷ e.repo ∷ e.workflow ∷ e.job ∷ e.runner ∷ e.container ∷ e.commit
      ∷ e.branch ∷ e.error ∷ [])
    || any_attribute query e.attributes

-- Each condition holds where the query leaves its field blank.
unfoldable pub matches_log_query : LogEntry → LogQuery → Bool
matches_log_query e q =
    (nat_beq q.since 0 || leb q.since e.time)
    && (nat_beq q.until 0 || leb e.time q.until)
    && (blank q.level || equal_fold e.level q.level)
    && (blank q.component || equal_fold e.component q.component)
    && (blank q.event_type || equal_fold e.event_type q.event_type)
    && (blank q.action || equal_fold e.action q.action)
    && (blank q.repo || equal_fold e.repo q.repo)
    && (blank q.workflow || contains_fold e.workflow q.workflow)
    && (blank q.job || contains_fold e.job q.job)
    && (blank q.runner || equal_fold e.runner q.runner || equal_fold e.container q.runner)
    && (blank q.commit || has_prefix (to_lower e.commit) (to_lower q.commit))
    && (blank q.branch || equal_fold e.branch q.branch)
    && (blank q.search || log_entry_contains e q.search)

-- What stands behind the lines: nothing; part of a line that the decoder takes for cut short; a
-- whole entry without its newline; a line without its newline that does not decode; or a line with
-- it that does not.
pub data Tail : Type 0 where
  ended cut_short undecodable broken : Tail
  unended : LogEntry → Tail

pub record LogFile : Type 0 where
  pub lines : List LogEntry
  pub tail : Tail

pub record LogStore : Type 0 where
  pub max_entries : ℕ
  pub compact_at : ℕ
  pub entries : List LogEntry
  pub file_entries : ℕ
  pub version : ℕ
  pub file : LogFile

-- What appendLocked does with a line: it is written; nothing is, since encoding, opening or writing
-- fails; part of it is, or all but the newline, before the write fails; or the file fails to close.
pub data Append : Type 0 where
  written unwritten partial unterminated unclosed : Append

-- What the disk does: with a line to append, with the file that is read and with the rewriting of
-- the file; and whether what stands behind the lines, when more of a line is written behind it that
-- is cut off too, is taken for a line cut short, as encoding/json and isTruncatedLogEntry decide.
pub record Disk : Type 0 where
  pub append : Append
  pub reads : Bool
  pub rewrites : Bool
  pub reads_cut : Bool

abbrev cut_tail : Disk → Tail → Tail
cut_tail disk broken = broken
cut_tail disk _ = if disk.reads_cut then cut_short else undecodable

abbrev with_line : LogEntry → LogFile → LogFile
with_line e file = elim file.tail [
  | ended ↦ record file { lines = file.lines ++ e ∷ [] }
  | _ ↦ record file { tail = broken }
]

unfoldable pub append_locked : Disk → LogEntry → LogFile → LogFile
append_locked disk e file = elim disk.append [
  | written ↦ with_line e file
  | unclosed ↦ with_line e file
  | unwritten ↦ file
  | partial ↦ record file {
    tail = elim file.tail [ ended ↦ cut_short | _ ↦ cut_tail disk file.tail ];
  }
  | unterminated ↦ record file {
    tail = elim file.tail [ ended ↦ unended e | _ ↦ cut_tail disk file.tail ];
  }
]

abbrev pub is_written : Append → Bool
is_written written = true
is_written _ = false

-- The store and whether there was no error.
unfoldable pub compact_locked : Disk → LogStore → LogStore × Bool
compact_locked disk s =
    if disk.rewrites
    then (
      record s {
        file = record { lines = s.entries; tail = ended };
        file_entries = length s.entries;
      },
      true,
    )
    else (s, false)

-- The newest of the entries, no more than the store keeps.
abbrev pub trimmed : LogStore → LogStore
trimmed s =
    if ltb s.max_entries (length s.entries)
    then record s { entries = drop (length s.entries - s.max_entries) s.entries }
    else s

-- The store in memory with one more entry.
abbrev pub appended : LogEntry → LogStore → LogStore
appended e s = record s {
  entries = s.entries ++ e ∷ [];
  file_entries = s.file_entries + 1;
  version = s.version + 1;
}

abbrev pub stamped : ℕ → LogEntry → LogEntry
stamped now e = if nat_beq e.time 0 then record e { time = now } else e

unfoldable pub record_entry : Disk → ℕ → LogEntry → LogStore → LogStore × Bool
record_entry disk now e s =
    let file = append_locked disk (stamped now e) s.file in
    let tried : LogStore = record s { file = file } in
    let added = appended (stamped now e) tried in
    if not (is_written disk.append)
    then (tried, false)
    else if ltb s.max_entries (length added.entries)
        || (ltb 0 s.compact_at && ltb s.compact_at added.file_entries)
    then compact_locked disk (trimmed added)
    else (trimmed added, true)

-- The entries that are read and whether the file has to be rewritten, `none` where a line does not
-- decode.
abbrev pub read_file : LogFile → Option (List LogEntry × Bool)
read_file file = elim file.tail [
  | ended ↦ some (file.lines, false)
  | cut_short ↦ some (file.lines, true)
  | unended e ↦ some (file.lines ++ e ∷ [], false)
  | undecodable ↦ none
  | broken ↦ none
]

abbrev compacted : LogStore × Bool → Option LogStore
compacted (s, ok) = if ok then some s else none

-- The start of the daemon on a file; a file that is missing is an empty one. `none` is an error,
-- with which the daemon does not start.
unfoldable pub load : Disk → ℕ → ℕ → LogFile → Option LogStore
load disk max_entries compact_at file = if not disk.reads then none else elim (read_file file) [
  | none ↦ none
  | some (entries, torn) ↦
      let s : LogStore = record {
        max_entries = max_entries;
        compact_at = compact_at;
        entries = entries;
        file_entries = length entries;
        version = 0;
        file = file;
      } in
      if torn || ltb max_entries (length entries)
      then compacted (compact_locked disk (trimmed s))
      else some s
]

abbrev pub newest_first : List LogEntry → List LogEntry
newest_first [] = []
newest_first (e ∷ es) = newest_first es ++ e ∷ []

-- The loop of Query, over the entries from the newest on, with the results so far.
unfoldable pub collect : LogQuery → ℕ → List LogEntry → List LogEntry → List LogEntry
collect q limit results [] = results
collect q limit results (e ∷ es) =
    let skipped = collect q limit results es in
    let more = collect q limit (results ++ e ∷ []) es in
    if matches_log_query e q
    then (if nat_beq (length (results ++ e ∷ [])) limit then results ++ e ∷ [] else more)
    else skipped

unfoldable pub query : LogStore → LogQuery → List LogEntry
query s q = collect q (normalize_limit q.limit) [] (newest_first s.entries)
