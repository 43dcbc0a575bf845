-- ===== src/Daemon/Logs/Restart.antt =====
-- internal/daemon/logs.go: what a start of the daemon finds of the log.
use gh_runner_scaler.Prelude.{
  ℕ, ◌≤◌, ◌<◌, ◌≡◌, refl, sym, ◌∙◌, ◌⊎◌, inl, inr, true, false, none, some, arith, ltb, ltb→lt,
  Bool-cases, length, nat_eq, text_eq,
}
use gh_runner_scaler.Daemon.Logs.{
  LogStore, LogFile, ended, cut_short, Disk, compact_locked, trimmed, load,
}
use gh_runner_scaler.Daemon.Logs.Retention.{keep, keep_short, not_over, trimmed-keep}

-- The store holds the newest entries of the lines of a file that ends with a line or with part of
-- one.
pub record IsKept (s : LogStore) : Type 0 where
  pub newest : s.entries ≡ keep s.max_entries s.file.lines
  pub tail : (s.file.tail ≡ ended) ⊎ (s.file.tail ≡ cut_short)

abbrev fresh_store : ℕ → ℕ → LogFile → LogStore
fresh_store max_entries compact_at file = record {
  max_entries = max_entries;
  compact_at = compact_at;
  entries = file.lines;
  file_entries = length file.lines;
  version = 0;
  file = file;
}

abbrev rewritten : LogStore → LogStore
rewritten s = record s {
  file = record { lines = s.entries; tail = ended };
  file_entries = length s.entries;
}

load_fits :
    (disk : Disk) (m compact_at : ℕ) (file : LogFile)
    → disk.reads ≡ true
    → file.tail ≡ ended
    → ltb m (length file.lines) ≡ false
    → load disk m compact_at file ≡ some (fresh_store m compact_at file)
unfolding load
load_fits disk m compact_at file r i f = ground (arith, r, i, f)

load_by_rewriting :
    (disk : Disk) (m compact_at : ℕ) (file : LogFile)
    → disk.reads ≡ true
    → disk.rewrites ≡ true
    → (file.tail ≡ cut_short) ⊎ ((file.tail ≡ ended) × (ltb m (length file.lines) ≡ true))
    → load disk m compact_at file ≡ some (rewritten (trimmed (fresh_store m compact_at file)))
unfolding load compact_locked
load_by_rewriting disk m compact_at file r w (inl i) = ground (arith, r, w, i)
load_by_rewriting disk m compact_at file r w (inr (i, o)) = ground (arith, r, w, i, o)

load_unwritten :
    (disk : Disk) (m compact_at : ℕ) (file : LogFile)
    → disk.rewrites ≡ false
    → (file.tail ≡ cut_short) ⊎ ((file.tail ≡ ended) × (ltb m (length file.lines) ≡ true))
    → load disk m compact_at file ≡ none
unfolding load compact_locked
load_unwritten disk m compact_at file w (inl i) = ground (arith, w, i)
load_unwritten disk m compact_at file w (inr (i, o)) = ground (arith, w, i, o)

load_unread :
    (disk : Disk) (m compact_at : ℕ) (file : LogFile)
    → disk.reads ≡ false
    → load disk m compact_at file ≡ none
unfolding load
load_unread disk m compact_at file r = ground (arith, r)

-- What a start that needs no rewriting, or where it works, makes of the file.
abbrev pub IsFound : Disk → ℕ → LogStore → Type 0
IsFound disk compact_at s =
    (loaded : LogStore) × (load disk s.max_entries compact_at s.file ≡ some loaded)
    × (loaded.entries ≡ s.entries)
    × (loaded.file.tail ≡ ended)

rewritten-IsFound :
    (disk : Disk) (compact_at : ℕ) (s : LogStore)
    → IsKept s
    → disk.reads ≡ true
    → disk.rewrites ≡ true
    → (s.file.tail ≡ cut_short)
      ⊎ ((s.file.tail ≡ ended) × (ltb s.max_entries (length s.file.lines) ≡ true))
    → IsFound disk compact_at s
rewritten-IsFound disk compact_at s v r w needed =
    let fresh = fresh_store s.max_entries compact_at s.file in
    (
      rewritten (trimmed fresh),
      load_by_rewriting disk s.max_entries compact_at s.file r w needed,
      (trimmed-keep fresh).0 ∙ sym v.newest,
      refl,
    )

pub load-entries :
    (disk : Disk) (compact_at : ℕ) (s : LogStore)
    → IsKept s
    → ((disk.reads ≡ true)
        × ((disk.rewrites ≡ true) ⊎ ((s.file.tail ≡ ended) × (length s.file.lines ≤ s.max_entries)))
        × IsFound disk compact_at s)
      ⊎ (((disk.reads ≡ false)
            ⊎ ((disk.rewrites ≡ false)
                × ((s.file.tail ≡ cut_short) ⊎ (s.max_entries < length s.file.lines))))
          × (load disk s.max_entries compact_at s.file ≡ none))
load-entries disk compact_at s v = elim (Bool-cases disk.reads) [
  | inr fails ↦ inr (inl fails, load_unread disk s.max_entries compact_at s.file fails)
  | inl reads ↦ elim v.tail [
    | inl whole ↦ elim (Bool-cases (ltb s.max_entries (length s.file.lines))) [
      | inr fits ↦ inl (
        reads,
        inr (whole, not_over (length s.file.lines) s.max_entries fits),
        (
          fresh_store s.max_entries compact_at s.file,
          load_fits disk s.max_entries compact_at s.file reads whole fits,
          sym (v.newest ∙ keep_short s.max_entries s.file.lines (not_over _ _ fits)),
          whole,
        ),
      )
      | inl over ↦ elim (Bool-cases disk.rewrites) [
        | inl works ↦ inl (
          reads,
          inl works,
          rewritten-IsFound disk compact_at s v reads works (inr (whole, over)),
        )
        | inr fails ↦ inr (
          inr (fails, inr (ltb→lt _ _ over)),
          load_unwritten disk s.max_entries compact_at s.file fails (inr (whole, over)),
        )
      ]
    ]
    | inr cut ↦ elim (Bool-cases disk.rewrites) [
      | inl works ↦
          inl (reads, inl works, rewritten-IsFound disk compact_at s v reads works (inl cut))
      | inr fails ↦ inr (
        inr (fails, inl cut),
        load_unwritten disk s.max_entries compact_at s.file fails (inl cut),
      )
    ]
  ]
]
