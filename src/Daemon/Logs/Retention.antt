-- ===== src/Daemon/Logs/Retention.antt =====
-- internal/daemon/logs.go: what the store keeps, in memory and in the file.
use gh_runner_scaler.Prelude.{
  ℕ, suc, ◌+◌, ◌-◌, ◌≤◌, ◌≡◌, refl, sym, ap, subst, ◌∙◌, ◌⊎◌, inl, inr, Bool, true, false, ◌&&◌,
  ◌||◌, List, [], ◌∷◌, ◌++◌, arith, ltb, leb, if◌then◌else◌, leb→le, Bool-cases, length, drop,
  length-append, length-drop, nat_eq, text_eq,
}
use gh_runner_scaler.Daemon.Logs.{
  LogEntry, LogStore, ended, cut_short, unended, Append, written, unwritten, partial, unterminated,
  unclosed, Disk, append_locked, compact_locked, trimmed, stamped, record_entry,
}

-- The last elements of a list.
abbrev pub keep : ℕ → List LogEntry → List LogEntry
keep n xs = drop (length xs - n) xs

-- The store holds the newest entries of the lines of the file, as many as it may.
pub record IsValid (s : LogStore) : Type 0 where
  pub newest : s.entries ≡ keep s.max_entries s.file.lines
  pub bounded : length s.entries ≤ s.max_entries
  pub intact : s.file.tail ≡ ended

none_over : (l n : ℕ) → l ≤ n → l - n ≡ 0
none_over l n h = omega (arith, h)

one_more_over : (m n : ℕ) → n ≤ m → suc m - n ≡ suc (m - n)
one_more_over m n h = omega (arith, h)

not_short : (m n : ℕ) → leb (suc m) n ≡ false → n ≤ m
not_short m n h = ground (arith, h)

pub not_over : (m n : ℕ) → ltb n m ≡ false → m ≤ n
not_over m n h = ground (arith, h)

pub keep_short : (n : ℕ) (xs : List LogEntry) → length xs ≤ n → keep n xs ≡ xs
keep_short n xs h = ap (λ k. drop k xs) (none_over (length xs) n h)

keep_long :
    (n : ℕ) (x : LogEntry) (xs : List LogEntry) → n ≤ length xs → keep n (x ∷ xs) ≡ keep n xs
keep_long n x xs h = ap (λ k. drop k (x ∷ xs)) (one_more_over (length xs) n h)

length-keep : (n : ℕ) (xs : List LogEntry) → length (keep n xs) ≤ n
length-keep n xs = omega (arith, length-drop (length xs - n) xs)

room_grows : (n : ℕ) (xs ys : List LogEntry) → n ≤ length xs → n ≤ length (xs ++ ys)
room_grows n xs ys h = omega (arith, h, length-append xs ys)

keep-append : (n : ℕ) (xs ys : List LogEntry) → keep n (keep n xs ++ ys) ≡ keep n (xs ++ ys)
keep-append n [] ys = ap (λ zs. keep n (zs ++ ys)) (keep_short n [] (omega arith))
keep-append n (x ∷ xs) ys = elim (Bool-cases (leb (length (x ∷ xs)) n)) [
  | inl short ↦ ap (λ zs. keep n (zs ++ ys)) (keep_short n (x ∷ xs) (leb→le _ _ short))
  | inr long ↦
      let room = not_short (length xs) n long in
      ap (λ zs. keep n (zs ++ ys)) (keep_long n x xs room)
      ∙ keep-append n xs ys
      ∙ sym (keep_long n x (xs ++ ys) (room_grows n xs ys room))
]

pub trimmed-keep :
    (s : LogStore)
    → ((trimmed s).entries ≡ keep s.max_entries s.entries)
      × ((trimmed s).file ≡ s.file)
      × ((trimmed s).max_entries ≡ s.max_entries)
trimmed-keep s = elim (Bool-cases (ltb s.max_entries (length s.entries))) [
  | inl over ↦ rw over (refl, refl, refl)
  | inr fits ↦ rw fits (sym (keep_short s.max_entries s.entries (not_over _ _ fits)), refl, refl)
]

trimmed-IsValid :
    (s : LogStore)
    → keep s.max_entries s.entries ≡ keep s.max_entries s.file.lines
    → s.file.tail ≡ ended
    → IsValid (trimmed s)
trimmed-IsValid s h i =
    let t = trimmed-keep s in
    record {
      newest =
          t.0
          ∙ h
          ∙ sym (ap (λ f. keep s.max_entries f.lines) t.1)
          ∙ ap (λ n. keep n (trimmed s).file.lines) (sym t.2);
      bounded =
          subst (λ n. length (trimmed s).entries ≤ n) (sym t.2)
            (subst (λ es. length es ≤ s.max_entries) (sym t.0)
              (length-keep s.max_entries s.entries));
      intact = ap (λ f. f.tail) t.1 ∙ i;
    }

compact_locked-IsValid :
    (disk : Disk) (s : LogStore) → IsValid s → IsValid (compact_locked disk s).0
unfolding compact_locked
compact_locked-IsValid disk s v = elim (Bool-cases disk.rewrites) [
  | inr fails ↦ rw fails v
  | inl works ↦ rw works (record {
    newest = sym (keep_short s.max_entries s.entries v.bounded);
    bounded = v.bounded;
    intact = refl;
  })
]

-- What is left of a write that breaks off: the store in memory is as it was, and the file has its
-- lines and, behind them, part of the new one, all but its newline, or all of it.
abbrev pub IsCut : LogEntry → LogStore → Append → LogStore × Bool → Type 0
IsCut e s append after =
    ((append ≡ partial) × (after ≡ (record s { file = record s.file { tail = cut_short } }, false)))
    ⊎ ((append ≡ unterminated)
        × (after ≡ (record s { file = record s.file { tail = unended e } }, false)))
    ⊎ ((append ≡ unclosed)
        × (after ≡ (record s { file = record s.file { lines = s.file.lines ++ e ∷ [] } }, false)))

append_cases :
    (a : Append)
    → (a ≡ written) ⊎ (a ≡ unwritten) ⊎ (a ≡ partial) ⊎ (a ≡ unterminated) ⊎ (a ≡ unclosed)
append_cases written = inl refl
append_cases unwritten = inr (inl refl)
append_cases partial = inr (inr (inl refl))
append_cases unterminated = inr (inr (inr (inl refl)))
append_cases unclosed = inr (inr (inr (inr refl)))

-- The store with one more entry, in memory and in the file.
abbrev grown : LogEntry → LogStore → LogStore
grown e s = record s {
  entries = s.entries ++ e ∷ [];
  file = record s.file { lines = s.file.lines ++ e ∷ [] };
  file_entries = s.file_entries + 1;
  version = s.version + 1;
}

record_entry-grown :
    (disk : Disk) (now : ℕ) (e : LogEntry) (s : LogStore)
    → s.file.tail ≡ ended
    → disk.append ≡ written
    → record_entry disk now e s ≡ (
        if ltb s.max_entries (length (s.entries ++ stamped now e ∷ []))
          || (ltb 0 s.compact_at && ltb s.compact_at (s.file_entries + 1))
        then compact_locked disk (trimmed (grown (stamped now e) s))
        else (trimmed (grown (stamped now e) s), true))
unfolding record_entry append_locked
record_entry-grown disk now e s i w = ground (arith, i, w)

written-IsValid :
    (disk : Disk) (now : ℕ) (e : LogEntry) (s : LogStore)
    → IsValid s
    → disk.append ≡ written
    → IsValid (record_entry disk now e s).0
written-IsValid disk now e s v w =
    let kept : IsValid (trimmed (grown (stamped now e) s)) =
      trimmed-IsValid (grown (stamped now e) s)
        (ap (λ es. keep s.max_entries (es ++ stamped now e ∷ [])) v.newest
          ∙ keep-append s.max_entries s.file.lines (stamped now e ∷ []))
        v.intact in
    subst (λ r. IsValid r.0) (sym (record_entry-grown disk now e s v.intact w))
      (elim (Bool-cases (
        ltb s.max_entries (length (s.entries ++ stamped now e ∷ []))
        || (ltb 0 s.compact_at && ltb s.compact_at (s.file_entries + 1)))) [
          | inl compacts ↦ rw compacts (compact_locked-IsValid disk _ kept)
          | inr leaves ↦ rw leaves kept
        ])

record_entry_unwritten :
    (disk : Disk) (now : ℕ) (e : LogEntry) (s : LogStore)
    → disk.append ≡ unwritten
    → record_entry disk now e s ≡ (s, false)
unfolding record_entry append_locked
record_entry_unwritten disk now e s u = ground (arith, u)

record_entry_partial :
    (disk : Disk) (now : ℕ) (e : LogEntry) (s : LogStore)
    → s.file.tail ≡ ended
    → disk.append ≡ partial
    → record_entry disk now e s ≡ (record s { file = record s.file { tail = cut_short } }, false)
unfolding record_entry append_locked
record_entry_partial disk now e s i p = ground (arith, i, p)

record_entry_unterminated :
    (disk : Disk) (now : ℕ) (e : LogEntry) (s : LogStore)
    → s.file.tail ≡ ended
    → disk.append ≡ unterminated
    → record_entry disk now e s
      ≡ (record s { file = record s.file { tail = unended (stamped now e) } }, false)
unfolding record_entry append_locked
record_entry_unterminated disk now e s i p = ground (arith, i, p)

record_entry_unclosed :
    (disk : Disk) (now : ℕ) (e : LogEntry) (s : LogStore)
    → s.file.tail ≡ ended
    → disk.append ≡ unclosed
    → record_entry disk now e s
      ≡ (record s { file = record s.file { lines = s.file.lines ++ stamped now e ∷ [] } }, false)
unfolding record_entry append_locked
record_entry_unclosed disk now e s i p = ground (arith, i, p)

pub record_entry-IsValid :
    (disk : Disk) (now : ℕ) (e : LogEntry) (s : LogStore)
    → IsValid s
    → ((disk.append ≡ written) × IsValid (record_entry disk now e s).0)
      ⊎ ((disk.append ≡ unwritten) × (record_entry disk now e s ≡ (s, false)))
      ⊎ IsCut (stamped now e) s disk.append (record_entry disk now e s)
record_entry-IsValid disk now e s v = elim (append_cases disk.append) [
  | inl w ↦ inl (w, written-IsValid disk now e s v w)
  | inr (inl u) ↦ inr (inl (u, record_entry_unwritten disk now e s u))
  | inr (inr (inl p)) ↦ inr (inr (inl (p, record_entry_partial disk now e s v.intact p)))
  | inr (inr (inr (inl t))) ↦
      inr (inr (inr (inl (t, record_entry_unterminated disk now e s v.intact t))))
  | inr (inr (inr (inr c))) ↦
      inr (inr (inr (inr (c, record_entry_unclosed disk now e s v.intact c))))
]
