-- ===== src/Daemon/Logs/Results.antt =====
-- internal/daemon/logs.go: what a query returns.
use mathlib.Core.List.{reverse, reverse_aux}
use gh_runner_scaler.Prelude.{
  ℕ, zero, suc, ◌+◌, ◌≤◌, ◌<◌, ◌≡◌, refl, sym, ap, ◌∙◌, ◌↔◌, ◌⊎◌, inl, inr, Bool, true, false, List,
  [], ◌∷◌, ◌++◌, append_assoc, append-nil, arith, nat_beq, Bool-cases, length, take, filter,
  length-append, nat_eq, text_eq,
}
use gh_runner_scaler.Daemon.Logs.Matching.{IsMatch, matches_log_query_iff}
use gh_runner_scaler.Daemon.Logs.{
  LogEntry, LogQuery, LogStore, normalize_limit, matches_log_query, newest_first, collect, query,
}

abbrev matching : LogQuery → List LogEntry → List LogEntry
matching q es = filter (λ e. matches_log_query e q) es

reached :
    (limit : ℕ) (results : List LogEntry) (e : LogEntry) (k : ℕ)
    → length results + suc k ≡ limit
    → length (results ++ e ∷ []) + k ≡ limit
reached limit results e k h = omega (arith, h, length-append results (e ∷ []))

at_limit :
    (limit : ℕ) (results : List LogEntry)
    → length results + 0 ≡ limit
    → nat_beq (length results) limit ≡ true
at_limit limit results h = ground (arith, h)

below_limit :
    (limit : ℕ) (results : List LogEntry) (k : ℕ)
    → length results + suc k ≡ limit
    → nat_beq (length results) limit ≡ false
below_limit limit results k h = ground (arith, h)

-- With room for `suc k` more results the loop adds that many of the matching entries.
collect-take :
    (q : LogQuery) (limit : ℕ) (results es : List LogEntry) (k : ℕ)
    → length results + suc k ≡ limit
    → collect q limit results es ≡ results ++ take (suc k) (matching q es)
unfolding collect
collect-take q limit results [] k h = sym (append-nil results)
collect-take q limit results (e ∷ es) zero h = elim (Bool-cases (matches_log_query e q)) [
  | inl hit ↦ rw hit (rw (at_limit limit (results ++ e ∷ []) (reached limit results e 0 h)) refl)
  | inr miss ↦ rw miss (collect-take q limit results es 0 h)
]
collect-take q limit results (e ∷ es) (suc k) h = elim (Bool-cases (matches_log_query e q)) [
  | inl hit ↦
      let room = reached limit results e (suc k) h in
      rw hit (
        rw (below_limit limit (results ++ e ∷ []) k room) (
          collect-take q limit (results ++ e ∷ []) es k room
          ∙ append_assoc results (e ∷ []) (take (suc k) (matching q es))))
  | inr miss ↦ rw miss (collect-take q limit results es (suc k) h)
]

positive : (n : ℕ) → 0 < n → (k : ℕ) × (n ≡ suc k)
positive zero h = ground (arith, h)
positive (suc k) h = (k, refl)

-- The limit that a query runs with, by the limit it asks for.
abbrev pub IsLimit : ℕ → ℕ → Type 0
IsLimit asked limit =
    ((asked ≡ 0) × (limit ≡ 200))
    ⊎ ((0 < asked) × (asked ≤ 1000) × (limit ≡ asked))
    ⊎ ((1000 < asked) × (limit ≡ 1000))

normalize_limit-IsLimit : (asked : ℕ) → IsLimit asked (normalize_limit asked)
unfolding normalize_limit
normalize_limit-IsLimit asked = ground arith

limit_positive : (asked limit : ℕ) → IsLimit asked limit → 0 < limit
limit_positive asked limit h = ground arith

reverse_aux-newest_first : (es acc : List LogEntry) → reverse_aux es acc ≡ newest_first es ++ acc
reverse_aux-newest_first [] acc = refl
reverse_aux-newest_first (e ∷ es) acc =
    reverse_aux-newest_first es (e ∷ acc) ∙ sym (append_assoc (newest_first es) (e ∷ []) acc)

reverse-newest_first : (es : List LogEntry) → newest_first es ≡ reverse es
reverse-newest_first es = sym (reverse_aux-newest_first es [] ∙ append-nil (newest_first es))

-- A query returns the first so many of the entries that match it, the newest first: as many as it
-- asks for, but 200 where it names no limit and never more than 1000; and an entry matches when
-- each condition of the query that is not blank holds of it.
pub query_lem :
    (s : LogStore) (q : LogQuery)
    → (limit : ℕ) × (wanted : LogEntry → Bool) × IsLimit q.limit limit
      × ((e : LogEntry) → (wanted e ≡ true) ↔ IsMatch e q)
      × (query s q ≡ take limit (filter wanted (reverse s.entries)))
unfolding query
query_lem s q =
    let limit = normalize_limit-IsLimit q.limit in
    let (k, e) = positive (normalize_limit q.limit) (limit_positive q.limit _ limit) in
    (
      normalize_limit q.limit,
      λ e. matches_log_query e q,
      limit,
      λ e. matches_log_query_iff e q,
      collect-take q (normalize_limit q.limit) [] (newest_first s.entries) k (omega (arith, e))
          ∙ ap (λ n. take n (matching q (newest_first s.entries))) (sym e)
          ∙ ap (λ es. take (normalize_limit q.limit) (matching q es))
              (reverse-newest_first s.entries),
    )
