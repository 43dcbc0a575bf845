-- ===== src/Daemon/Logs/Matching.antt =====
-- internal/daemon/logs.go: what it is for an entry to match a query, said without the code that
-- tests it.
use gh_runner_scaler.Prelude.{
  ℕ, ◌≤◌, ◌≡◌, refl, ◌↔◌, ◌⊎◌, inl, Bool, true, false, ◌&&◌, ◌||◌, List, [], ◌∷◌, arith, leb,
  nat_beq, Any, nat_eq, Text, text_eq,
}
use gh_runner_scaler.Prelude.Strings.{to_lower, has_prefix, contains_text}
use gh_runner_scaler.Prelude.Dict.{Dict}
use gh_runner_scaler.Daemon.Logs.{
  LogEntry, LogQuery, blank, equal_fold, contains_fold, any_attribute, any_field,
  log_entry_contains, matches_log_query,
}

-- The same up to case.
abbrev pub IsSame : Text → Text → Type 0
IsSame field asked = to_lower field ≡ to_lower asked

-- The text asked for stands somewhere in the field, up to case.
abbrev pub Mentions : Text → Text → Type 0
Mentions asked field = contains_text (to_lower field) (to_lower asked) ≡ true

-- The texts of the entry that a search looks through, besides the attributes.
abbrev pub texts : LogEntry → List Text
texts e =
    e.message ∷ e.detail ∷ e.repo ∷ e.workflow ∷ e.job ∷ e.runner ∷ e.container ∷ e.commit
    ∷ e.branch ∷ e.error ∷ []

-- Each condition of the query that is not blank holds of the entry.
pub record IsMatch (e : LogEntry) (q : LogQuery) : Type 0 where
  pub since : (q.since ≡ 0) ⊎ (q.since ≤ e.time)
  pub until : (q.until ≡ 0) ⊎ (e.time ≤ q.until)
  pub level : (q.level ≡ []) ⊎ IsSame e.level q.level
  pub component : (q.component ≡ []) ⊎ IsSame e.component q.component
  pub event_type : (q.event_type ≡ []) ⊎ IsSame e.event_type q.event_type
  pub action : (q.action ≡ []) ⊎ IsSame e.action q.action
  pub repo : (q.repo ≡ []) ⊎ IsSame e.repo q.repo
  pub workflow : (q.workflow ≡ []) ⊎ Mentions q.workflow e.workflow
  pub job : (q.job ≡ []) ⊎ Mentions q.job e.job
  pub runner : (q.runner ≡ []) ⊎ IsSame e.runner q.runner ⊎ IsSame e.container q.runner
  pub commit : (q.commit ≡ []) ⊎ (has_prefix (to_lower e.commit) (to_lower q.commit) ≡ true)
  pub branch : (q.branch ≡ []) ⊎ IsSame e.branch q.branch
  pub search :
      (q.search ≡ [])
      ⊎ Any (Mentions q.search) (texts e)
      ⊎ Any (λ a. Mentions q.search a.0 ⊎ Mentions q.search a.1) e.attributes

both : {a b : Bool} → (a && b) ≡ true → (a ≡ true) × (b ≡ true)
both h = ground (arith, h)

blank_iff : (t : Text) → (blank t ≡ true) ↔ (t ≡ [])
blank_iff [] = ((λ e. refl), (λ e. refl))
blank_iff (c ∷ t) = ground arith

time_iff : (bound a b : ℕ) → ((nat_beq bound 0 || leb a b) ≡ true) ↔ ((bound ≡ 0) ⊎ (a ≤ b))
time_iff bound a b = ground arith

fold_iff :
    (field asked : Text)
    → ((blank asked || equal_fold field asked) ≡ true) ↔ ((asked ≡ []) ⊎ IsSame field asked)
fold_iff field asked =
    ground (arith, blank_iff asked, text_eq.beq_iff (to_lower field) (to_lower asked))

mentions_iff :
    (field asked : Text)
    → ((blank asked || contains_fold field asked) ≡ true) ↔ ((asked ≡ []) ⊎ Mentions asked field)
mentions_iff field asked = ground (arith, blank_iff asked)

runner_iff :
    (runner container asked : Text)
    → ((blank asked || equal_fold runner asked || equal_fold container asked) ≡ true)
      ↔ ((asked ≡ []) ⊎ IsSame runner asked ⊎ IsSame container asked)
runner_iff runner container asked = ground (
  arith,
  blank_iff asked,
  text_eq.beq_iff (to_lower runner) (to_lower asked),
  text_eq.beq_iff (to_lower container) (to_lower asked),
)

prefix_iff :
    (field asked : Text)
    → ((blank asked || has_prefix (to_lower field) (to_lower asked)) ≡ true)
      ↔ ((asked ≡ []) ⊎ (has_prefix (to_lower field) (to_lower asked) ≡ true))
prefix_iff field asked = ground (arith, blank_iff asked)

any_field_iff :
    (asked : Text) (fields : List Text)
    → blank asked ≡ false
    → (any_field asked fields ≡ true) ↔ Any (Mentions asked) fields
any_field_iff asked [] n = ((λ e. absurd (ground (arith, e))), (λ h. absurd h))
any_field_iff asked (f ∷ fs) n = ground (arith, n, any_field_iff asked fs n)

any_attribute_iff :
    (asked : Text) (attributes : Dict Text Text)
    → blank asked ≡ false
    → (any_attribute asked attributes ≡ true)
      ↔ Any (λ a. Mentions asked a.0 ⊎ Mentions asked a.1) attributes
any_attribute_iff asked [] n = ((λ e. absurd (ground (arith, e))), (λ h. absurd h))
any_attribute_iff asked ((k, v) ∷ rest) n = ground (arith, n, any_attribute_iff asked rest n)

search_iff :
    (e : LogEntry) (asked : Text)
    → ((blank asked || log_entry_contains e asked) ≡ true) ↔ (
        (asked ≡ [])
        ⊎ Any (Mentions asked) (texts e)
        ⊎ Any (λ a. Mentions asked a.0 ⊎ Mentions asked a.1) e.attributes)
unfolding log_entry_contains
search_iff e [] = ((λ h. inl refl), (λ h. refl))
search_iff e (c ∷ asked) =
    let fields = any_field_iff (c ∷ asked) (texts e) refl in
    let attributes = any_attribute_iff (c ∷ asked) e.attributes refl in
    ground (arith, fields, attributes)

pub matches_log_query_iff :
    (e : LogEntry) (q : LogQuery) → (matches_log_query e q ≡ true) ↔ IsMatch e q
unfolding matches_log_query
matches_log_query_iff e q = (
  λ h.
      let (h11, search) = both h in
      let (h10, branch) = both h11 in
      let (h9, commit) = both h10 in
      let (h8, runner) = both h9 in
      let (h7, job) = both h8 in
      let (h6, workflow) = both h7 in
      let (h5, repo) = both h6 in
      let (h4, action) = both h5 in
      let (h3, event_type) = both h4 in
      let (h2, component) = both h3 in
      let (h1, level) = both h2 in
      let (since, until) = both h1 in
      record {
        since = (time_iff q.since q.since e.time).0 since;
        until = (time_iff q.until e.time q.until).0 until;
        level = (fold_iff e.level q.level).0 level;
        component = (fold_iff e.component q.component).0 component;
        event_type = (fold_iff e.event_type q.event_type).0 event_type;
        action = (fold_iff e.action q.action).0 action;
        repo = (fold_iff e.repo q.repo).0 repo;
        workflow = (mentions_iff e.workflow q.workflow).0 workflow;
        job = (mentions_iff e.job q.job).0 job;
        runner = (runner_iff e.runner e.container q.runner).0 runner;
        commit = (prefix_iff e.commit q.commit).0 commit;
        branch = (fold_iff e.branch q.branch).0 branch;
        search = (search_iff e q.search).0 search;
      },
  λ m.
      rw
        (
          (time_iff q.since q.since e.time).1 m.since,
          (time_iff q.until e.time q.until).1 m.until,
          (fold_iff e.level q.level).1 m.level,
          (fold_iff e.component q.component).1 m.component,
          (fold_iff e.event_type q.event_type).1 m.event_type,
          (fold_iff e.action q.action).1 m.action,
          (fold_iff e.repo q.repo).1 m.repo,
          (mentions_iff e.workflow q.workflow).1 m.workflow,
          (mentions_iff e.job q.job).1 m.job,
          (runner_iff e.runner e.container q.runner).1 m.runner,
          (prefix_iff e.commit q.commit).1 m.commit,
          (fold_iff e.branch q.branch).1 m.branch,
          (search_iff e q.search).1 m.search,
        )
        refl,
)
