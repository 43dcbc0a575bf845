-- ===== src/Daemon/Sync.antt =====
-- internal/daemon/webhook.go: the cache sync after a push.
use gh_runner_scaler.Prelude.{
  ◌≡◌, refl, ◌⊎◌, inl, inr, Bool, true, false, ◌&&◌, ◌||◌, Option, none, some, List, [], ◌∷◌, ◌++◌,
  arith, nat_beq, if◌then◌else◌, Bool-cases, Option-cases, All, ◌==◌, beq_refl, nat_eq, Text,
  text_eq, contains,
}
use gh_runner_scaler.Prelude.Strings.{text}
use gh_runner_scaler.Prelude.Dict.{Dict, get}
use gh_runner_scaler.Domain.{running, status_beq, Container, WebhookEvent}
use gh_runner_scaler.Daemon.Routing.{is_empty}
use gh_runner_scaler.Daemon.Shell.{shell_quote}

-- What a timer of the debouncer does when it runs out.
pub data Task : Type 0 where
  trigger_group : Text → Task
  sync_cache_repo : (repo branch cache_path : Text) → Task

unfoldable pub cache_sync_branch : WebhookEvent → Option Text
cache_sync_branch event =
    if is_empty event.default_branch
    then none
    else if event.ref == text "refs/heads/" ++ event.default_branch
    then some event.default_branch
    else none

-- What follows the last slash, or all where there is none.
abbrev pub after_slash : Text → Text
after_slash [] = []
after_slash (c ∷ s) =
    let rest = after_slash s in
    if contains b'/' s then rest else if nat_beq c b'/' then s else c ∷ s

-- The key and the task that the push schedules, if it is one to a tracked branch.
unfoldable pub handle_push_event : Dict Text Text → WebhookEvent → Option (Text × Task)
unfolding cache_sync_branch
handle_push_event sync_repos event = elim (cache_sync_branch event) [
  | none ↦ none
  | some branch ↦ elim (get event.repo sync_repos) [
    | none ↦ none
    | some cache_path ↦
        some (text "sync-" ++ after_slash event.repo, sync_cache_repo event.repo branch cache_path)
  ]
]

-- The loop over the containers, with the target so far.
abbrev pub choose_target : Text → List Container → Text
choose_target target [] = target
choose_target target (c ∷ cs) =
    let rest = choose_target target cs in
    let first = choose_target c.name cs in
    if status_beq c.status running
    then (if c.name == text "gh-runner" then c.name else if is_empty target then first else rest)
    else rest

unfoldable pub sync_target : List Container → Text
sync_target containers = choose_target [] containers

abbrev pub script : Text → Text → Text
script branch cache_path =
    text "set -eu\ngit config --global --add safe.directory "
    ++ (shell_quote cache_path
        ++ (text "\ngit -C "
            ++ (shell_quote cache_path
                ++ (text " fetch --prune origin "
                    ++ (shell_quote branch
                        ++ (text "\ngit -C "
                            ++ (shell_quote cache_path ++ text " reset --hard FETCH_HEAD")))))))

abbrev pub command_in : Text → Text → Text → Option (Text × List Text)
command_in [] branch cache_path = none
command_in (c ∷ target) branch cache_path =
    some (c ∷ target, text "bash" ∷ text "-c" ∷ script branch cache_path ∷ [])

-- The command that the sync runs and the container it runs in; `none` is a failed listing.
unfoldable pub sync_command : Option (List Container) → Text → Text → Option (Text × List Text)
sync_command none branch cache_path = none
sync_command (some containers) branch cache_path =
    command_in (sync_target containers) branch cache_path

-- Whether a running container has the name.
abbrev pub runs : Text → List Container → Bool
runs name [] = false
runs name (c ∷ cs) = (status_beq c.status running && c.name == name) || runs name cs

abbrev pub some_runs : List Container → Bool
some_runs [] = false
some_runs (c ∷ cs) = status_beq c.status running || some_runs cs

abbrev pub IsNamed : Container → Type 0
IsNamed c = is_empty c.name ≡ false

choose_target-runs :
    (target : Text) (cs : List Container)
    → (choose_target target cs ≡ target) ⊎ (runs (choose_target target cs) cs ≡ true)
choose_target-runs target [] = inl refl
choose_target-runs target (c ∷ cs) =
    ground (arith, choose_target-runs target cs, choose_target-runs c.name cs, beq_refl c.name)

choose_target-prefers :
    (target : Text) (cs : List Container)
    → runs (text "gh-runner") cs ≡ true
    → choose_target target cs ≡ text "gh-runner"
choose_target-prefers target [] h = ground arith
choose_target-prefers target (c ∷ cs) h = ground (
  arith,
  choose_target-prefers target cs,
  choose_target-prefers c.name cs,
  text_eq.beq_iff c.name (text "gh-runner"),
)

choose_target-nonempty :
    (target : Text) (cs : List Container)
    → All IsNamed cs
    → ((is_empty target ≡ false) ⊎ (some_runs cs ≡ true))
    → is_empty (choose_target target cs) ≡ false
choose_target-nonempty target [] n h = ground arith
choose_target-nonempty target (c ∷ cs) n h =
    ground (arith, choose_target-nonempty target cs n.1, choose_target-nonempty c.name cs n.1, n.0)

-- Among containers with names, the sync runs in a running one whenever there is one, in the
-- permanent runner whenever that runs, and nowhere otherwise.
pub sync_target_lem :
    (cs : List Container)
    → All IsNamed cs
    → ((sync_target cs ≡ []) ⊎ (runs (sync_target cs) cs ≡ true))
      × (some_runs cs ≡ true → is_empty (sync_target cs) ≡ false)
      × (runs (text "gh-runner") cs ≡ true → sync_target cs ≡ text "gh-runner")
unfolding sync_target
sync_target_lem cs n = (
  choose_target-runs [] cs,
  λ h. choose_target-nonempty [] cs n (inr h),
  choose_target-prefers [] cs,
)

-- A push to the default branch, known, of a repository on the list.
pub record IsTracked (sync_repos : Dict Text Text) (event : WebhookEvent) (path : Text)
    : Type 0 where
  pub known : is_empty event.default_branch ≡ false
  pub to_default : event.ref ≡ text "refs/heads/" ++ event.default_branch
  pub listed : get event.repo sync_repos ≡ some path

-- A push to the default branch of a repository on the list schedules a sync of its repository, its
-- default branch and the path on the list, and any other push schedules nothing.
pub handle_push_event_lem :
    (sync_repos : Dict Text Text) (event : WebhookEvent)
    → ((path : Text)
        → IsTracked sync_repos event path
        → handle_push_event sync_repos event
          ≡ some (
            text "sync-" ++ after_slash event.repo,
            sync_cache_repo event.repo event.default_branch path,
          ))
      × (((path : Text) × IsTracked sync_repos event path)
          ⊎ (handle_push_event sync_repos event ≡ none))
unfolding handle_push_event cache_sync_branch
handle_push_event_lem sync_repos event = (
  λ path t. ground (
    arith,
    t.known,
    t.to_default,
    t.listed,
    text_eq.beq_iff event.ref (text "refs/heads/" ++ event.default_branch),
  ),
  elim (Bool-cases (is_empty event.default_branch)) [
    | inl blank ↦ inr (ground (arith, blank))
    | inr known ↦ elim (Bool-cases (event.ref == text "refs/heads/" ++ event.default_branch)) [
      | inr other ↦ inr (ground (arith, known, other))
      | inl to_default ↦ elim (Option-cases (get event.repo sync_repos)) [
        | inl missing ↦ inr (ground (arith, known, to_default, missing))
        | inr (path, listed) ↦ inl (
          path,
          record {
            known = known;
            to_default =
                (text_eq.beq_iff event.ref (text "refs/heads/" ++ event.default_branch)).0
                  to_default;
            listed = listed;
          },
        )
      ]
    ]
  ],
)
