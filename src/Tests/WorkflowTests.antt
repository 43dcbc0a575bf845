-- ===== src/Tests/WorkflowTests.antt =====
-- Listings, workflow runs and their delivery at concrete inputs.
use gh_runner_scaler.Prelude.{
  ℕ, ◌≡◌, refl, ◌⊎◌, Bool, true, false, Option, none, some, List, [], ◌∷◌, arith, nat_beq,
  if◌then◌else◌, take, nat_eq, text_eq,
}
use gh_runner_scaler.Prelude.Strings.{text, trim_space, has_prefix, contains_text, cut}
use gh_runner_scaler.Config.Target.{validate_repo_full_name}
use gh_runner_scaler.Daemon.SeenCache.{new_seen_cache, filter_new}
use gh_runner_scaler.Github.Pages.{Page, fetched, refused, all_pages, limited_pages}
use gh_runner_scaler.Github.Pages.Limits.{HasLastPage, limited_pages_lem}
use gh_runner_scaler.Github.Repos.{Target, metric_repo_name, api_repo_name}
use gh_runner_scaler.Github.Repos.Rounds.{batch_of}
use gh_runner_scaler.Github.Repos.Shared.{shared_cursor_starves}
use gh_runner_scaler.Github.Workflows.{WorkflowApi, WorkflowMetrics, new_for_repo}
use gh_runner_scaler.Github.Workflows.Names.{new_for_repo-api_repo_name}
use gh_runner_scaler.Daemon.Workflows.{visit_group, workflow_metric_key}
use gh_runner_scaler.Daemon.Workflows.Delivery.{keys, github_visit, pushed_keys, visit_group_once}

-- Four repositories in batches of two: every second batch is the first one again.
shared_cursor_starves_example :
    batch_of 2 (text "a" ∷ text "b" ∷ text "c" ∷ text "d" ∷ []) 1 6
    ≡ batch_of 2 (text "a" ∷ text "b" ∷ text "c" ∷ text "d" ∷ []) 1 0
shared_cursor_starves_example =
    shared_cursor_starves 2 1 2 3 (text "a" ∷ text "b" ∷ text "c" ∷ text "d" ∷ []) (omega arith)
      (omega arith) refl

-- Two pages, the second one with number 2.
abbrev pages : ℕ → Option (Page ℕ)
pages number =
    if nat_beq number 0
    then some (record { items = 10 ∷ 11 ∷ []; next_page = 2 })
    else if nat_beq number 2
    then some (record { items = 12 ∷ 13 ∷ []; next_page = 0 })
    else none

pages-HasLastPage : HasLastPage pages 2
unfolding HasLastPage
pages-HasLastPage number p e = ground (arith, e)

limited_pages_lem_example :
    (all_pages pages 3 0 ≡ refused)
    ⊎ ((whole : List ℕ) × (all_pages pages 3 0 ≡ fetched whole)
        × (limited_pages pages 3 3 0 [] ≡ fetched (take 3 whole)))
limited_pages_lem_example =
    limited_pages_lem pages 2 3 3 pages-HasLastPage (omega arith) (omega arith)

new_for_repo-api_repo_name_example :
    (t : Target) × (new_for_repo (text "o/app") ≡ some t)
    × (metric_repo_name t t.repo ≡ text "o/app")
    × (api_repo_name t (text "o/app") ≡ t.repo)
unfolding validate_repo_full_name trim_space cut contains_text has_prefix
new_for_repo-api_repo_name_example = new_for_repo-api_repo_name (text "ci") (text "o/app") refl refl

abbrev run : ℕ → WorkflowMetrics
run id = record {
  run_id = id;
  run_attempt = 1;
  repo = text "app";
  workflow = text "test";
  conclusion = text "failure";
  duration_s = 5;
  run_number = 1;
  event = text "push";
  branch = text "main";
  completed_at = 100;
  failed_job = [];
  failed_step = [];
  failure_reason = [];
}

abbrev api : WorkflowApi
api = record { runs = λ repo page. none; jobs = λ repo run attempt page. none; fuel = 3 }

abbrev org : Target
org = record { org = text "o"; repo = [] }

abbrev listed : List WorkflowMetrics
listed = run 7 ∷ run 8 ∷ run 7 ∷ []

visit_group_once_example :
    ((push : Bool)
      → pushed_keys
          (visit_group (github_visit org api true (some listed) push) (new_seen_cache 10)).0
        ≡ keys (filter_new workflow_metric_key (new_seen_cache 10) listed))
    × ((visit_group
          (github_visit org api true (some listed) true)
          (visit_group (github_visit org api true (some listed) true) (new_seen_cache 10)).1).0
        ≡ none)
    × ((visit_group (github_visit org api true (some listed) false) (new_seen_cache 10)).1
        ≡ new_seen_cache 10)
unfolding new_seen_cache
visit_group_once_example = visit_group_once org api true listed (new_seen_cache 10) (omega arith)
