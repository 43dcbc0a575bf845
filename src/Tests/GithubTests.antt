-- ===== src/Tests/GithubTests.antt =====
-- The GitHub provider at concrete inputs.
use gh_runner_scaler.Prelude.{
  ℕ, ◌≤◌, ◌<◌, ◌≡◌, refl, ◌⊎◌, true, false, none, some, List, [], ◌∷◌, ◌++◌, Any, nat_eq, Text,
  text_eq,
}
use gh_runner_scaler.Prelude.Strings.{text}
use gh_runner_scaler.Domain.{Runner}
use gh_runner_scaler.Daemon.Handler.{Request, Config, handle_webhook}
use gh_runner_scaler.Github.Inventory.{
  empty_cache, Settings, annotate_runners, runner_inventory_meta, cached_runners,
  store_runner_cache, invalidate_runner_cache,
}
use gh_runner_scaler.Github.Inventory.Freshness.{
  World, started, fetch_begins, fetch_stores, runner_deleted, begun, stored, changed,
  cached_runners-fresh,
}
use gh_runner_scaler.Github.Tokens.{Tokens}
use gh_runner_scaler.Github.Repos.Rounds.{batch_of, holds, workflow_repo_batch_reaches}
use gh_runner_scaler.Github.Webhooks.{Crypto, provider}
use gh_runner_scaler.Github.Webhooks.Access.{IsSigned, handle_webhook-IsSigned}
use gh_runner_scaler.Github.Failures.{Job, hydrate_workflow_failure_details}
use gh_runner_scaler.Github.Failures.Culprit.{Fails, IsCulprit, hydrate_lem}

abbrev runner : Runner
runner = record {
  id = 1;
  name = text "auto-1";
  status = text "online";
  busy = false;
  labels = [];
  is_auto = false;
}

abbrev settings : Settings
settings = record { prefix = text "auto"; runner_cache_ttl = 30; runner_stale_ttl = 90 }

abbrev start : World
start = record {
  cache = empty_cache;
  fetches = [];
  steps = 0;
  last_change = 0;
  origin = 0;
  under_way = false;
}

-- A runner is deleted, and a fetch that begins then is stored.
abbrev refetched : World
refetched =
    stored (runner ∷ []) 100 (record { generation = 1; began = 1 })
      (begun (changed invalidate_runner_cache start))

cached_runners-fresh_example :
    (refetched.last_change ≤ refetched.origin)
    × ((annotate_runners (text "auto") refetched.cache.runners)
        ≡ annotate_runners (text "auto") refetched.cache.runners)
    × (true ≡ false → refetched.under_way ≡ false)
unfolding cached_runners store_runner_cache invalidate_runner_cache
cached_runners-fresh_example =
    cached_runners-fresh settings 110 true refetched
      (annotate_runners (text "auto") refetched.cache.runners, runner_inventory_meta 100 110 false)
      (fetch_stores 0 (record { generation = 1; began = 1 }) (runner ∷ []) 100
        (fetch_begins (runner_deleted started)) refl)
      refl

abbrev tokens : Tokens
tokens = record {
  token = record { value = text "old"; expires_at = 1000 };
  inventory = empty_cache;
}

abbrev repos : List Text
repos = text "a" ∷ text "b" ∷ text "c" ∷ []

workflow_repo_batch_reaches_example :
    (rounds : ℕ) × (rounds < 3) × (holds (text "b") (batch_of 2 repos 2 rounds) ≡ true)
workflow_repo_batch_reaches_example = workflow_repo_batch_reaches 2 2 repos (text "b") refl

-- A keyed hash that is not one.
abbrev crypto : Crypto
crypto = record {
  hmac_sha256 = λ key payload. key ++ payload;
  decode_workflow_job = λ payload. none;
  decode_push = λ payload. none;
}

abbrev request : Request
request = record {
  path = text "/";
  method = text "POST";
  event = text "push";
  signature = text "sha256=kbody";
  body_fails = false;
  body = text "body";
}

abbrev cfg : Config
cfg = record { groups = []; has_demand = true; sync_repos = []; logs_token = [] }

handle_webhook-IsSigned_example :
    ((text "POST" ≡ text "POST")
      × IsSigned crypto (some (text "k")) (text "body") (text "sha256=kbody"))
    ⊎ ((handle_webhook cfg (provider crypto (some (text "k"))) (λ n. n) request).1 ≡ [])
handle_webhook-IsSigned_example =
    handle_webhook-IsSigned cfg crypto (some (text "k")) (λ n. n) request

abbrev job : Text → Text → ℕ → Job
job name conclusion at = record {
  name = name;
  conclusion = conclusion;
  started_at = at;
  created_at = 0;
  completed_at = 0;
  steps = record { name = text "test"; conclusion = conclusion } ∷ [];
}

abbrev jobs : List Job
jobs =
    job (text "late") (text "failure") 30
    ∷ job (text "fine") (text "success") 10
    ∷ job (text "early") (text "failure") 20
    ∷ []

hydrate_lem_example :
    (Any (λ j. Fails j.conclusion) jobs
      × IsCulprit jobs (hydrate_workflow_failure_details (text "failure") (some jobs)).0)
    ⊎ (¬ Any (λ j. Fails j.conclusion) jobs
        × ((hydrate_workflow_failure_details (text "failure") (some jobs)).0
            ≡ record { job = []; step = []; reason = text "failure" }))
hydrate_lem_example = hydrate_lem (text "failure") jobs
