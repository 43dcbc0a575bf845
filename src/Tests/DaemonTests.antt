-- ===== src/Tests/DaemonTests.antt =====
-- The daemon at concrete inputs.
use gh_runner_scaler.Prelude.{
  ℕ, ◌+◌, ◌<◌, ◌≡◌, refl, ◌↔◌, ◌⊎◌, true, false, some, List, [], ◌∷◌, ◌++◌, map, arith, filter, All,
  ◌==◌, nat_eq, Text, text_eq,
}
use gh_runner_scaler.Prelude.Dict.{delete}
use gh_runner_scaler.Daemon.Sync.{trigger_group}
use gh_runner_scaler.Daemon.Routing.Matching.{Serves, HasLabels}
use gh_runner_scaler.Daemon.Handler.Dispatch.{scheduled, recorded, IsDemand, dispatch-reaches}
use gh_runner_scaler.Daemon.Debounce.{
  Timers, schedule, fire, finish, stay, after, schedule_other, fire_older, fire_last,
  schedule-finish_loses,
}
use gh_runner_scaler.Prelude.Strings.{text, to_lower, trim_space, cut}
use gh_runner_scaler.Domain.{running, Container, Runner, WebhookEvent, event_job_queued}
use gh_runner_scaler.Daemon.Routing.{
  RunnerGroup, is_empty, group_matches_repo, labels_match, groups_for_repo, groups_for_event,
}
use gh_runner_scaler.Daemon.Routing.Groups.{Reached, groups_for_event_lem}
use gh_runner_scaler.Daemon.Shell.{outside, shell_quote, shell_word, shell_word-shell_quote}
use gh_runner_scaler.Daemon.Handler.{
  Request, Provider, parsed, Config, handle_webhook, handle_parsed, dispatch,
  authorize_logs_request,
}
use gh_runner_scaler.Daemon.Handler.Access.{
  IsAuthentic, handle_webhook-IsAuthentic, authorize_logs_request_iff,
}
use gh_runner_scaler.Daemon.SeenCache.{
  SeenCache, new_seen_cache, fresh_items, filter_new, mark_delivered, load, persisted,
}
use gh_runner_scaler.Daemon.SeenCache.Delivery.{IsValid, filter_new-mark_delivered}
use gh_runner_scaler.Domain.{running, Container, Runner}

abbrev group_a : RunnerGroup
group_a = record {
  id = text "a";
  target = text "Org";
  repo_scoped = false;
  prefix = text "auto";
  match_labels = text "x64" ∷ [];
  baseline_name = [];
  cache_pool = [];
}

abbrev group_b : RunnerGroup
group_b = record group_a { id = text "b"; match_labels = text "arm" ∷ [] }

abbrev event : WebhookEvent
event = record {
  kind = event_job_queued;
  event_type = text "workflow_job";
  action = text "queued";
  repo = text "org/app";
  ref = text "refs/heads/main";
  default_branch = text "main";
  branch = [];
  commit = [];
  workflow = [];
  job = [];
  job_id = 7;
  runner = [];
  status = [];
  conclusion = [];
  run_id = 0;
  run_attempt = 0;
  detail = [];
  labels = text " X64" ∷ [];
}

abbrev groups : List RunnerGroup
groups = group_a ∷ group_b ∷ []

abbrev cfg : Config
cfg = record {
  groups = groups;
  has_demand = true;
  sync_repos = (text "org/app", text "/cache") ∷ [];
  logs_token = text "secret";
}

abbrev ci : Provider
ci = record {
  is_valid_signature = λ body signature. body == signature;
  parse = λ kind body. parsed event;
}

abbrev request : Request
request = record {
  path = text "/";
  method = text "POST";
  body_fails = false;
  body = text "{}";
  signature = text "{}";
  event = text "workflow_job";
}

abbrev clock : ℕ → ℕ
clock n = 100 + n

groups_for_event_test : groups_for_event groups (some event) ≡ group_a ∷ []
unfolding groups_for_event groups_for_repo trim_space group_matches_repo to_lower cut labels_match
groups_for_event_test = refl

groups_for_event_lem_example :
    ((g : RunnerGroup) → (group_matches_repo g (text "org/app") ≡ true) ↔ Serves g (text "org/app"))
    × ((g : RunnerGroup)
        → (labels_match (text " X64" ∷ []) g.match_labels ≡ true)
          ↔ HasLabels (text " X64" ∷ []) g.match_labels)
    × All (λ g. Serves g (text "org/app")) (groups_for_event groups (some event))
    × Reached
        (λ g. labels_match (text " X64" ∷ []) g.match_labels)
        (filter (λ g. group_matches_repo g (text "org/app")) groups)
        (groups_for_event groups (some event))
groups_for_event_lem_example = groups_for_event_lem groups event

shell_word-shell_quote_example :
    shell_word outside (shell_quote (text "a'; rm -rf $x")) ≡ some (text "a'; rm -rf $x")
shell_word-shell_quote_example = shell_word-shell_quote (text "a'; rm -rf $x")

abbrev containers : List Container
containers =
    record { name = text "auto-1"; status = running }
    ∷ record { name = text "gh-runner"; status = running }
    ∷ []

handle_webhook-IsAuthentic_example :
    (IsAuthentic ci request
      × (handle_webhook cfg ci clock request
          ≡ (200, handle_parsed cfg clock (text "workflow_job") (parsed event))))
    ⊎ (((handle_webhook cfg ci clock request).1 ≡ [])
        × ((handle_webhook cfg ci clock request).0 ≡ 200
            → (text "/" ≡ text "/") × (text "POST" ≡ text "GET")))
handle_webhook-IsAuthentic_example = handle_webhook-IsAuthentic cfg ci clock request

authorize_logs_request_iff_example :
    (authorize_logs_request (text "secret") (text "Bearer secret ") ≡ true) ↔ (
      (is_empty (trim_space (text "secret")) ≡ false)
      × (trim_space (text "Bearer secret ") ≡ text "Bearer " ++ trim_space (text "secret")))
authorize_logs_request_iff_example =
    authorize_logs_request_iff (text "secret") (text "Bearer secret ")

dispatch-reaches_example :
    let reached = groups_for_event groups (some event) in
    (scheduled (dispatch cfg clock event)
      ≡ map (λ g. (text "scaler-" ++ g.id, trigger_group g.id)) reached)
    × (recorded (dispatch cfg clock event) ≡ [])
    × IsDemand true event reached (dispatch cfg clock event)
dispatch-reaches_example = dispatch-reaches cfg clock event ((λ e. cc), (λ e. cc))

abbrev some_timers : Timers
some_timers = (text "b", 3) ∷ []

-- Another key is scheduled, and the timer of an earlier call runs out.
abbrev earlier_timers : Timers
earlier_timers = (text "a", 1) ∷ (text "b", 3) ∷ []

abbrev later_timers : Timers
later_timers = (fire (text "a") 1 (schedule (text "b") (schedule (text "a") earlier_timers).0).0).1

older : 1 < (schedule (text "a") earlier_timers).1
unfolding schedule
older = omega arith

fire_last_example :
    ((fire (text "a") (schedule (text "a") earlier_timers).1 later_timers).0 ≡ true)
    × ((fire (text "a") (schedule (text "a") earlier_timers).1 later_timers).1
        ≡ delete (text "a") later_timers)
    × ((smaller : ℕ)
        → smaller < (schedule (text "a") earlier_timers).1
        → (fire (text "a") smaller later_timers ≡ (false, later_timers))
          × (finish (text "a") smaller later_timers ≡ later_timers))
fire_last_example =
    fire_last (text "a") earlier_timers later_timers
      (after (after stay (schedule_other (text "b") (λ e. ground (arith, e)))) (fire_older 1 older))

schedule-finish_loses_example :
    let first = schedule (text "a") some_timers in
    let running = (fire (text "a") first.1 first.0).1 in
    let second = schedule (text "a") running in
    (fire (text "a") second.1 (finish (text "a") first.1 second.0)).0 ≡ false
schedule-finish_loses_example = schedule-finish_loses (text "a") some_timers (refl, tt) refl

abbrev key : Text → Text
key t = t

abbrev items : List Text
items = text "x" ∷ text "y" ∷ text "x" ∷ []

abbrev seen : SeenCache
seen = record { limit = 5; keys = text "y" ∷ []; order = text "y" ∷ [] }

seen-IsValid : IsValid seen
seen-IsValid = record {
  synced = record { same = λ k. refl; unique = (refl, tt) };
  bounded = omega arith;
}

filter_new_test : filter_new key seen items ≡ text "x" ∷ []
unfolding filter_new fresh_items
filter_new_test = refl

filter_new-mark_delivered_example :
    (filter_new key (mark_delivered key items seen) items ≡ [])
    × (filter_new key
          (load (some (persisted (mark_delivered key items seen))) (new_seen_cache 5))
          items
        ≡ [])
filter_new-mark_delivered_example =
    filter_new-mark_delivered key items seen seen-IsValid (omega arith)

abbrev runners : List Runner
runners =
    record {
      id = 5;
      name = text "auto-1";
      status = text "online";
      busy = true;
      labels = [];
      is_auto = true;
    }
    ∷ []
