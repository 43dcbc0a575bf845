-- ===== src/Daemon/Handler.antt =====
-- internal/daemon/webhook.go: handleWebhook and authorizeLogsRequest. The provider checks the
-- signature and parses the payload; a reading of the clock is asked for by its number.
pub mod Access
pub mod Dispatch
use gh_runner_scaler.Prelude.{
  ℕ, ◌+◌, ◌^◌, Bool, true, false, not, ◌||◌, Option, none, some, List, [], ◌∷◌, ◌++◌, ltb,
  if◌then◌else◌, length, drop, ◌==◌, nat_eq, Text, text_eq,
}
use gh_runner_scaler.Prelude.Strings.{text, trim_space, has_prefix}
use gh_runner_scaler.Prelude.Dict.{Dict}
use gh_runner_scaler.Domain.{
  QueuedJob, WebhookEvent, WebhookEventType, event_unknown, event_job_queued, event_push,
}
use gh_runner_scaler.Daemon.Routing.{RunnerGroup, is_empty, groups_for_event}
use gh_runner_scaler.Daemon.Sync.{Task, trigger_group, handle_push_event}

pub record Request : Type 0 where
  pub path : Text
  pub method : Text
  pub body_fails : Bool
  pub body : Text
  pub signature : Text
  pub event : Text

pub data Parsed : Type 0 where
  parse_error ignored : Parsed
  parsed : WebhookEvent → Parsed

-- ValidateWebhookPayload and ParseWebhookEvent of the provider.
pub record Provider : Type 0 where
  pub is_valid_signature : Text → Text → Bool
  pub parse : Text → Text → Parsed

-- What a request makes the daemon do, in order.
pub data Action : Type 0 where
  record_webhook : Text → Action
  queue_demand : Text → QueuedJob → Action
  clear_demand : Text → ℕ → Action
  schedule : Text → Task → Action

pub record Config : Type 0 where
  pub groups : List RunnerGroup
  pub has_demand : Bool
  pub sync_repos : Dict Text Text
  pub logs_token : Text

abbrev pub max_webhook_body_bytes : ℕ
max_webhook_body_bytes = 2 ^ 20

abbrev pub queued_job : ℕ → WebhookEvent → QueuedJob
queued_job now event = record {
  id = event.job_id;
  repo = event.repo;
  labels = event.labels;
  queued_at = now;
}

-- The demand of one group: a queued event adds the job, the two other job events remove it.
abbrev pub demand_action : Bool → ℕ → Text → WebhookEvent → List Action
demand_action false now group event = []
demand_action true now group event = elim event.kind [
  | WebhookEventType.event_job_queued ↦ queue_demand group (queued_job now event) ∷ []
  | _ ↦ clear_demand group event.job_id ∷ []
]

-- The loop over the groups; reading `n` of the clock is the next one.
unfoldable pub job_actions : Bool → (ℕ → ℕ) → ℕ → WebhookEvent → List RunnerGroup → List Action
job_actions has_demand clock n event [] = []
job_actions has_demand clock n event (g ∷ gs) =
    demand_action has_demand (clock n) g.id event
    ++ schedule (text "scaler-" ++ g.id) (trigger_group g.id)
      ∷ job_actions has_demand clock (n + 1) event gs

abbrev pub push_actions : Option (Text × Task) → List Action
push_actions none = []
push_actions (some (key, task)) = schedule key task ∷ []

unfoldable pub dispatch : Config → (ℕ → ℕ) → WebhookEvent → List Action
dispatch cfg clock event =
    let for_groups =
      job_actions cfg.has_demand clock 0 event (groups_for_event cfg.groups (some event)) in
    let for_push = push_actions (handle_push_event cfg.sync_repos event) in
    elim event.kind [
      | WebhookEventType.event_unknown ↦ []
      | WebhookEventType.event_push ↦ for_push
      | _ ↦ for_groups
    ]

abbrev pub handle_parsed : Config → (ℕ → ℕ) → Text → Parsed → List Action
handle_parsed cfg clock event_type parse_error = []
handle_parsed cfg clock event_type ignored = record_webhook event_type ∷ []
handle_parsed cfg clock event_type (parsed event) =
    record_webhook event_type ∷ dispatch cfg clock event

-- The status code of the answer and what was done.
unfoldable pub handle_webhook : Config → Provider → (ℕ → ℕ) → Request → ℕ × List Action
handle_webhook cfg ci clock r =
    let actions = handle_parsed cfg clock r.event (ci.parse r.event r.body) in
    if not (r.path == text "/")
    then (404, [])
    else if r.method == text "GET"
    then (200, [])
    else if not (r.method == text "POST")
    then (405, [])
    else if r.body_fails || ltb max_webhook_body_bytes (length r.body)
    then (400, [])
    else if not (ci.is_valid_signature r.body r.signature)
    then (401, [])
    else (200, actions)

-- The request for logs bears the token that is configured; without one nobody is let in.
unfoldable pub authorize_logs_request : Text → Text → Bool
authorize_logs_request logs_token authorization =
    let token = trim_space logs_token in
    let auth = trim_space authorization in
    if is_empty token
    then false
    else if not (has_prefix auth (text "Bearer "))
    then false
    else drop 7 auth == token
