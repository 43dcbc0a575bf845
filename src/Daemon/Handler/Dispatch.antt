-- ===== src/Daemon/Handler/Dispatch.antt =====
-- internal/daemon/webhook.go: what a job event does, down to the demand on record.
use gh_runner_scaler.Prelude.{
  ℕ, ◌+◌, ◌≡◌, refl, ◌≢◌, ◌⊎◌, Bool, true, false, some, List, [], ◌∷◌, ◌++◌, map, arith, nat_eq,
  Text, text_eq,
}
use gh_runner_scaler.Prelude.Strings.{text}
use gh_runner_scaler.Domain.{WebhookEvent, event_unknown, event_push, event_job_queued}
use gh_runner_scaler.Daemon.Routing.{RunnerGroup, groups_for_event}
use gh_runner_scaler.Daemon.Sync.{Task, trigger_group}
use gh_runner_scaler.Daemon.Handler.{
  Action, record_webhook, queue_demand, clear_demand, schedule, Config, job_actions, dispatch,
}

-- What is scheduled, with the keys, in order.
abbrev pub scheduled : List Action → List (Text × Task)
scheduled [] = []
scheduled (schedule key task ∷ actions) = (key, task) ∷ scheduled actions
scheduled (_ ∷ actions) = scheduled actions

-- The jobs that are queued, without the times, in order.
abbrev pub queued : List Action → List (Text × ℕ × Text × List Text)
queued [] = []
queued (queue_demand g job ∷ actions) = (g, job.id, job.repo, job.labels) ∷ queued actions
queued (_ ∷ actions) = queued actions

-- The jobs that are cleared, in order.
abbrev pub cleared : List Action → List (Text × ℕ)
cleared [] = []
cleared (clear_demand g id ∷ actions) = (g, id) ∷ cleared actions
cleared (_ ∷ actions) = cleared actions

abbrev pub recorded : List Action → List Text
recorded [] = []
recorded (record_webhook kind ∷ actions) = kind ∷ recorded actions
recorded (_ ∷ actions) = recorded actions

-- The demand that a job event asks for with the groups that it reaches.
abbrev pub IsDemand : Bool → WebhookEvent → List RunnerGroup → List Action → Type 0
IsDemand has_demand event reached actions =
    ((has_demand ≡ true)
      × (event.kind ≡ event_job_queued)
      × (queued actions ≡ map (λ g. (g.id, event.job_id, event.repo, event.labels)) reached)
      × (cleared actions ≡ []))
    ⊎ ((has_demand ≡ true)
        × (event.kind ≢ event_job_queued)
        × (queued actions ≡ [])
        × (cleared actions ≡ map (λ g. (g.id, event.job_id)) reached))
    ⊎ ((has_demand ≡ false) × (queued actions ≡ []) × (cleared actions ≡ []))

abbrev pub IsJobEvent : WebhookEvent → Type 0
IsJobEvent event = (event.kind ≢ event_unknown) × (event.kind ≢ event_push)

scheduled-job_actions :
    (has_demand : Bool) (clock : ℕ → ℕ) (n : ℕ) (event : WebhookEvent) (gs : List RunnerGroup)
    → (scheduled (job_actions has_demand clock n event gs)
        ≡ map (λ g. (text "scaler-" ++ g.id, trigger_group g.id)) gs)
      × (recorded (job_actions has_demand clock n event gs) ≡ [])
unfolding job_actions
scheduled-job_actions has_demand clock n event [] = (refl, refl)
scheduled-job_actions has_demand clock n event (g ∷ gs) =
    ground (arith, scheduled-job_actions has_demand clock (n + 1) event gs)

job_actions-IsDemand :
    (has_demand : Bool) (clock : ℕ → ℕ) (n : ℕ) (event : WebhookEvent) (gs : List RunnerGroup)
    → IsDemand has_demand event gs (job_actions has_demand clock n event gs)
unfolding job_actions
job_actions-IsDemand has_demand clock n event [] = ground arith
job_actions-IsDemand has_demand clock n event (g ∷ gs) =
    ground (arith, job_actions-IsDemand has_demand clock (n + 1) event gs)

-- A job event schedules, for each group that it reaches and in their order, a trigger of the group
-- under the key of the group, and nothing else. Where the daemon tracks demand, a queued job is
-- queued under exactly these groups, with its id, repository and labels, and nothing is cleared,
-- and for the other job events the job is cleared under exactly these groups and nothing is queued;
-- elsewhere the demand is left alone.
pub dispatch-reaches :
    (cfg : Config) (clock : ℕ → ℕ) (event : WebhookEvent)
    → IsJobEvent event
    → let reached = groups_for_event cfg.groups (some event) in
      (scheduled (dispatch cfg clock event)
        ≡ map (λ g. (text "scaler-" ++ g.id, trigger_group g.id)) reached)
      × (recorded (dispatch cfg clock event) ≡ [])
      × IsDemand cfg.has_demand event reached (dispatch cfg clock event)
unfolding dispatch
dispatch-reaches cfg clock event k =
    let reached = groups_for_event cfg.groups (some event) in
    let actions = job_actions cfg.has_demand clock 0 event reached in
    let triggers = scheduled-job_actions cfg.has_demand clock 0 event reached in
    let demand = job_actions-IsDemand cfg.has_demand clock 0 event reached in
    ground (arith, k.0, k.1, triggers, demand)
