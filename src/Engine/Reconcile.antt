-- ===== src/Engine/Reconcile.antt =====
-- internal/engine/reconciler.go: Reconcile, ReconcileDemand and the scale-up loop.
pub mod Bounds
pub mod ZeroDemand
use gh_runner_scaler.Prelude.{
  ℕ, zero, suc, ◌+◌, ◌-◌, Option, none, some, List, [], ◌∷◌, ◌++◌, ltb, if◌then◌else◌, length,
  nat_eq, Text, text_eq, contains,
}
use gh_runner_scaler.Prelude.Strings.{text}
use gh_runner_scaler.Engine.Calls.{
  Env, M, ◌>>=◌, ◌>>◌, pure, on_reply, ask_runners, ask_containers, ask_status, ask_clock,
}
use gh_runner_scaler.Domain.{running, unknown, Container, Runner, CapacityDemand}
use gh_runner_scaler.Engine.Labels.{available_runner_count_for_labels}
use gh_runner_scaler.Engine.Settings.{ReconcilerConfig}
use gh_runner_scaler.Engine.Provision.{scale_up}
use gh_runner_scaler.Engine.Teardown.{new_pass}
use gh_runner_scaler.Engine.Baseline.{ensure_baseline}
use gh_runner_scaler.Engine.Visit.{visit_all}

-- The containers whose names are not in `removed`.
unfoldable pub filter_removed_containers : List Container → List Text → List Container
filter_removed_containers [] removed = []
filter_removed_containers (c ∷ cs) removed =
    if contains c.name removed
    then filter_removed_containers cs removed
    else c ∷ filter_removed_containers cs removed

-- How the scale-up loop ended.
pub record ScaleUps : Type 0 where
  pub auto_count : ℕ
  pub needed : ℕ
  pub containers : List Container

module _ (env : Env) (cfg : ReconcilerConfig) where
  unfoldable pub refresh_container_statuses : List Container → M (List Container)
  refresh_container_statuses [] = pure []
  refresh_container_statuses (c ∷ cs) = do
    reply ← ask_status env c.name
    rest ← refresh_container_statuses cs
    on_reply reply (λ _. pure (record c { status = unknown } ∷ rest))
        (λ s. pure (record c { status = s } ∷ rest))

  -- The loop `for needed > 0 && autoCount < MaxAutoRunners`.
  unfoldable pub scale_up_loop : ℕ → ℕ → List Text → List Container → M ScaleUps
  scale_up_loop zero auto removed containers =
      pure (record { auto_count = auto; needed = 0; containers = containers })
  scale_up_loop (suc needed) auto removed containers =
      if ltb auto cfg.max_auto_runners
      then (do
        result ← scale_up env cfg (filter_removed_containers containers removed)
        on_reply result
            (λ _. pure (record { auto_count = auto; needed = suc needed; containers = containers }))
            (λ name.
              scale_up_loop needed (auto + 1) removed
                (containers ++ record { name = name; status = running } ∷ [])))
      else pure (record { auto_count = auto; needed = suc needed; containers = containers })

  pub baseline_pending : List Runner → M ℕ
  baseline_pending runners =
      if cfg.baseline
      then (do
        pending ← ensure_baseline env cfg runners
        on_reply pending (λ _. pure 0) (λ n. pure n))
      else pure 0

  pub refresh_unless_available : ℕ → List Container → M (List Container)
  refresh_unless_available zero containers = refresh_container_statuses containers
  refresh_unless_available (suc n) containers = pure containers

  -- From the listing of the containers on. The difference of the code's integers is positive
  -- exactly when this truncated one is, and then they are equal.
  pub scale_pass : CapacityDemand → List Runner → ℕ → List Container → M (Unit {0})
  scale_pass demand runners pending listed = do
    let available = available_runner_count_for_labels runners cfg.labels
    containers ← refresh_unless_available available listed
    now ← ask_clock env
    p ←
        visit_all env cfg runners available now containers (record {
          auto_count = length listed;
          removed = [];
          pending_capacity = 0;
          pass = new_pass;
        })
    scale_up_loop (demand.queued_jobs - (available + p.pending_capacity + pending)) p.auto_count
        p.removed containers
    pure tt

  unfoldable pub reconcile_demand : CapacityDemand → M (Option Text)
  reconcile_demand demand = do
    reply ← ask_runners env
    on_reply reply (λ e. pure (some (text "listing runners: " ++ e)))
        (λ runners. do
          pending ← baseline_pending runners
          listed ← ask_containers env cfg.prefix
          on_reply listed (λ e. pure (some (text "listing containers: " ++ e)))
              (λ containers. do scale_pass demand runners pending containers; pure none))

  unfoldable pub reconcile : M (Option Text)
  reconcile = reconcile_demand (record { queued_jobs = 1; oldest_age = 0 })
