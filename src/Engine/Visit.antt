-- ===== src/Engine/Visit.antt =====
-- internal/engine/reconciler.go: what ReconcileDemand does with one auto-scaled container, and the
-- loop over them.
pub mod Safety
pub mod Growth
use gh_runner_scaler.Prelude.{
  leb, ℕ, ◌+◌, ◌-◌, Bool, ◌&&◌, ◌||◌, Option, none, some, List, [], ◌∷◌, ltb, leb, if◌then◌else◌,
  nat_eq, Text, text_eq,
}
use gh_runner_scaler.Engine.Calls.{
  set_last_active, Env, M, ◌>>=◌, pure, on_reply, perform, ask_status, ask_last_active,
}
use gh_runner_scaler.Domain.{ContainerStatus, stopped, unknown, status_beq, Container, Runner}
use gh_runner_scaler.Engine.Labels.{
  find_runner, pending_availability_grace, pending_runner_capacity,
}
use gh_runner_scaler.Engine.Settings.{ReconcilerConfig}
use gh_runner_scaler.Engine.Teardown.{ReconcilePass, scale_down}

-- The variables of ReconcileDemand that the loop changes.
pub record Progress : Type 0 where
  pub auto_count : ℕ
  pub removed : List Text
  pub pending_capacity : ℕ
  pub pass : ReconcilePass

module _ (env : Env) (cfg : ReconcilerConfig) (runners : List Runner) where
  -- the closure handleScaleDown
  unfoldable pub handle_scale_down : Text → Progress → M Progress
  handle_scale_down name p = do
    (result, pass) ← scale_down env name runners p.pass
    pure (
        if result.deleted
        then record p { auto_count = p.auto_count - 1; removed = name ∷ p.removed; pass = pass }
        else record p { pass = pass })

  -- GetLastActive, and where it fails SetLastActive with the pass's time
  pub last_active_or : Text → ℕ → M ℕ
  last_active_or name now = do
    last ← ask_last_active env name
    on_reply last (λ _. perform env (set_last_active name now) >>= λ _. pure now) (λ t. pure t)

  pub visit_orphan : Text → ℕ → Progress → M Progress
  visit_orphan name now p = do
    last ← last_active_or name now
    (if ltb (now - last) (pending_availability_grace cfg.idle_timeout)
        then pure p
        else handle_scale_down name p)

  pub count_pending : Runner → ContainerStatus → ℕ → Progress → Progress
  count_pending runner status idle p =
      if pending_runner_capacity status runner cfg.labels idle
        (pending_availability_grace cfg.idle_timeout)
      then record p { pending_capacity = p.pending_capacity + 1 }
      else p

  pub visit_idle : Runner → Container → ℕ → Progress → M Progress
  visit_idle runner c now p = do
    last ← last_active_or c.name now
    (if leb cfg.idle_timeout (now - last)
        then handle_scale_down c.name (count_pending runner c.status (now - last) p)
        else pure (count_pending runner c.status (now - last) p))

  pub visit_registered : Option Runner → Container → ℕ → Progress → M Progress
  visit_registered none c now p = visit_orphan c.name now p
  visit_registered (some runner) c now p =
      if runner.busy
      then (perform env (set_last_active c.name now) >>= λ _. pure p)
      else visit_idle runner c now p

  -- The switch, once the status is known.
  unfoldable pub visit_known : Container → ℕ → Progress → M Progress
  visit_known c now p =
      if status_beq c.status stopped
      then handle_scale_down c.name p
      else visit_registered (find_runner c.name runners) c now p

  pub needs_refresh : ContainerStatus → ℕ → Bool
  needs_refresh status available =
      status_beq status unknown || (ltb 0 available && status_beq status stopped)

  -- One round. A container whose status cannot be had is left alone.
  unfoldable pub visit : ℕ → ℕ → Container → Progress → M Progress
  visit available now c p =
      if needs_refresh c.status available
      then (do
        reply ← ask_status env c.name
        on_reply reply (λ _. pure p) (λ s. visit_known (record c { status = s }) now p))
      else visit_known c now p

  unfoldable pub visit_all : ℕ → ℕ → List Container → Progress → M Progress
  visit_all available now [] p = pure p
  visit_all available now (c ∷ cs) p = do
    p' ← visit available now c p
    visit_all available now cs p'
