-- ===== src/Engine/Baseline.antt =====
-- internal/engine/reconciler.go: ensureBaseline.
use gh_runner_scaler.Prelude.{
  ℕ, ◌-◌, Bool, true, false, not, ◌&&◌, List, [], ◌∷◌, ◌++◌, ltb, if◌then◌else◌, ◌==◌, nat_eq, Text,
  text_eq,
}
use gh_runner_scaler.Prelude.Strings.{text, trim_space}
use gh_runner_scaler.Engine.Calls.{
  clone_from_template, set_last_active, Reply, ok, err, Env, M, ◌>>=◌, ◌>>◌, pure, or_else,
  on_reply, perform, ask_registration_token, ask_containers, ask_last_active, ask_clock,
  suspend_runner_inventory_cache, resume_runner_inventory_cache,
}
use gh_runner_scaler.Domain.{running, status_beq, Container, Runner}
use gh_runner_scaler.Engine.Labels.{pending_availability_grace}
use gh_runner_scaler.Engine.Settings.{ReconcilerConfig}
use gh_runner_scaler.Engine.Provision.{configure_cloned_runner}
use gh_runner_scaler.Engine.Teardown.{scale_down, new_pass}

unfoldable pub baseline_online : Text → List Runner → Bool
baseline_online name [] = false
baseline_online name (r ∷ runners) =
    if r.name == name && r.status == text "online" then true else baseline_online name runners

module _ (env : Env) (cfg : ReconcilerConfig) where
  -- Whether a running baseline container is within its grace. A container with no recorded activity
  -- gets one, and counts as within.
  pub within_grace : Text → M Bool
  within_grace name = do
    last ← ask_last_active env name
    on_reply last (λ _. do now ← ask_clock env; perform env (set_last_active name now); pure true)
        (λ t. do
          now ← ask_clock env
          pure (ltb (now - t) (pending_availability_grace cfg.idle_timeout)))

  pub grace_if_running : Container → M Bool
  grace_if_running container =
      if status_beq container.status running then within_grace container.name else pure false

  -- The loop over the containers: `ok true` when the baseline is pending, `ok false` when no
  -- container of its name is left.
  pub clear_stale : List Runner → List Container → M (Reply Bool)
  clear_stale runners [] = pure (ok false)
  clear_stale runners (container ∷ rest) =
      let next = clear_stale runners rest in
      if not (container.name == cfg.baseline_name) then next else (do
        pending ← grace_if_running container
        (if pending then pure (ok true) else (do
          (result, _) ← scale_down env container.name runners new_pass
          (if result.deleted
              then next
              else pure (
                  err (
                    text "stale baseline " ++ (container.name ++ text " could not be deleted")))))))

  pub create_baseline : M (Reply ℕ)
  create_baseline = do
    suspend_runner_inventory_cache env
    token ← ask_registration_token env
    on_reply token
        (λ e.
          resume_runner_inventory_cache env
          >> pure (err (text "getting baseline registration token: " ++ e)))
        (λ t. do
          clone_failed ← perform env (clone_from_template cfg.baseline_name)
          result ←
              or_else clone_failed (λ e. pure (err (text "cloning baseline template: " ++ e)))
                (do
                  failed ← configure_cloned_runner env cfg cfg.baseline_name t false
                  or_else failed (λ e. pure (err e)) (pure (ok 1)))
          resume_runner_inventory_cache env
          pure result)

  unfoldable pub ensure_baseline : List Runner → M (Reply ℕ)
  ensure_baseline runners =
      if trim_space cfg.baseline_name == []
      then pure (err (text "baseline name is required"))
      else if baseline_online cfg.baseline_name runners
      then pure (ok 0)
      else (do
        listed ← ask_containers env cfg.baseline_name
        on_reply listed (λ e. pure (err (text "listing baseline container: " ++ e)))
            (λ containers. do
              cleared ← clear_stale runners containers
              on_reply cleared (λ e. pure (err e))
                  (λ pending. if pending then pure (ok 1) else create_baseline)))
