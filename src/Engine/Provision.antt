-- ===== src/Engine/Provision.antt =====
-- internal/engine/reconciler.go: scaleUp and what it calls. Log lines are not modelled.
pub mod Outcome
pub mod Fresh
use gh_runner_scaler.Prelude.{
  ℕ, zero, suc, Bool, true, false, not, ◌&&◌, ◌||◌, Option, none, some, List, [], ◌∷◌, ◌++◌, map,
  leb, if◌then◌else◌, length, ◌==◌, nat_eq, Text, text_eq,
}
use gh_runner_scaler.Prelude.Strings.{text, to_lower, contains_text}
use gh_runner_scaler.Engine.Calls.{
  service_install, config_runner, clone_from_template, start_container, stop_container,
  delete_container, exec_command, wait_for_ready, attach_cache, setup_cache_symlinks, prune_cache,
  create_state, prepare_observability, Reply, ok, err, Env, M, ◌>>=◌, ◌>>◌, pure, or_else, on_reply,
  perform, ask_registration_token, ask_containers, suspend_runner_inventory_cache,
  resume_runner_inventory_cache,
}
use gh_runner_scaler.Domain.{Container}
use gh_runner_scaler.Engine.Settings.{ReconcilerConfig, numbered}
use gh_runner_scaler.Engine.Names.{next_name}
use gh_runner_scaler.Engine.Commands.{runner_install_dir}

unfoldable pub is_container_name_conflict : Text → Bool
is_container_name_conflict message =
    contains_text (to_lower message) (text "already exists")
    || contains_text (to_lower message) (text "conflict")

-- errors.Join: the messages on lines of their own
unfoldable pub join_errors : List Text → Text
join_errors [] = []
join_errors (e ∷ []) = e
join_errors (e ∷ f ∷ errors) = e ++ (10 ∷ join_errors (f ∷ errors))

-- The error of a cleanup, `none` when nothing of it failed.
pub joined : List Text → Option Text
joined [] = none
joined (e ∷ errors) = some (join_errors (e ∷ errors))

pub wrapped : Text → Option Text → List Text
wrapped label none = []
wrapped label (some e) = (label ++ e) ∷ []

unfoldable pub scale_up_error : Text → Text → Option Text → Text
scale_up_error action error none = action ++ (text ": " ++ error)
scale_up_error action error (some cleanup) = join_errors (
    (action ++ (text ": " ++ error))
    ∷ (text "cleanup after " ++ (action ++ (text ": " ++ cleanup)))
    ∷ [])

abbrev pub names_of : List Container → List Text
names_of = map (λ c. c.name)

module _ (env : Env) (cfg : ReconcilerConfig) where
  unfoldable pub cleanup_failed_scale_up : Text → Bool → M (Option Text)
  cleanup_failed_scale_up name attempt_stop = do
    stop_error ← (if attempt_stop then perform env (stop_container name) else pure none)
    delete_error ← perform env (delete_container name)
    pure (
        joined (
          wrapped (text "stop container: ") stop_error
          ++ wrapped (text "delete container: ") delete_error))

  unfoldable pub scale_up_failure : Text → Text → Text → Bool → M (Option Text)
  scale_up_failure name action error attempt_stop = do
    cleanup ← cleanup_failed_scale_up name attempt_stop
    pure (some (scale_up_error action error cleanup))

  abbrev pub uses_cache : Bool
  uses_cache = cfg.has_cache && cfg.cache_enabled

  pub attach : Text → M (Unit {0})
  attach name = if uses_cache then (perform env (attach_cache name) >>= λ _. pure tt) else pure tt

  pub prepare_cache : Text → M (Unit {0})
  prepare_cache name =
      if uses_cache
      then (do
        failed ← perform env (setup_cache_symlinks name)
        or_else failed (λ _. pure tt) (perform env (prune_cache name) >>= λ _. pure tt))
      else pure tt

  pub observe : Text → M (Unit {0})
  observe name =
      if cfg.has_observability
      then (perform env (prepare_observability name) >>= λ _. pure tt)
      else pure tt

  abbrev pub ready_check : List Text
  ready_check = elim cfg.ready_check [
    | [] ↦ text "test" ∷ text "-x" ∷ (runner_install_dir ++ text "/config.sh") ∷ []
    | c ∷ cs ↦ c ∷ cs
  ]

  -- 90 seconds unless configured
  abbrev pub ready_timeout : ℕ
  ready_timeout = if cfg.ready_timeout == 0 then 90000000000 else cfg.ready_timeout

  -- From the service's installation on.
  pub install_service : Text → M (Option Text)
  install_service name = do
    failed ← perform env (exec_command name service_install)
    or_else failed (λ e. scale_up_failure name (text "runner service start failed") e true)
        (perform env (create_state name) >>= λ _. pure none)

  -- From the runner's registration on.
  pub register : Text → Text → Bool → M (Option Text)
  register name token ephemeral = do
    failed ← perform env (
        exec_command name
          (config_runner env.registration_url token name cfg.labels cfg.runner_work_dir ephemeral))
    or_else failed (λ e. scale_up_failure name (text "runner config failed") e true)
        (observe name >> install_service name)

  unfoldable pub configure_cloned_runner : Text → Text → Bool → M (Option Text)
  configure_cloned_runner name token ephemeral = do
    attach name
    start_failed ← perform env (start_container name)
    or_else start_failed (λ e. scale_up_failure name (text "starting container") e false)
        (do
          not_ready ← perform env (wait_for_ready name ready_check ready_timeout)
          or_else not_ready (λ e. scale_up_failure name (text "container not ready") e true)
              (prepare_cache name >> register name token ephemeral))

  -- The loop of cloneWithFreshName, with the number of attempts left.
  unfoldable pub clone_attempts : ℕ → List Container → M (Reply Text)
  clone_attempts zero snapshot = pure (err (text "cloning template: exhausted unique name retries"))
  clone_attempts (suc left) snapshot = elim (next_name (numbered cfg.prefix) (names_of snapshot)) [
    | none ↦ pure (err [])
    | some name ↦ (do
      failed ← perform env (clone_from_template name)
      or_else failed
          (λ e.
            if not (is_container_name_conflict e)
            then pure (err (text "cloning template: " ++ e))
            else (do
              listed ← ask_containers env cfg.prefix
              on_reply listed
                  (λ l. pure (
                    err (
                      text "cloning template: "
                      ++ (e ++ (text " (refreshing names: " ++ (l ++ text ")"))))))
                  (λ latest.
                    if leb cfg.max_auto_runners (length latest)
                    then pure (
                        err (
                          text
                            "cloning template: max auto runners reached during concurrent scale-up"))
                    else clone_attempts left latest)))
          (pure (ok name)))
  ]

  unfoldable pub clone_with_fresh_name : List Container → M (Reply Text)
  clone_with_fresh_name existing = clone_attempts 3 existing

  -- The clone and its configuration, between the suspension and the resumption of the inventory.
  pub clone_and_configure : List Container → Text → M (Reply Text)
  clone_and_configure existing token = do
    cloned ← clone_with_fresh_name existing
    on_reply cloned (λ e. pure (err e))
        (λ name. do
          failed ← configure_cloned_runner name token true
          or_else failed (λ e. pure (err e)) (pure (ok name)))

  unfoldable pub scale_up : List Container → M (Reply Text)
  scale_up existing = do
    suspend_runner_inventory_cache env
    token ← ask_registration_token env
    on_reply token
        (λ e.
          resume_runner_inventory_cache env
          >> pure (err (text "getting registration token: " ++ e)))
        (λ t. do
          result ← clone_and_configure existing t
          resume_runner_inventory_cache env
          pure result)
