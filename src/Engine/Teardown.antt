-- ===== src/Engine/Teardown.antt =====
-- internal/engine/reconciler.go: scaleDown and getRemoveToken.
pub mod Scope
use gh_runner_scaler.Prelude.{
  Bool, true, false, Option, none, some, List, [], ◌∷◌, ◌++◌, if◌then◌else◌, ◌==◌, nat_eq, Text,
  text_eq,
}
use gh_runner_scaler.Prelude.Strings.{text}
use gh_runner_scaler.Engine.Calls.{
  service_stop, service_uninstall, config_remove, stop_container, delete_container, exec_command,
  delete_runner, delete_state, Reply, ok, err, Env, M, ◌>>=◌, ◌>>◌, pure, or_else, on_reply,
  perform, ask_remove_token, suspend_runner_inventory_cache, resume_runner_inventory_cache,
}
use gh_runner_scaler.Domain.{Runner}
use gh_runner_scaler.Engine.Labels.{find_runner}
use gh_runner_scaler.Engine.Provision.{join_errors}

-- The removal token of one pass, once it is fetched.
pub record ReconcilePass : Type 0 where
  pub remove_token : Text
  pub remove_token_fetched : Bool

abbrev pub new_pass : ReconcilePass
new_pass = record { remove_token = []; remove_token_fetched = false }

pub record ScaleDownResult : Type 0 where
  pub deleted : Bool
  pub error : Option Text

abbrev pub labelled_error : Text → Option Text → List Text
labelled_error label none = []
labelled_error label (some e) = (label ++ e) ∷ []

abbrev pub is_none : Option Text → Bool
is_none none = true
is_none (some e) = false

abbrev pub combined : Text → List Text → Option Text
combined name [] = none
combined name (e ∷ errors) =
    some (text "scale-down " ++ (name ++ (text ": " ++ join_errors (e ∷ errors))))

module _ (env : Env) where
  unfoldable pub fetch_remove_token : ReconcilePass → M (Reply Text × ReconcilePass)
  fetch_remove_token pass =
      if pass.remove_token_fetched then pure (ok pass.remove_token, pass) else (do
        reply ← ask_remove_token env
        on_reply reply (λ e. pure (err e, pass))
            (λ t. pure (ok t, record pass { remove_token = t; remove_token_fetched = true })))

  -- svc.sh stop, and svc.sh uninstall where that worked
  pub stop_service : Text → M (List Text)
  stop_service name = do
    stop_error ← perform env (exec_command name service_stop)
    or_else stop_error (λ e. pure ((text "stop runner service: " ++ e) ∷ []))
        (do
          uninstall_error ← perform env (exec_command name service_uninstall)
          pure (labelled_error (text "uninstall runner service: ") uninstall_error))

  pub deregister : Text → Reply Text → M (List Text)
  deregister name (err e) = pure ((text "get remove token: " ++ e) ∷ [])
  deregister name (ok token) = if token == [] then pure [] else (do
    remove_error ← perform env (exec_command name (config_remove token))
    pure (labelled_error (text "runner config remove: ") remove_error))

  -- A busy runner is left to finish its job; a failure of the call is only logged.
  pub delete_registration : Option Runner → M (Unit {0})
  delete_registration none = pure tt
  delete_registration (some runner) =
      if runner.busy then pure tt else (perform env (delete_runner runner.id) >>= λ _. pure tt)

  -- From StopContainer on.
  pub remove_container : Text → List Text → M ScaleDownResult
  remove_container name errors = do
    stop_error ← perform env (stop_container name)
    delete_error ← perform env (delete_container name)
    state_error ← perform env (delete_state name)
    pure (record {
      deleted = is_none delete_error;
      error = combined name (
          errors
          ++ (labelled_error (text "stop container: ") stop_error
              ++ (labelled_error (text "delete container: ") delete_error
                  ++ labelled_error (text "delete state: ") state_error)));
    })

  unfoldable pub scale_down :
      Text → List Runner → ReconcilePass → M (ScaleDownResult × ReconcilePass)
  scale_down name runners pass = do
    suspend_runner_inventory_cache env
    service_errors ← stop_service name
    (token, pass') ← fetch_remove_token pass
    token_errors ← deregister name token
    delete_registration (find_runner name runners)
    result ← remove_container name (service_errors ++ token_errors)
    resume_runner_inventory_cache env
    pure (result, pass')
