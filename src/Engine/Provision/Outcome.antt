-- ===== src/Engine/Provision/Outcome.antt =====
-- internal/engine/reconciler.go, configureClonedRunner: which calls it makes, and how it ends.
use gh_runner_scaler.Prelude.{
  ◌≡◌, refl, inl, inr, Bool, true, false, Option, none, some, ◌∷◌, Option-cases, nat_eq, Text,
  text_eq,
}
use gh_runner_scaler.Engine.Calls.{
  service_install, Call, start_container, stop_container, delete_container, exec_command,
  wait_for_ready, attach_cache, setup_cache_symlinks, prune_cache, create_state,
  prepare_observability, History, Env, M, ◌>>=◌, pure, or_else, perform,
}
use gh_runner_scaler.Engine.Emits.{
  Emits, Emits-bind, Emits-perform, Emits-pure, Emits-or_else, emits_rules,
}
use gh_runner_scaler.Engine.Settings.{ReconcilerConfig}
use gh_runner_scaler.Engine.Provision.{
  cleanup_failed_scale_up, scale_up_failure, attach, prepare_cache, observe, install_service,
  register, configure_cloned_runner,
}

-- The calls about the container `name` that provisioning makes.
abbrev pub ProvisionCall : Text → Call → Type 0
ProvisionCall name (start_container n) = n ≡ name
ProvisionCall name (stop_container n) = n ≡ name
ProvisionCall name (delete_container n) = n ≡ name
ProvisionCall name (exec_command n c) = n ≡ name
ProvisionCall name (wait_for_ready n check timeout) = n ≡ name
ProvisionCall name (attach_cache n) = n ≡ name
ProvisionCall name (setup_cache_symlinks n) = n ≡ name
ProvisionCall name (prune_cache n) = n ≡ name
ProvisionCall name (create_state n) = n ≡ name
ProvisionCall name (prepare_observability n) = n ≡ name
ProvisionCall name _ = ⊥

-- How provisioning ends: without an error by starting the service and recording the container's
-- state, with one by deleting the container.
abbrev pub Outcome : Text → Option Text × History → Type 0
Outcome name (none, h) =
    (before : History) × (h ≡ create_state name ∷ exec_command name service_install ∷ before)
Outcome name (some e, h) = (before : History) × (h ≡ delete_container name ∷ before)

abbrev Ends : Text → M (Option Text) → Type 0
Ends name m = (h : History) → Outcome name (m h)

module _ {A : Type 0} (name : Text) where
  Ends-bind :
      (m : M A) (f : A → M (Option Text)) → ((a : A) → Ends name (f a)) → Ends name (m >>= f)
  unfolding ◌>>=◌
  Ends-bind m f k h = k (m h).0 (m h).1

module _ (env : Env) (cfg : ReconcilerConfig) (name : Text) where
  scale_up_failure-Ends :
      (action error : Text) (stop : Bool)
      → Ends name (scale_up_failure env cfg name action error stop)
  unfolding scale_up_failure cleanup_failed_scale_up ◌>>=◌ perform
  scale_up_failure-Ends action error true h = (stop_container name ∷ h, refl)
  scale_up_failure-Ends action error false h = (h, refl)

  -- A step that fails is cleaned up after; otherwise the rest runs.
  step-Ends :
      (c : Call) (action : Text) (stop : Bool) (next : M (Option Text))
      → Ends name next
      → Ends name (
          perform env c >>= λ failed.
          or_else failed (λ e. scale_up_failure env cfg name action e stop) next)
  step-Ends c action stop next k = Ends-bind name (perform env c) _ (λ failed. cases failed)
    where
      cases :
          (failed : Option Text)
          → Ends name (or_else failed (λ e. scale_up_failure env cfg name action e stop) next)
      cases none = unfold or_else in k
      cases (some e) = unfold or_else in scale_up_failure-Ends action e stop

  install_service-Ends : Ends name (install_service env cfg name)
  unfolding install_service ◌>>=◌ perform or_else pure
  install_service-Ends h = elim (Option-cases (env.attempt h (exec_command name service_install))) [
    | inl e ↦ rw e (h, refl)
    | inr (t, e) ↦ rw e (scale_up_failure-Ends _ t true (exec_command name service_install ∷ h))
  ]

  register-Ends :
      (token : Text) (ephemeral : Bool) → Ends name (register env cfg name token ephemeral)
  unfolding register
  register-Ends token ephemeral =
      step-Ends _ _ true _ (Ends-bind name (observe env cfg name) _ (λ _. install_service-Ends))

  -- Provisioning a clone either ends with the command that starts the runner service and the
  -- recording of the state, or fails, and then the last thing done is to delete the container.
  pub configure_cloned_runner-Outcome :
      (token : Text) (ephemeral : Bool) (h : History)
      → Outcome name (configure_cloned_runner env cfg name token ephemeral h)
  unfolding configure_cloned_runner
  configure_cloned_runner-Outcome token ephemeral = Ends-bind name (attach env cfg name) _ (λ _.
      step-Ends _ _ false _ (
        step-Ends _ _ true _
          (Ends-bind name (prepare_cache env cfg name) _ (λ _. register-Ends token ephemeral))))

  scale_up_failure-Emits :
      (action error : Text) (stop : Bool)
      → Emits (ProvisionCall name) (scale_up_failure env cfg name action error stop)
  unfolding scale_up_failure cleanup_failed_scale_up
  scale_up_failure-Emits action error stop = search emits_rules

  step-Emits :
      (c : Call) (action : Text) (stop : Bool) (next : M (Option Text))
      → ProvisionCall name c
      → Emits (ProvisionCall name) next
      → Emits (ProvisionCall name) (
          perform env c >>= λ failed.
          or_else failed (λ e. scale_up_failure env cfg name action e stop) next)
  step-Emits c action stop next p k =
      Emits-bind _ _ (Emits-perform env c p)
        (λ failed. Emits-or_else failed _ next (λ e. scale_up_failure-Emits action e stop) k)

  attach-Emits : Emits (ProvisionCall name) (attach env cfg name)
  unfolding attach
  attach-Emits = search emits_rules

  prepare_cache-Emits : Emits (ProvisionCall name) (prepare_cache env cfg name)
  unfolding prepare_cache
  prepare_cache-Emits = search emits_rules depth 7

  observe-Emits : Emits (ProvisionCall name) (observe env cfg name)
  unfolding observe
  observe-Emits = search emits_rules

  install_service-Emits : Emits (ProvisionCall name) (install_service env cfg name)
  unfolding install_service
  install_service-Emits =
      step-Emits _ _ true _ refl
        (Emits-bind _ _ (Emits-perform env (create_state name) refl) (λ _. Emits-pure none))

  -- Provisioning a clone calls the runtime, the cache and the state store about that clone only.
  pub configure_cloned_runner-Emits :
      (token : Text) (ephemeral : Bool)
      → Emits (ProvisionCall name) (configure_cloned_runner env cfg name token ephemeral)
  unfolding configure_cloned_runner register
  configure_cloned_runner-Emits token ephemeral = Emits-bind _ _ attach-Emits (λ _.
      step-Emits _ _ false _ refl (
        step-Emits _ _ true _ refl (
          Emits-bind _ _ prepare_cache-Emits (λ _.
            step-Emits _ _ true _ refl
              (Emits-bind _ _ observe-Emits (λ _. install_service-Emits))))))
