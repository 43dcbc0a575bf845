-- ===== src/Engine/Teardown/Scope.antt =====
-- internal/engine/reconciler.go: what a scale-down may call, and what it reports.
use gh_runner_scaler.Prelude.{
  ◌≡◌, refl, false, Option, none, some, List, ◌∷◌, arith, nat_eq, Text, text_eq,
}
use gh_runner_scaler.Engine.Calls.{
  Call, stop_container, delete_container, exec_command, get_remove_token, suspend_inventory,
  resume_inventory, delete_runner, delete_state, History, Reply, ok, err, Env, M, ◌>>=◌, ◌>>◌, pure,
  on_reply, perform, ask_remove_token, suspend_runner_inventory_cache,
  resume_runner_inventory_cache,
}
use gh_runner_scaler.Domain.{Runner}
use gh_runner_scaler.Engine.Emits.{
  Emits, Emits-if, Emits-bind, Emits-perform, Emits-pure, emits_rules,
}
use gh_runner_scaler.Engine.Labels.{find_runner}
use gh_runner_scaler.Engine.Teardown.{
  is_none, ReconcilePass, fetch_remove_token, stop_service, deregister, delete_registration,
  remove_container, scale_down,
}

-- The calls that belong to the teardown of `name`: its own container and state, the removal token,
-- and the registration of a runner of that name that is not busy.
abbrev pub TeardownCall : Text → List Runner → Call → Type 0
TeardownCall name runners (exec_command n c) = n ≡ name
TeardownCall name runners (stop_container n) = n ≡ name
TeardownCall name runners (delete_container n) = n ≡ name
TeardownCall name runners (delete_state n) = n ≡ name
TeardownCall name runners (delete_runner id) =
    (r : Runner) × (find_runner name runners ≡ some r) × (r.busy ≡ false) × (r.id ≡ id)
TeardownCall name runners get_remove_token = Unit
TeardownCall name runners suspend_inventory = Unit
TeardownCall name runners resume_inventory = Unit
TeardownCall name runners _ = ⊥

module _ (env : Env) (name : Text) (runners : List Runner) where
  stop_service-Emits : Emits (TeardownCall name runners) (stop_service env name)
  unfolding stop_service
  stop_service-Emits = search emits_rules

  fetch_remove_token-Emits :
      (pass : ReconcilePass) → Emits (TeardownCall name runners) (fetch_remove_token env pass)
  unfolding fetch_remove_token
  fetch_remove_token-Emits pass = search (emits_rules, tt)

  deregister-Emits :
      (token : Reply Text) → Emits (TeardownCall name runners) (deregister env name token)
  unfolding deregister
  deregister-Emits (err e) = search emits_rules
  deregister-Emits (ok token) = search emits_rules

  delete_registration-Emits :
      (o : Option Runner)
      → find_runner name runners ≡ o
      → Emits (TeardownCall name runners) (delete_registration env o)
  unfolding delete_registration
  delete_registration-Emits none e = search emits_rules
  delete_registration-Emits (some r) e =
      Emits-if r.busy (pure tt) (perform env (delete_runner r.id) >>= λ _. pure tt)
        (λ _. Emits-pure tt)
        (λ idle.
          Emits-bind (perform env (delete_runner r.id)) (λ _. pure tt)
            (Emits-perform env (delete_runner r.id) (r, e, idle, refl)) (λ _. Emits-pure tt))

  remove_container-Emits :
      (errors : List Text) → Emits (TeardownCall name runners) (remove_container env name errors)
  unfolding remove_container
  remove_container-Emits errors = search emits_rules

  -- A scale-down touches its own container and state only, and it deletes the registration of a
  -- runner only if that is the one found under the name of the container and is not busy.
  pub scale_down-Emits :
      (pass : ReconcilePass) → Emits (TeardownCall name runners) (scale_down env name runners pass)
  unfolding scale_down
  scale_down-Emits pass = Emits-bind _ _ (search (emits_rules, tt)) λ _.
      Emits-bind _ _ stop_service-Emits λ _. Emits-bind _ _ (fetch_remove_token-Emits pass) λ r.
        Emits-bind _ _ (deregister-Emits r.0) λ _.
          Emits-bind _ _ (delete_registration-Emits (find_runner name runners) refl) λ _.
            Emits-bind _ _ (remove_container-Emits _)
              λ _. Emits-bind _ _ (search (emits_rules, tt)) λ _. Emits-pure _

-- What has happened when the container is about to be stopped.
before_removal :
    (env : Env) (name : Text) (runners : List Runner) (pass : ReconcilePass) → M (Unit {0})
before_removal env name runners pass = do
  suspend_runner_inventory_cache env
  stop_service env name
  r ← fetch_remove_token env pass
  deregister env name r.0
  delete_registration env (find_runner name runners)

-- Whatever failed before, a scale-down goes on to stop the container, to delete it and to delete
-- its state, in this order and last but for the resumption of the inventory; and it reports the
-- container as deleted exactly when that deletion had no error.
pub scale_down_removes :
    (env : Env) (name : Text) (runners : List Runner) (pass : ReconcilePass) (h : History)
    → (before : History) × ((scale_down env name runners pass h).1
        ≡ (resume_runner_inventory_cache env
            (delete_state name ∷ delete_container name ∷ stop_container name ∷ before)).1)
      × ((scale_down env name runners pass h).0.0.deleted
          ≡ is_none (env.attempt (stop_container name ∷ before) (delete_container name)))
unfolding scale_down remove_container before_removal ◌>>=◌ perform
scale_down_removes env name runners pass h =
    ((before_removal env name runners pass h).1, refl, refl)

-- A removal token that was fetched in a pass is not fetched again in it.
pub fetch_remove_token_once :
    (env : Env) (pass pass' : ReconcilePass) (token : Text) (h h' : History)
    → (fetch_remove_token env pass h).0 ≡ (ok token, pass')
    → fetch_remove_token env pass' h' ≡ ((ok token, pass'), h')
unfolding fetch_remove_token ◌>>=◌ on_reply ask_remove_token
fetch_remove_token_once env pass pass' token h h' e = ground arith
