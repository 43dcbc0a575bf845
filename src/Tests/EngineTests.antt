-- ===== src/Tests/EngineTests.antt =====
-- The engine at concrete inputs.
use gh_runner_scaler.Prelude.{
  ℕ, ◌+◌, ◌≡◌, refl, ◌⊎◌, true, false, Option, none, some, [], ◌∷◌, arith, nat_eq, Text, text_eq,
  contains,
}
use gh_runner_scaler.Prelude.Strings.{text}
use gh_runner_scaler.Engine.Calls.{
  Call, start_container, stop_container, delete_container, delete_state, History, ok, Env, ◌>>=◌,
  pure, or_else, perform, resume_runner_inventory_cache,
}
use gh_runner_scaler.Domain.{running, Container, Runner}
use gh_runner_scaler.Engine.Emits.{Emits}
use gh_runner_scaler.Engine.Settings.{ReconcilerConfig, numbered, numbered_injective}
use gh_runner_scaler.Engine.Names.{next_name, next_name_lem, Taken}
use gh_runner_scaler.Engine.Provision.{
  clone_attempts, clone_with_fresh_name, configure_cloned_runner,
}
use gh_runner_scaler.Engine.Provision.Outcome.{Outcome, configure_cloned_runner-Outcome}
use gh_runner_scaler.Engine.Provision.Fresh.{FreshName, clone_with_fresh_name-FreshName}
use gh_runner_scaler.Engine.Teardown.{ReconcilePass, new_pass, scale_down, is_none}
use gh_runner_scaler.Engine.Teardown.Scope.{TeardownCall, scale_down-Emits, scale_down_removes}
use gh_runner_scaler.Engine.Visit.{Progress, visit_known}
use gh_runner_scaler.Engine.Visit.Growth.{NoGrowth}
use gh_runner_scaler.Engine.Visit.Safety.{Spared, Eligible, visit_known-spares}
use gh_runner_scaler.Engine.Reconcile.{scale_up_loop, reconcile_demand}
use gh_runner_scaler.Engine.Reconcile.Bounds.{Bounded, scale_up_loop-Bounded}
use gh_runner_scaler.Engine.Reconcile.ZeroDemand.{reconcile_demand-NoGrowth}

abbrev busy_runner : Runner
busy_runner = record {
  id = 5;
  name = text "auto-1";
  status = text "online";
  busy = true;
  labels = text " X64 " ∷ [];
  is_auto = true;
}

abbrev first : Container
first = record { name = text "auto-1"; status = running }

-- Providers that refuse the start of a container, and grant everything else.
abbrev refuse_start : Call → Option Text
refuse_start (start_container n) = some (text "no space")
refuse_start _ = none

abbrev env : Env
env = record {
  attempt = λ h c. refuse_start c;
  runners = λ h. ok (busy_runner ∷ []);
  registration_token = λ h. ok (text "R");
  remove_token = λ h. ok (text "D");
  containers = λ h prefix. ok (first ∷ []);
  status = λ h name. ok running;
  last_active = λ h name. ok 40;
  clock = λ h. 100;
  registration_url = text "https://github.com/o";
  can_suspend = true;
}

abbrev cfg : ReconcilerConfig
cfg = record {
  prefix = text "auto";
  baseline = false;
  baseline_name = [];
  max_auto_runners = 3;
  idle_timeout = 30;
  labels = text "x64";
  runner_work_dir = text "_work";
  cache_enabled = true;
  ready_check = [];
  ready_timeout = 0;
  has_cache = true;
  has_observability = false;
}

next_name_lem_example :
    (k : ℕ) × (next_name (numbered (text "auto")) (text "auto-1" ∷ [])
      ≡ some (numbered (text "auto") (1 + k)))
    × (contains (numbered (text "auto") (1 + k)) (text "auto-1" ∷ []) ≡ false)
    × Taken (numbered (text "auto")) 1 k (text "auto-1" ∷ [])
next_name_lem_example =
    next_name_lem (numbered (text "auto")) (numbered_injective (text "auto")) (text "auto-1" ∷ [])

next_name_test : next_name (numbered (text "auto")) (text "auto-1" ∷ []) ≡ some (text "auto-2")
unfolding next_name numbered
next_name_test = refl

clone_with_fresh_name-FreshName_example : FreshName env cfg (first ∷ []) (text "auto-2")
unfolding clone_with_fresh_name next_name numbered perform ◌>>=◌ or_else clone_attempts pure
clone_with_fresh_name-FreshName_example =
    clone_with_fresh_name-FreshName env cfg (first ∷ []) [] (text "auto-2") refl

configure_cloned_runner-Outcome_example :
    Outcome (text "auto-2") (configure_cloned_runner env cfg (text "auto-2") (text "R") true [])
configure_cloned_runner-Outcome_example =
    configure_cloned_runner-Outcome env cfg (text "auto-2") (text "R") true []

scale_down-Emits_example :
    Emits
      (TeardownCall (text "auto-1") (busy_runner ∷ []))
      (scale_down env (text "auto-1") (busy_runner ∷ []) new_pass)
scale_down-Emits_example = scale_down-Emits env (text "auto-1") (busy_runner ∷ []) new_pass

scale_down_removes_example :
    (before : History) × ((scale_down env (text "auto-1") (busy_runner ∷ []) new_pass []).1
      ≡ (resume_runner_inventory_cache env (
          delete_state (text "auto-1")
          ∷ delete_container (text "auto-1")
          ∷ stop_container (text "auto-1")
          ∷ before)).1)
    × ((scale_down env (text "auto-1") (busy_runner ∷ []) new_pass []).0.0.deleted
        ≡ is_none (
            env.attempt
              (stop_container (text "auto-1") ∷ before)
              (delete_container (text "auto-1"))))
scale_down_removes_example = scale_down_removes env (text "auto-1") (busy_runner ∷ []) new_pass []

abbrev fetched : ReconcilePass
fetched = record { remove_token = text "D"; remove_token_fetched = true }

abbrev progress : Progress
progress = record { auto_count = 1; removed = []; pending_capacity = 0; pass = new_pass }

visit_known-spares_example :
    Spared env cfg (busy_runner ∷ []) (visit_known env cfg (busy_runner ∷ []) first 100 progress) []
    ⊎ Eligible env cfg (busy_runner ∷ []) first 100 []
visit_known-spares_example = visit_known-spares env cfg (busy_runner ∷ []) first 100 progress []

scale_up_loop-Bounded_example :
    Bounded env cfg 2 1 1 (scale_up_loop env cfg 2 1 [] (first ∷ []) []).0
scale_up_loop-Bounded_example = scale_up_loop-Bounded env cfg 2 1 [] (first ∷ []) [] (omega arith)

reconcile_demand-NoGrowth_example :
    Emits NoGrowth (reconcile_demand env cfg (record { queued_jobs = 0; oldest_age = 0 }))
reconcile_demand-NoGrowth_example =
    reconcile_demand-NoGrowth env cfg (record { queued_jobs = 0; oldest_age = 0 }) refl refl
