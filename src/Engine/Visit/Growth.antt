-- ===== src/Engine/Visit/Growth.antt =====
-- internal/engine/reconciler.go: visiting the containers creates none.
use gh_runner_scaler.Prelude.{ℕ, Option, none, some, List, [], ◌∷◌, nat_eq, Text, text_eq}
use gh_runner_scaler.Engine.Calls.{
  Call, clone_from_template, start_container, get_registration_token, Env,
}
use gh_runner_scaler.Domain.{Container, Runner}
use gh_runner_scaler.Engine.Emits.{Emits, Emits-weaken, Emits-bind, Emits-pure, emits_rules}
use gh_runner_scaler.Engine.Settings.{ReconcilerConfig}
use gh_runner_scaler.Engine.Teardown.{scale_down}
use gh_runner_scaler.Engine.Teardown.Scope.{TeardownCall, scale_down-Emits}
use gh_runner_scaler.Engine.Visit.{
  Progress, handle_scale_down, last_active_or, visit_orphan, visit_idle, visit_registered,
  visit_known, visit, visit_all,
}

-- Every call but those that bring a container into being.
abbrev pub NoGrowth : Call → Type 0
NoGrowth (clone_from_template n) = ⊥
NoGrowth (start_container n) = ⊥
NoGrowth get_registration_token = ⊥
NoGrowth _ = Unit

NoGrowth-of_TeardownCall :
    (name : Text) (runners : List Runner) (c : Call) → TeardownCall name runners c → NoGrowth c
NoGrowth-of_TeardownCall name runners (clone_from_template n) t = t
NoGrowth-of_TeardownCall name runners (start_container n) t = t
NoGrowth-of_TeardownCall name runners get_registration_token t = t
NoGrowth-of_TeardownCall name runners _ t = tt

module _ (env : Env) (cfg : ReconcilerConfig) (runners : List Runner) where
  handle_scale_down-NoGrowth :
      (name : Text) (p : Progress) → Emits NoGrowth (handle_scale_down env cfg runners name p)
  unfolding handle_scale_down
  handle_scale_down-NoGrowth name p =
      Emits-bind _ _
        (Emits-weaken (scale_down env name runners p.pass) (NoGrowth-of_TeardownCall name runners)
          (scale_down-Emits env name runners p.pass))
        (λ r. Emits-pure _)

  last_active_or-NoGrowth :
      (name : Text) (now : ℕ) → Emits NoGrowth (last_active_or env cfg runners name now)
  unfolding last_active_or
  last_active_or-NoGrowth name now = search (emits_rules, tt)

  visit_registered-NoGrowth :
      (o : Option Runner) (c : Container) (now : ℕ) (p : Progress)
      → Emits NoGrowth (visit_registered env cfg runners o c now p)
  unfolding visit_registered visit_orphan visit_idle
  visit_registered-NoGrowth none c now p =
      search (emits_rules, last_active_or-NoGrowth, handle_scale_down-NoGrowth)
  visit_registered-NoGrowth (some r) c now p =
      search (emits_rules, last_active_or-NoGrowth, handle_scale_down-NoGrowth, tt)

  visit-NoGrowth :
      (available now : ℕ) (c : Container) (p : Progress)
      → Emits NoGrowth (visit env cfg runners available now c p)
  unfolding visit visit_known
  visit-NoGrowth available now c p =
      search (emits_rules, visit_registered-NoGrowth, handle_scale_down-NoGrowth, tt)

  pub visit_all-NoGrowth :
      (available now : ℕ) (cs : List Container) (p : Progress)
      → Emits NoGrowth (visit_all env cfg runners available now cs p)
  unfolding visit_all
  visit_all-NoGrowth available now [] p = Emits-pure p
  visit_all-NoGrowth available now (c ∷ cs) p =
      Emits-bind _ _ (visit-NoGrowth available now c p)
        (λ p'. visit_all-NoGrowth available now cs p')
