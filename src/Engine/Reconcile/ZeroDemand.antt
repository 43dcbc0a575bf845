-- ===== src/Engine/Reconcile/ZeroDemand.antt =====
-- internal/engine/reconciler.go: what a pass with no queued job may call.
use gh_runner_scaler.Prelude.{
  ℕ, zero, suc, ◌≡◌, sym, ◌∙◌, false, false≢true, none, List, [], ◌∷◌, arith, nat_eq, Text, text_eq,
}
use gh_runner_scaler.Engine.Calls.{Env}
use gh_runner_scaler.Domain.{Container, Runner, CapacityDemand}
use gh_runner_scaler.Engine.Emits.{
  Emits, Emits-if, Emits-bind, Emits-pure, Emits-on_reply, emits_rules,
}
use gh_runner_scaler.Engine.Settings.{ReconcilerConfig}
use gh_runner_scaler.Engine.Visit.Growth.{NoGrowth, visit_all-NoGrowth}
use gh_runner_scaler.Engine.Reconcile.{
  refresh_container_statuses, scale_up_loop, baseline_pending, refresh_unless_available, scale_pass,
  reconcile_demand,
}

module _ (env : Env) (cfg : ReconcilerConfig) where
  refresh_container_statuses-NoGrowth :
      (cs : List Container) → Emits NoGrowth (refresh_container_statuses env cfg cs)
  unfolding refresh_container_statuses
  refresh_container_statuses-NoGrowth [] = Emits-pure []
  refresh_container_statuses-NoGrowth (c ∷ cs) = Emits-bind _ _ (search (emits_rules, tt)) (λ reply.
      Emits-bind _ _ (refresh_container_statuses-NoGrowth cs) (λ rest. search emits_rules))

  refresh_unless_available-NoGrowth :
      (n : ℕ) (cs : List Container) → Emits NoGrowth (refresh_unless_available env cfg n cs)
  unfolding refresh_unless_available
  refresh_unless_available-NoGrowth zero cs = refresh_container_statuses-NoGrowth cs
  refresh_unless_available-NoGrowth (suc n) cs = Emits-pure cs

  no_need :
      (needed auto : ℕ) (removed : List Text) (cs : List Container)
      → needed ≡ 0
      → Emits NoGrowth (scale_up_loop env cfg needed auto removed cs)
  unfolding scale_up_loop
  no_need zero auto removed cs e = Emits-pure _
  no_need (suc n) auto removed cs e = absurd (omega arith)

  scale_pass-NoGrowth :
      (demand : CapacityDemand) (runners : List Runner) (pending : ℕ) (listed : List Container)
      → demand.queued_jobs ≡ 0
      → Emits NoGrowth (scale_pass env cfg demand runners pending listed)
  unfolding scale_pass
  scale_pass-NoGrowth demand runners pending listed e =
      Emits-bind _ _ (refresh_unless_available-NoGrowth _ listed) (λ cs.
        Emits-bind _ _ (search (emits_rules, tt)) (λ now.
          Emits-bind _ _ (visit_all-NoGrowth env cfg runners _ now cs _) (λ p.
            Emits-bind _ _ (no_need _ p.auto_count p.removed cs (omega arith))
              (λ _. Emits-pure tt))))

  baseline_pending-NoGrowth :
      (runners : List Runner)
      → cfg.baseline ≡ false
      → Emits NoGrowth (baseline_pending env cfg runners)
  unfolding baseline_pending
  baseline_pending-NoGrowth runners none_wanted =
      Emits-if cfg.baseline _ _ (λ e. absurd (false≢true (sym none_wanted ∙ e))) (λ _. Emits-pure 0)

  -- With no job queued and no baseline configured a pass asks for no registration token, and
  -- neither clones nor starts a container.
  pub reconcile_demand-NoGrowth :
      (demand : CapacityDemand)
      → cfg.baseline ≡ false
      → demand.queued_jobs ≡ 0
      → Emits NoGrowth (reconcile_demand env cfg demand)
  unfolding reconcile_demand
  reconcile_demand-NoGrowth demand none_wanted e =
      Emits-bind _ _ (search (emits_rules, tt)) (λ reply.
        Emits-on_reply reply _ _ (λ t. Emits-pure _)
          (λ runners. Emits-bind _ _ (baseline_pending-NoGrowth runners none_wanted) (λ pending.
            Emits-bind _ _ (search (emits_rules, tt)) (λ listed.
              Emits-on_reply listed _ _ (λ t. Emits-pure _)
                (λ cs.
                  Emits-bind _ _ (scale_pass-NoGrowth demand runners pending cs e)
                    (λ _. Emits-pure none))))))
