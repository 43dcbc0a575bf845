-- ===== src/Daemon/Workflows.antt =====
-- internal/daemon/daemon.go: collectWorkflowMetrics, which reports each workflow run once.
pub mod Delivery
use gh_runner_scaler.Prelude.{
  Bool, not, Option, none, some, List, [], ◌∷◌, ◌++◌, nat_beq, if◌then◌else◌, nat_eq, Text, text_eq,
}
use gh_runner_scaler.Prelude.Decimal.{decimal}
use gh_runner_scaler.Daemon.SeenCache.{SeenCache, filter_new, mark_delivered}
use gh_runner_scaler.Github.Workflows.{WorkflowMetrics, or_shallow}

unfoldable pub workflow_metric_key : WorkflowMetrics → Text
workflow_metric_key run =
    if not (nat_beq run.run_id 0)
    then decimal run.run_id ++ b':' ∷ decimal run.run_attempt
    else run.repo
      ++ b'|'
        ∷ (run.workflow
            ++ b'|'
              ∷ (decimal run.run_number
                  ++ b'|'
                    ∷ (run.branch
                        ++ b'|'
                          ∷ (run.event
                              ++ b'|' ∷ (run.conclusion ++ b'|' ∷ decimal run.duration_s)))))

-- What the loop meets at one group: whether it has providers, the reply of listWorkflowMetrics,
-- `none` being an error, whether it needs enrichment, what EnrichWorkflowMetrics makes of runs, and
-- whether a push has no error.
pub record Visit : Type 0 where
  pub has_providers : Bool
  pub listed : Option (List WorkflowMetrics)
  pub needs_enrichment : Bool
  pub enrich : List WorkflowMetrics → List WorkflowMetrics
  pub push_succeeds : Bool

abbrev pub final_runs : Visit → List WorkflowMetrics → List WorkflowMetrics
final_runs v [] = []
final_runs v (run ∷ runs) =
    if v.needs_enrichment then or_shallow (v.enrich (run ∷ runs)) (run ∷ runs) else run ∷ runs

-- The push, `none` where there is nothing to push, and the cache afterwards.
abbrev pub push_runs :
    Visit → List WorkflowMetrics → SeenCache → Option (List WorkflowMetrics) × SeenCache
push_runs v [] c = (none, c)
push_runs v (run ∷ runs) c =
    if v.push_succeeds
    then (some (run ∷ runs), mark_delivered workflow_metric_key (run ∷ runs) c)
    else (some (run ∷ runs), c)

abbrev pub deliver :
    Visit → Option (List WorkflowMetrics) → SeenCache → Option (List WorkflowMetrics) × SeenCache
deliver v none c = (none, c)
deliver v (some runs) c = push_runs v (final_runs v (filter_new workflow_metric_key c runs)) c

-- The body of the loop.
unfoldable pub visit_group : Visit → SeenCache → Option (List WorkflowMetrics) × SeenCache
visit_group v c = if v.has_providers then deliver v v.listed c else (none, c)

abbrev pub prepend_push :
    Option (List WorkflowMetrics) → List (List WorkflowMetrics) → List (List WorkflowMetrics)
prepend_push none pushes = pushes
prepend_push (some runs) pushes = runs ∷ pushes

-- The pushes in order, and the cache afterwards.
unfoldable pub visit_groups : List Visit → SeenCache → List (List WorkflowMetrics) × SeenCache
visit_groups [] c = ([], c)
visit_groups (v ∷ vs) c =
    let (pushed, after) = visit_group v c in
    let (pushes, last) = visit_groups vs after in (prepend_push pushed pushes, last)

unfoldable pub collect_workflow_metrics :
    Bool → List Visit → SeenCache → List (List WorkflowMetrics) × SeenCache
collect_workflow_metrics collect_workflows vs c =
    if collect_workflows then visit_groups vs c else ([], c)
