-- ===== src/Daemon/Workflows/Delivery.antt =====
-- internal/daemon/daemon.go with provider/github/ci.go: a workflow run is reported once.
use gh_runner_scaler.Prelude.{
  ◌+◌, ◌≤◌, ◌≡◌, refl, ap, ◌∙◌, inl, inr, Bool, true, false, Option, none, some, List, [], ◌∷◌,
  arith, Bool-cases, length, nat_eq, Text, text_eq, contains,
}
use gh_runner_scaler.Daemon.SeenCache.{SeenCache, filter_new, fresh_items, record_keys}
use gh_runner_scaler.Daemon.SeenCache.Delivery.{
  keys_of, filter_new_lem, filter_new_nil, mark_delivered_room, contains-record_keys,
}
use gh_runner_scaler.Github.Repos.{Target}
use gh_runner_scaler.Github.Failures.{should_enrich_workflow_failure}
use gh_runner_scaler.Github.Workflows.{
  WorkflowApi, WorkflowMetrics, enriched, enrich_workflow_metrics, or_shallow,
}
use gh_runner_scaler.Daemon.Workflows.{
  Visit, workflow_metric_key, final_runs, push_runs, deliver, visit_group,
}

abbrev pub keys : List WorkflowMetrics → List Text
keys runs = keys_of workflow_metric_key runs

-- Enrichment fills in the failure only, so it keeps the number of runs and their keys.
enriched-workflow_metric_key :
    (t : Target) (api : WorkflowApi) (run : WorkflowMetrics)
    → workflow_metric_key (enriched t api run).0 ≡ workflow_metric_key run
unfolding enriched workflow_metric_key
enriched-workflow_metric_key t api run =
    elim (Bool-cases (should_enrich_workflow_failure run.conclusion)) [
      | inl failed ↦ rw failed refl
      | inr fine ↦ rw fine refl
    ]

enrich-keys :
    (t : Target) (api : WorkflowApi) (runs : List WorkflowMetrics)
    → keys (enrich_workflow_metrics t api runs).0 ≡ keys runs
unfolding enrich_workflow_metrics
enrich-keys t api [] = refl
enrich-keys t api (run ∷ runs) =
    ap (λ k. k ∷ keys (enrich_workflow_metrics t api runs).0)
      (enriched-workflow_metric_key t api run)
    ∙ ap (λ ks. workflow_metric_key run ∷ ks) (enrich-keys t api runs)

length-keys : (runs : List WorkflowMetrics) → length (keys runs) ≡ length runs
length-keys [] = refl
length-keys (run ∷ runs) = omega (arith, length-keys runs)

-- The group of a target on GitHub, with its providers.
abbrev pub github_visit : Target → WorkflowApi → Bool → Option (List WorkflowMetrics) → Bool → Visit
github_visit t api needs_enrichment listed push_succeeds = record {
  has_providers = true;
  listed = listed;
  needs_enrichment = needs_enrichment;
  enrich = λ runs. (enrich_workflow_metrics t api runs).0;
  push_succeeds = push_succeeds;
}

or_shallow-keys :
    (more runs : List WorkflowMetrics)
    → keys more ≡ keys runs
    → keys (or_shallow more runs) ≡ keys runs
or_shallow-keys [] runs h = refl
or_shallow-keys (run ∷ more) runs h = h

final_runs-keys :
    (t : Target) (api : WorkflowApi) (needs push : Bool) (listed : Option (List WorkflowMetrics))
    (runs : List WorkflowMetrics)
    → keys (final_runs (github_visit t api needs listed push) runs) ≡ keys runs
final_runs-keys t api needs push listed [] = refl
final_runs-keys t api true push listed (run ∷ runs) =
    or_shallow-keys _ (run ∷ runs) (enrich-keys t api (run ∷ runs))
final_runs-keys t api false push listed (run ∷ runs) = refl

length-fresh_items :
    (delivered seen : List Text) (runs : List WorkflowMetrics)
    → length (fresh_items workflow_metric_key delivered seen runs) ≤ length runs
unfolding fresh_items
length-fresh_items delivered seen [] = omega arith
length-fresh_items delivered seen (run ∷ runs) = ground (
  arith,
  length-fresh_items delivered seen runs,
  length-fresh_items delivered (workflow_metric_key run ∷ seen) runs,
)

abbrev pub pushed_keys : Option (List WorkflowMetrics) → List Text
pushed_keys none = []
pushed_keys (some runs) = keys runs

push_runs-keys :
    (v : Visit) (runs : List WorkflowMetrics) (c : SeenCache)
    → pushed_keys (push_runs v runs c).0 ≡ keys runs
push_runs-keys v [] c = refl
push_runs-keys v (run ∷ runs) c = elim (Bool-cases v.push_succeeds) [
  | inl ok ↦ rw ok refl
  | inr fails ↦ rw fails refl
]

push_runs_fails :
    (v : Visit) (runs : List WorkflowMetrics) (c : SeenCache)
    → v.push_succeeds ≡ false
    → (push_runs v runs c).1 ≡ c
push_runs_fails v [] c fails = refl
push_runs_fails v (run ∷ runs) c fails = rw fails refl

push_runs_succeeds :
    (v : Visit) (runs : List WorkflowMetrics) (c : SeenCache)
    → v.push_succeeds ≡ true
    → length c.order + length runs ≤ c.limit
    → (push_runs v runs c).1 ≡ record_keys workflow_metric_key runs c
unfolding record_keys
push_runs_succeeds v [] c ok room = refl
push_runs_succeeds v (run ∷ runs) c ok room =
    rw ok (mark_delivered_room workflow_metric_key (run ∷ runs) c room)

module _ (t : Target) (api : WorkflowApi) (needs : Bool) (listed : List WorkflowMetrics)
    (c : SeenCache) where
  abbrev fresh : List WorkflowMetrics
  fresh = filter_new workflow_metric_key c listed

  abbrev final : Bool → List WorkflowMetrics
  final push = final_runs (github_visit t api needs (some listed) push) fresh

  visited :
      (push : Bool) (d : SeenCache)
      → visit_group (github_visit t api needs (some listed) push) d
        ≡ deliver (github_visit t api needs (some listed) push) (some listed) d
  unfolding visit_group
  visited push d = refl

  length-final : (push : Bool) → length (final push) ≤ length listed
  unfolding filter_new
  length-final push = omega (
    arith,
    length-keys (final push),
    length-keys fresh,
    ap length (final_runs-keys t api needs push (some listed) fresh),
    length-fresh_items c.keys [] listed,
  )

  -- Once the keys of what was pushed are recorded, nothing of the listing is new.
  nothing_new :
      (push : Bool)
      → filter_new workflow_metric_key (record_keys workflow_metric_key (final push) c) listed ≡ []
  nothing_new push =
      filter_new_nil workflow_metric_key listed (record_keys workflow_metric_key (final push) c)
        (λ k asked. ground (
          arith,
          asked,
          contains-record_keys workflow_metric_key k (final push) c,
          ap (contains k) (final_runs-keys t api needs push (some listed) fresh),
          (filter_new_lem workflow_metric_key listed c).1 k,
        ))

  none_pushed :
      (d : SeenCache)
      → filter_new workflow_metric_key d listed ≡ []
      → (deliver (github_visit t api needs (some listed) true) (some listed) d).0 ≡ none
  none_pushed d h = rw h refl

  pub visit_group_once :
      length c.order + length listed ≤ c.limit
      → ((push : Bool)
          → pushed_keys (visit_group (github_visit t api needs (some listed) push) c).0
            ≡ keys (filter_new workflow_metric_key c listed))
        × ((visit_group
              (github_visit t api needs (some listed) true)
              (visit_group (github_visit t api needs (some listed) true) c).1).0
            ≡ none)
        × ((visit_group (github_visit t api needs (some listed) false) c).1 ≡ c)
  unfolding visit_group
  visit_group_once room =
      let recorded =
        push_runs_succeeds (github_visit t api needs (some listed) true) (final true) c refl
          (omega (arith, room, length-final true)) in
      (
        λ push.
            push_runs-keys (github_visit t api needs (some listed) push) (final push) c
            ∙ final_runs-keys t api needs push (some listed) fresh,
        none_pushed _
            (ap (λ d. filter_new workflow_metric_key d listed) recorded ∙ nothing_new true),
        push_runs_fails (github_visit t api needs (some listed) false) (final false) c refl,
      )
