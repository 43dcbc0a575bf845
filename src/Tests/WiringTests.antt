-- ===== src/Tests/WiringTests.antt =====
-- The wiring at concrete inputs.
use gh_runner_scaler.Prelude.{
  ◌≡◌, refl, ◌↔◌, Bool, true, false, none, List, [], ◌∷◌, ◌++◌, nat_eq, Text, text_eq,
}
use gh_runner_scaler.Prelude.Strings.{
  text, to_lower, trim_space, has_prefix, contains_text, split, cut,
}
use gh_runner_scaler.Prelude.Results.{valid}
use gh_runner_scaler.Config.Target.{
  clean_labels, labels_list, resolve_target, validate_repo_full_name, validate_runner_target,
}
use gh_runner_scaler.Config.Classes.{
  class_cache, check_class, resolve_class, resolve_classes, runner_class_configs,
}
use gh_runner_scaler.Github.Repos.{split_repo_full_name}
use gh_runner_scaler.Github.Workflows.{new_for_repo}
use gh_runner_scaler.Wiring.{
  Makers, WiredGroup, repo_scoped, class_target_name, github_target_cache_key, metrics_target_of,
  daemon_metrics_target, wire_runtime_and_cache, wire_state, wire_ci_provider, reconciler_config,
  runner_group, wire_class, wire_classes, wire_runner_groups,
}
use gh_runner_scaler.Wiring.Groups.{IsRouted, wire_runner_groups-IsRouted}
use gh_runner_scaler.Wiring.Targets.{IsSameTarget}
use gh_runner_scaler.Wiring.Sharing.{wire_runner_groups-IsSameTarget}
use gh_runner_scaler.Tests.ConfigTests.{cfg, cfg-valid}

abbrev makers : Makers
makers = record { lxd_error = λ class. none; state_error = λ dir. none }

abbrev group_of : Text → Text → Bool → Text → WiredGroup
group_of id prefix baseline name = record {
  group = record {
    id = id;
    target = text "o/app";
    repo_scoped = true;
    prefix = prefix;
    match_labels = text "x64" ∷ [];
    baseline_name = name;
    cache_pool = text "ssd";
  };
  reconciler = record {
    prefix = prefix;
    baseline = baseline;
    baseline_name = name;
    max_auto_runners = 2;
    idle_timeout = 300;
    labels = text "x64";
    runner_work_dir = text "_work";
    cache_enabled = true;
    ready_check = [];
    ready_timeout = 0;
    has_cache = true;
    has_observability = false;
  };
  ci = record {
    target = record { org = text "o"; repo = text "app" };
    inventory = text "a";
    webhook_secret = [];
    workflow_repo_batch_size = 25;
  };
  state_dir = text "/var/lib/scaler/runner-groups/" ++ id;
}

abbrev groups : List WiredGroup
groups =
    group_of (text "a") (text "auto-a") false []
    ∷ group_of (text "b") (text "auto-b") true (text "fixed")
    ∷ []

-- Both classes have the same repository, so they share the inventory of the first one.
cfg-groups : wire_runner_groups makers cfg ≡ valid (groups, text "o/app")
unfolding wire_runner_groups wire_classes wire_class wire_runtime_and_cache wire_ci_provider
    wire_state repo_scoped class_target_name github_target_cache_key metrics_target_of
    daemon_metrics_target reconciler_config runner_group new_for_repo split_repo_full_name
    runner_class_configs resolve_classes resolve_class class_cache check_class
    validate_runner_target validate_repo_full_name clean_labels labels_list resolve_target
    trim_space has_prefix split cut contains_text to_lower
cfg-groups = refl

wire_runner_groups-IsRouted_example : IsRouted groups
wire_runner_groups-IsRouted_example =
    wire_runner_groups-IsRouted (λ url. true) makers cfg cfg groups (text "o/app") cfg-valid
      cfg-groups

wire_runner_groups-IsSameTarget_example :
    (text "a" ≡ text "a")
    ↔ IsSameTarget
        (group_of (text "a") (text "auto-a") false []).group
        (group_of (text "b") (text "auto-b") true (text "fixed")).group
wire_runner_groups-IsSameTarget_example =
    wire_runner_groups-IsSameTarget (λ url. true) makers cfg cfg groups (text "o/app") 0 1
      (group_of (text "a") (text "auto-a") false [])
      (group_of (text "b") (text "auto-b") true (text "fixed")) cfg-valid cfg-groups refl refl
