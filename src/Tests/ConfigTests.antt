-- ===== src/Tests/ConfigTests.antt =====
-- The configuration at concrete inputs.
use gh_runner_scaler.Prelude.{
  ◌≡◌, refl, Bool, true, false, none, some, List, [], ◌∷◌, nat_eq, Text, text_eq,
}
use gh_runner_scaler.Prelude.Strings.{text, trim_space, has_prefix, contains_text, split, cut}
use gh_runner_scaler.Prelude.Integers.{pos}
use gh_runner_scaler.Prelude.Results.{valid}
use gh_runner_scaler.Config.{RunnerClassConfig, CachePruneConfig, CacheConfig, RunnerClass, Config}
use gh_runner_scaler.Config.Target.{
  clean_labels, labels_list, resolve_target, validate_repo_full_name, validate_runner_target,
}
use gh_runner_scaler.Config.Cache.{
  validate_cache, check_symlinks, check_prune, check_paths, is_clean,
}
use gh_runner_scaler.Config.Classes.{
  class_cache, check_class, resolve_class, resolve_classes, runner_class_configs,
}
use gh_runner_scaler.Config.Sections.{
  check_credentials, check_legacy, check_scaler, check_ci, check_lxd, check_profiles, check_webhook,
  check_metrics, validate_runner_observability, validate_runner_distribution,
}
use gh_runner_scaler.Config.Validate.{
  check_unique, check_baselines, check_classes, check_rest, check_pools, validate,
}
use gh_runner_scaler.Config.Sound.{IsSound, validate-IsSound}

abbrev pruned : CachePruneConfig
pruned = record {
  enabled = true;
  interval = pos 60;
  max_age = pos 600;
  temp_max_age = pos 300;
  paths = text "/cache/go" ∷ [];
}

abbrev cached : CacheConfig
cached = record {
  enabled = true;
  pool = text "ssd";
  volume = text "cache";
  prune = pruned;
  symlinks = record { source = text "/cache/go"; target = text "/root/go" } ∷ [];
}

abbrev class_of : Text → Text → Bool → Text → RunnerClassConfig
class_of id prefix baseline name = record {
  enabled = none;
  id = id;
  org = [];
  repo = text "o/app";
  prefix = prefix;
  max_auto_runners = some (pos 2);
  idle_timeout = pos 0;
  labels = text "x64";
  match_labels = [];
  runner_work_dir = [];
  template = [];
  cache_profile = [];
  baseline = baseline;
  baseline_name = name;
}

-- Two classes, one of them with a baseline.
abbrev pub cfg : Config
cfg = record {
  scaler = record {
    prefix = [];
    max_auto_runners = pos 3;
    idle_timeout = pos 300;
    poll_interval = pos 60;
    queue_audit_interval = pos 60;
    demand_ttl = pos 600;
    labels = text "self-hosted";
    runner_work_dir = text "_work";
  };
  container = record {
    provider = text "lxd";
    template = text "base";
    lxd = record {
      socket = [];
      remote = [];
      remote_url = [];
      remote_cert = [];
      remote_key = [];
      network = [];
    };
  };
  cache = cached;
  cache_profiles = [];
  ci = record {
    provider = text "github";
    org = text "o";
    repo = [];
    github = record { token = text "t"; webhook_secret = [] };
  };
  runner_classes =
      class_of (text "a") (text "auto-a") false []
      ∷ class_of (text "b") (text "auto-b") true (text "fixed")
      ∷ [];
  webhook = record {
    enabled = false;
    port = pos 0;
    debounce = pos 0;
    sync_repos = [];
    logs_token = [];
  };
  metrics = record {
    enabled = false;
    interval = pos 0;
    collect_workflows = false;
    workflow_repo_batch_size = pos 25;
    collect_host = false;
    loki = record { push_url = []; username = []; api_key = [] };
  };
  runner_observability = record {
    enabled = false;
    push_url = [];
    health_url = [];
    credential_configured = false;
    max_retries = pos 0;
  };
  runner_distribution = record {
    enabled = false;
    repository = [];
    platform = [];
    cache_dir = [];
    version_file = [];
    check_interval = pos 0;
    retain_versions = pos 0;
  };
  state_provider = text "filesystem";
  state_dir = text "/var/lib/scaler";
}

pub cfg-valid : validate (λ url. true) cfg ≡ valid cfg
unfolding validate check_credentials check_legacy check_scaler check_ci check_lxd check_pools
    check_rest validate_cache check_symlinks check_prune check_paths is_clean check_profiles
    runner_class_configs resolve_classes resolve_class class_cache check_class
    validate_runner_target validate_repo_full_name clean_labels labels_list resolve_target
    check_classes check_unique check_baselines check_webhook check_metrics
    validate_runner_observability validate_runner_distribution trim_space has_prefix split cut
    contains_text
cfg-valid = refl

validate-IsSound_example :
    (cs : List RunnerClass) × (runner_class_configs cfg ≡ valid cs) × IsSound cs
validate-IsSound_example = validate-IsSound (λ url. true) cfg cfg cfg-valid
