-- ===== src/Config.antt =====
-- internal/config/config.go: the configuration as the TOML decoder leaves it. A duration is its
-- number of nanoseconds.
pub mod Target
pub mod Cache
pub mod Classes
pub mod Sections
pub mod Validate
pub mod Pruning
pub mod Sound
pub mod Environment
use gh_runner_scaler.Prelude.{Bool, Option, List, Text}
use gh_runner_scaler.Prelude.Dict.{Dict}
use gh_runner_scaler.Prelude.Integers.{ℤ}

pub record ScalerConfig : Type 0 where
  pub prefix : Text
  pub max_auto_runners : ℤ
  pub idle_timeout : ℤ
  pub poll_interval : ℤ
  pub queue_audit_interval : ℤ
  pub demand_ttl : ℤ
  pub labels : Text
  pub runner_work_dir : Text

-- A field that is `none` stands for a nil pointer.
pub record RunnerClassConfig : Type 0 where
  pub enabled : Option Bool
  pub id : Text
  pub org : Text
  pub repo : Text
  pub prefix : Text
  pub max_auto_runners : Option ℤ
  pub idle_timeout : ℤ
  pub labels : Text
  pub match_labels : List Text
  pub runner_work_dir : Text
  pub template : Text
  pub cache_profile : Text
  pub baseline : Bool
  pub baseline_name : Text

pub record SymlinkConfig : Type 0 where
  pub source : Text
  pub target : Text

pub record CachePruneConfig : Type 0 where
  pub enabled : Bool
  pub interval : ℤ
  pub max_age : ℤ
  pub temp_max_age : ℤ
  pub paths : List Text

pub record CacheConfig : Type 0 where
  pub enabled : Bool
  pub pool : Text
  pub volume : Text
  pub prune : CachePruneConfig
  pub symlinks : List SymlinkConfig

pub record RunnerClass : Type 0 where
  pub id : Text
  pub org : Text
  pub repo : Text
  pub prefix : Text
  pub max_auto_runners : ℤ
  pub idle_timeout : ℤ
  pub labels : Text
  pub match_labels : List Text
  pub runner_work_dir : Text
  pub template : Text
  pub cache : CacheConfig
  pub baseline : Bool
  pub baseline_name : Text

pub record LxdConfig : Type 0 where
  pub socket : Text
  pub remote : Text
  pub remote_url : Text
  pub remote_cert : Text
  pub remote_key : Text
  pub network : Text

pub record ContainerConfig : Type 0 where
  pub provider : Text
  pub template : Text
  pub lxd : LxdConfig

pub record GitHubConfig : Type 0 where
  pub token : Text
  pub webhook_secret : Text

pub record CiConfig : Type 0 where
  pub provider : Text
  pub org : Text
  pub repo : Text
  pub github : GitHubConfig

pub record WebhookConfig : Type 0 where
  pub enabled : Bool
  pub port : ℤ
  pub debounce : ℤ
  pub sync_repos : Dict Text Text
  pub logs_token : Text

pub record LokiConfig : Type 0 where
  pub push_url : Text
  pub username : Text
  pub api_key : Text

pub record MetricsConfig : Type 0 where
  pub enabled : Bool
  pub interval : ℤ
  pub collect_workflows : Bool
  pub workflow_repo_batch_size : ℤ
  pub collect_host : Bool
  pub loki : LokiConfig

pub record RunnerObservabilityConfig : Type 0 where
  pub enabled : Bool
  pub push_url : Text
  pub health_url : Text
  pub credential_configured : Bool
  pub max_retries : ℤ

pub record RunnerDistributionConfig : Type 0 where
  pub enabled : Bool
  pub repository : Text
  pub platform : Text
  pub cache_dir : Text
  pub version_file : Text
  pub check_interval : ℤ
  pub retain_versions : ℤ

-- `state_dir` is state.filesystem.dir, `state_provider` state.provider.
pub record Config : Type 0 where
  pub scaler : ScalerConfig
  pub container : ContainerConfig
  pub cache : CacheConfig
  pub cache_profiles : Dict Text CacheConfig
  pub ci : CiConfig
  pub runner_classes : List RunnerClassConfig
  pub webhook : WebhookConfig
  pub metrics : MetricsConfig
  pub runner_observability : RunnerObservabilityConfig
  pub runner_distribution : RunnerDistributionConfig
  pub state_provider : Text
  pub state_dir : Text
