-- ===== src/Config/Sections.antt =====
-- internal/config/config.go: the checks of validate, section by section, in their order.
use gh_runner_scaler.Prelude.{
  ℕ, Bool, true, false, not, ◌&&◌, ◌||◌, List, [], ◌∷◌, ◌++◌, ltb, if◌then◌else◌, ◌==◌, nat_eq,
  Text, text_eq,
}
use gh_runner_scaler.Prelude.Strings.{text, trim_space, split}
use gh_runner_scaler.Prelude.Dict.{Dict}
use gh_runner_scaler.Prelude.Integers.{ℤ, pos, negsuc, is_negative, is_positive}
use gh_runner_scaler.Prelude.Results.{Checked, valid, invalid, and_then}
use gh_runner_scaler.Config.{
  ScalerConfig, LxdConfig, CacheConfig, RunnerClassConfig, WebhookConfig, MetricsConfig,
  RunnerObservabilityConfig, RunnerDistributionConfig, CiConfig, Config,
}
use gh_runner_scaler.Config.Target.{is_blank, validate_repo_full_name}
use gh_runner_scaler.Config.Cache.{is_abs, validate_cache}

-- i < n
abbrev pub is_below : ℕ → ℤ → Bool
is_below n (pos m) = ltb m n
is_below n (negsuc m) = true

-- n < i
abbrev pub exceeds : ℕ → ℤ → Bool
exceeds n (pos m) = ltb n m
exceeds n (negsuc m) = false

abbrev pub has_classes : List RunnerClassConfig → Bool
has_classes [] = false
has_classes (c ∷ cs) = true

unfoldable pub check_credentials : CiConfig → Checked (Unit {0})
check_credentials ci =
    if is_blank ci.github.token && ci.provider == text "github"
    then invalid (text "GH_SCALER_GITHUB_TOKEN env var is required")
    else valid tt

-- The fields of the scaler section that only a configuration without runner classes needs.
unfoldable pub check_legacy : Config → Checked (Unit {0})
check_legacy cfg =
    if has_classes cfg.runner_classes
    then valid tt
    else if is_blank cfg.scaler.prefix
    then invalid (text "scaler.prefix is required")
    else if is_negative cfg.scaler.max_auto_runners
    then invalid (text "scaler.max_auto_runners must be >= 0")
    else if not (is_positive cfg.scaler.idle_timeout)
    then invalid (text "scaler.idle_timeout must be > 0")
    else valid tt

unfoldable pub check_scaler : ScalerConfig → Checked (Unit {0})
check_scaler scaler =
    if not (is_positive scaler.poll_interval)
    then invalid (text "scaler.poll_interval must be > 0")
    else if not (is_positive scaler.queue_audit_interval)
    then invalid (text "scaler.queue_audit_interval must be > 0")
    else if not (is_positive scaler.demand_ttl)
    then invalid (text "scaler.demand_ttl must be > 0")
    else valid tt

-- The repository comes back without the space around it.
unfoldable pub check_ci : CiConfig → Checked CiConfig
check_ci ci =
    let trimmed = record ci { repo = trim_space ci.repo } in
    if not (is_blank (trim_space ci.org)) && not (is_blank (trim_space ci.repo))
    then invalid (text "ci must set either org or repo, not both")
    else if is_blank trimmed.repo
    then valid trimmed
    else and_then (validate_repo_full_name (text "ci.repo") trimmed.repo) (λ _. valid trimmed)

abbrev pub differs : Bool → Bool → Bool
differs true b = not b
differs false b = b

unfoldable pub check_lxd : LxdConfig → Checked (Unit {0})
check_lxd lxd =
    if differs (is_blank lxd.remote_cert) (is_blank lxd.remote_key)
    then invalid (text "container.lxd.remote_cert and remote_key must be set together")
    else valid tt

-- The profiles in the order of iteration.
unfoldable pub check_profiles : Dict Text CacheConfig → Checked (Unit {0})
check_profiles [] = valid tt
check_profiles ((name, profile) ∷ profiles) =
    let rest = check_profiles profiles in
    and_then (validate_cache (text "cache_profiles." ++ name) profile) (λ _. rest)

unfoldable pub check_webhook : CiConfig → WebhookConfig → Checked (Unit {0})
check_webhook ci webhook =
    if not webhook.enabled
    then valid tt
    else if is_blank ci.github.webhook_secret && ci.provider == text "github"
    then invalid (text "GH_WEBHOOK_SECRET env var is required when webhook is enabled")
    else if not (is_positive webhook.port) || exceeds 65535 webhook.port
    then invalid (text "webhook.port must be between 1 and 65535")
    else if is_negative webhook.debounce
    then invalid (text "webhook.debounce must be >= 0")
    else valid tt

unfoldable pub check_metrics : MetricsConfig → Checked (Unit {0})
check_metrics metrics =
    if metrics.enabled && is_blank metrics.loki.push_url
    then invalid (text "LOKI_PUSH_URL env var is required when metrics are enabled")
    else if metrics.enabled
        && differs (is_blank metrics.loki.username) (is_blank metrics.loki.api_key)
    then invalid (
        text
          "LOKI_USERNAME and LOKI_API_KEY/LOKI_PASSWORD must be set together when Loki requires basic auth")
    else if metrics.enabled && not (is_positive metrics.interval)
    then invalid (text "metrics.interval must be > 0")
    else if is_negative metrics.workflow_repo_batch_size
    then invalid (text "metrics.workflow_repo_batch_size must be >= 0")
    else valid tt

-- `is_absolute_url` is url.ParseRequestURI with a scheme and a host in the result.
unfoldable pub validate_runner_observability :
    (Text → Bool) → RunnerObservabilityConfig → Checked (Unit {0})
validate_runner_observability is_absolute_url cfg =
    if not cfg.enabled
    then valid tt
    else if cfg.credential_configured
    then invalid (text "runner_observability must not use credentials")
    else if not (is_absolute_url cfg.push_url)
    then invalid (text "RUNNER_LOG_LOKI_PUSH_URL is required and must be an absolute URL")
    else if not (is_absolute_url cfg.health_url)
    then invalid (text "RUNNER_LOG_LOKI_HEALTH_URL is required and must be an absolute URL")
    else if is_negative cfg.max_retries
    then invalid (text "runner_observability has invalid retry limit")
    else valid tt

abbrev pub is_two_parts : List Text → Bool
is_two_parts (owner ∷ name ∷ []) = not (is_blank owner) && not (is_blank name)
is_two_parts _ = false

unfoldable pub validate_runner_distribution : RunnerDistributionConfig → Checked (Unit {0})
validate_runner_distribution cfg =
    if not cfg.enabled
    then valid tt
    else if not (is_two_parts (split b'/' cfg.repository))
    then invalid (text "runner_distribution.repository must be owner/name")
    else if not (cfg.platform == text "linux-x64")
    then invalid (text "runner_distribution.platform must be linux-x64")
    else if not (is_abs cfg.cache_dir)
    then invalid (text "runner_distribution.cache_dir must be absolute")
    else if not (is_abs cfg.version_file)
    then invalid (text "runner_distribution.version_file must be absolute")
    else if is_below 3600000000000 cfg.check_interval
    then invalid (text "runner_distribution.check_interval must be at least 1h")
    else if is_below 2 cfg.retain_versions
    then invalid (text "runner_distribution.retain_versions must be at least 2")
    else valid tt
