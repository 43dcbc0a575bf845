-- ===== src/Config/Environment.antt =====
-- internal/config/config.go: the environment variables, and Load. `getenv` is os.Getenv: the empty
-- text for a variable that is not set.
use gh_runner_scaler.Prelude.{Bool, not, ◌||◌, Option, none, some, nat_eq, Text, text_eq}
use gh_runner_scaler.Prelude.Strings.{text}
use gh_runner_scaler.Prelude.Results.{Checked, invalid}
use gh_runner_scaler.Config.{GitHubConfig, LokiConfig, Config}
use gh_runner_scaler.Config.Target.{is_blank, first_nonempty}
use gh_runner_scaler.Config.Validate.{validate}

-- The token for the logs: the variable, else what is there, else the webhook secret.
abbrev pub logs_token_of : Text → Text → Text → Text
logs_token_of var old secret = first_nonempty var (first_nonempty old secret)

unfoldable pub apply_env_overrides : (Text → Text) → Config → Config
apply_env_overrides getenv cfg =
    let github : GitHubConfig = record {
      token = first_nonempty (getenv (text "GH_SCALER_GITHUB_TOKEN")) cfg.ci.github.token;
      webhook_secret =
          first_nonempty (getenv (text "GH_WEBHOOK_SECRET")) cfg.ci.github.webhook_secret;
    } in
    let loki : LokiConfig = record {
      push_url = first_nonempty (getenv (text "LOKI_PUSH_URL")) cfg.metrics.loki.push_url;
      username = first_nonempty (getenv (text "LOKI_USERNAME")) cfg.metrics.loki.username;
      api_key = first_nonempty (getenv (text "LOKI_API_KEY")) (
          first_nonempty (getenv (text "LOKI_PASSWORD"))
            (first_nonempty (getenv (text "GRAFANA_CLOUD_API_KEY")) cfg.metrics.loki.api_key));
    } in
    record cfg {
      ci = record cfg.ci { github = github };
      webhook = record cfg.webhook {
        logs_token =
            logs_token_of (getenv (text "GH_SCALER_LOG_TOKEN")) cfg.webhook.logs_token
              github.webhook_secret;
      };
      metrics = record cfg.metrics { loki = loki };
      runner_observability = record cfg.runner_observability {
        push_url =
            first_nonempty (getenv (text "RUNNER_LOG_LOKI_PUSH_URL"))
              cfg.runner_observability.push_url;
        health_url =
            first_nonempty (getenv (text "RUNNER_LOG_LOKI_HEALTH_URL"))
              cfg.runner_observability.health_url;
        credential_configured =
            not (is_blank (getenv (text "RUNNER_LOG_LOKI_USERNAME")))
            || not (is_blank (getenv (text "RUNNER_LOG_LOKI_PASSWORD")))
            || not (is_blank (getenv (text "RUNNER_LOG_LOKI_API_KEY")));
      };
    }

-- The file, decoded over the defaults by the TOML package, `none` where that fails.
unfoldable pub load : (Text → Bool) → (Text → Text) → Option Config → Checked Config
load is_absolute_url getenv none = invalid (text "reading config")
load is_absolute_url getenv (some decoded) =
    validate is_absolute_url (apply_env_overrides getenv decoded)
