-- ===== src/Config/Validate.antt =====
-- internal/config/config.go: validate, with its checks across the runner classes.
use gh_runner_scaler.Prelude.{
  ℕ, ◌+◌, Bool, false, not, ◌&&◌, ◌||◌, Option, none, some, List, [], ◌∷◌, ◌++◌, ltb, if◌then◌else◌,
  nat_eq, Text, text_eq, contains,
}
use gh_runner_scaler.Prelude.Strings.{text, has_prefix}
use gh_runner_scaler.Prelude.Dict.{Dict, keys, get, put}
use gh_runner_scaler.Prelude.Results.{Checked, valid, invalid, and_then}
use gh_runner_scaler.Config.{RunnerClass, Config}
use gh_runner_scaler.Config.Target.{is_blank}
use gh_runner_scaler.Config.Cache.{validate_cache}
use gh_runner_scaler.Config.Classes.{runner_class_configs}
use gh_runner_scaler.Config.Sections.{
  check_credentials, check_legacy, check_scaler, check_ci, check_lxd, check_profiles, check_webhook,
  check_metrics, validate_runner_observability, validate_runner_distribution,
}

abbrev pub previous_of : Option Text → Text
previous_of none = []
previous_of (some previous) = previous

-- The loop over the classes, with the ids and the prefixes seen and the baselines counted.
unfoldable pub check_unique :
    List Text → Dict Text Text → ℕ → List RunnerClass → Checked (Dict Text Text × ℕ)
check_unique seen_ids seen_prefixes baselines [] = valid (seen_prefixes, baselines)
check_unique seen_ids seen_prefixes baselines (c ∷ cs) =
    let rest =
      check_unique (c.id ∷ seen_ids) (put c.prefix c.id seen_prefixes)
        (if c.baseline then baselines + 1 else baselines) cs in
    if contains c.id seen_ids
    then invalid (text "runner class id must be unique: " ++ c.id)
    else if contains c.prefix (keys seen_prefixes)
    then invalid (
        text "runner class prefix must be unique: "
        ++ (c.prefix
            ++ (text " used by "
                ++ (previous_of (get c.prefix seen_prefixes) ++ (text " and " ++ c.id)))))
    else if c.baseline && is_blank c.baseline_name
    then invalid (text "runner class " ++ (c.id ++ text " baseline_name is required"))
    else rest

abbrev pub starts_with_any : Text → List Text → Bool
starts_with_any name [] = false
starts_with_any name (prefix ∷ prefixes) = has_prefix name prefix || starts_with_any name prefixes

unfoldable pub check_baselines : List Text → List RunnerClass → Checked (Unit {0})
check_baselines prefixes [] = valid tt
check_baselines prefixes (c ∷ cs) =
    let rest = check_baselines prefixes cs in
    if not c.baseline
    then rest
    else if starts_with_any c.baseline_name prefixes
    then invalid (
        text "runner class "
        ++ (c.id ++ text " baseline_name must not start with a managed runner prefix"))
    else rest

unfoldable pub check_classes : List RunnerClass → Checked (Unit {0})
check_classes classes = and_then (check_unique [] [] 0 classes) (λ seen.
    if ltb 1 seen.1
    then invalid (text "only one runner class may enable baseline")
    else check_baselines (keys seen.0) classes)

abbrev pub require_state_dir : Config → Checked Config
require_state_dir cfg =
    if is_blank cfg.state_dir then invalid (text "state.filesystem.dir is required") else valid cfg

-- The checks from the webhook section on.
unfoldable pub check_rest : (Text → Bool) → Config → Checked Config
check_rest is_absolute_url cfg = and_then (check_webhook cfg.ci cfg.webhook) (λ _.
    and_then (check_metrics cfg.metrics) (λ _.
      and_then (validate_runner_observability is_absolute_url cfg.runner_observability) (λ _.
        and_then (validate_runner_distribution cfg.runner_distribution)
          (λ _. require_state_dir cfg))))

-- The checks of the caches and of the classes.
unfoldable pub check_pools : Config → Checked (Unit {0})
check_pools cfg = and_then (validate_cache (text "cache") cfg.cache) (λ _.
    and_then (check_profiles cfg.cache_profiles)
      (λ _. and_then (runner_class_configs cfg) check_classes))

-- The configuration comes back with the repository trimmed, the only field that validate sets.
unfoldable pub validate : (Text → Bool) → Config → Checked Config
validate is_absolute_url cfg = and_then (check_credentials cfg.ci) (λ _.
    and_then (check_legacy cfg) (λ _. and_then (check_scaler cfg.scaler) (λ _.
      and_then (check_ci cfg.ci) (λ ci. and_then (check_lxd cfg.container.lxd) (λ _.
        and_then (check_pools (record cfg { ci = ci }))
          (λ _. check_rest is_absolute_url (record cfg { ci = ci })))))))
