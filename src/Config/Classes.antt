-- ===== src/Config/Classes.antt =====
-- internal/config/config.go: RunnerClassConfigs, which resolves the runner classes.
pub mod Runnable
use gh_runner_scaler.Prelude.{
  Bool, true, false, not, ◌&&◌, Option, none, some, List, [], ◌∷◌, ◌++◌, if◌then◌else◌, nat_eq,
  Text, text_eq,
}
use gh_runner_scaler.Prelude.Strings.{text, trim_space}
use gh_runner_scaler.Prelude.Dict.{get}
use gh_runner_scaler.Prelude.Integers.{ℤ, is_negative, is_positive}
use gh_runner_scaler.Prelude.Results.{Checked, valid, invalid, and_then}
use gh_runner_scaler.Config.{CacheConfig, RunnerClass, RunnerClassConfig, Config}
use gh_runner_scaler.Config.Target.{
  is_blank, labels_list, clean_labels, first_nonempty, resolve_target, validate_runner_target,
}

abbrev pub runner_class_enabled : Option Bool → Bool
runner_class_enabled none = true
runner_class_enabled (some value) = value

abbrev pub or_default : Option ℤ → ℤ → ℤ
or_default none default = default
or_default (some n) default = n

-- The cache of the profile that the class names, or the common one. The message leaves out the quotes
-- that %q puts.
unfoldable pub class_cache : Config → Text → Text → Checked CacheConfig
class_cache cfg id [] = valid cfg.cache
class_cache cfg id (c ∷ profile) = elim (get (c ∷ profile) cfg.cache_profiles) [
  | none ↦
      invalid (
        text "runner class "
        ++ (id ++ (text " references unknown cache profile " ++ (c ∷ profile))))
  | some cache ↦ valid cache
]

abbrev pub or_labels : List Text → Text → List Text
or_labels [] labels = labels_list labels
or_labels (l ∷ ls) labels = l ∷ ls

-- The class before its checks.
abbrev pub resolved : Config → RunnerClassConfig → Text × Text → CacheConfig → RunnerClass
resolved cfg raw target cache =
    let labels = first_nonempty raw.labels cfg.scaler.labels in
    record {
      id = trim_space raw.id;
      org = target.0;
      repo = target.1;
      prefix = first_nonempty raw.prefix cfg.scaler.prefix;
      max_auto_runners = or_default raw.max_auto_runners cfg.scaler.max_auto_runners;
      idle_timeout =
          if is_positive raw.idle_timeout then raw.idle_timeout else cfg.scaler.idle_timeout;
      labels = labels;
      match_labels = or_labels (clean_labels raw.match_labels) labels;
      runner_work_dir = first_nonempty raw.runner_work_dir cfg.scaler.runner_work_dir;
      template = first_nonempty raw.template cfg.container.template;
      cache = cache;
      baseline = raw.baseline;
      baseline_name = trim_space raw.baseline_name;
    }

unfoldable pub check_class : RunnerClass → Checked RunnerClass
check_class c =
    if is_blank c.id
    then invalid (text "runner class id is required")
    else and_then (validate_runner_target (text "runner class " ++ c.id) c.org c.repo) (λ _.
      if is_blank c.prefix
      then invalid (text "runner class " ++ (c.id ++ text " prefix is required"))
      else if is_negative c.max_auto_runners
      then invalid (text "runner class " ++ (c.id ++ text " max_auto_runners must be >= 0"))
      else if not (is_positive c.idle_timeout)
      then invalid (text "runner class " ++ (c.id ++ text " idle_timeout must be > 0"))
      else if is_blank c.template
      then invalid (text "runner class " ++ (c.id ++ text " template is required"))
      else valid c)

unfoldable pub resolve_class : Config → RunnerClassConfig → Checked RunnerClass
resolve_class cfg raw =
    if not (is_blank (trim_space raw.org)) && not (is_blank (trim_space raw.repo))
    then invalid (
        text "runner class "
        ++ (trim_space raw.id ++ text " must set either org or repo, not both"))
    else and_then (class_cache cfg (trim_space raw.id) raw.cache_profile) (λ cache.
      check_class (resolved cfg raw (resolve_target raw.org raw.repo cfg.ci.org cfg.ci.repo) cache))

-- The loop over the entries.
unfoldable pub resolve_classes : Config → List RunnerClassConfig → Checked (List RunnerClass)
resolve_classes cfg [] = valid []
resolve_classes cfg (raw ∷ raws) =
    let rest = resolve_classes cfg raws in
    if not (runner_class_enabled raw.enabled)
    then rest
    else and_then (resolve_class cfg raw) (λ c. and_then rest (λ cs. valid (c ∷ cs)))

abbrev pub legacy_class : Config → Text × Text → RunnerClass
legacy_class cfg target = record {
  id = text "default";
  org = target.0;
  repo = target.1;
  prefix = cfg.scaler.prefix;
  max_auto_runners = cfg.scaler.max_auto_runners;
  idle_timeout = cfg.scaler.idle_timeout;
  labels = cfg.scaler.labels;
  match_labels = labels_list cfg.scaler.labels;
  runner_work_dir = cfg.scaler.runner_work_dir;
  template = cfg.container.template;
  cache = cfg.cache;
  baseline = false;
  baseline_name = [];
}

-- The class of a configuration without runner classes.
unfoldable pub single_class : Config → Checked (List RunnerClass)
single_class cfg =
    let target = resolve_target [] [] cfg.ci.org cfg.ci.repo in
    if is_blank cfg.container.template
    then invalid (text "container.template is required")
    else and_then (validate_runner_target (text "ci") target.0 target.1)
        (λ _. valid (legacy_class cfg target ∷ []))

abbrev pub require_class : List RunnerClass → Checked (List RunnerClass)
require_class [] = invalid (text "at least one enabled runner class is required")
require_class (c ∷ cs) = valid (c ∷ cs)

abbrev pub class_configs : Config → List RunnerClassConfig → Checked (List RunnerClass)
class_configs cfg [] = single_class cfg
class_configs cfg (raw ∷ raws) = and_then (resolve_classes cfg (raw ∷ raws)) require_class

unfoldable pub runner_class_configs : Config → Checked (List RunnerClass)
runner_class_configs cfg = class_configs cfg cfg.runner_classes
