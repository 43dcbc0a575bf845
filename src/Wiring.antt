-- ===== src/Wiring.antt =====
-- cmd/scaler/main.go: the runner groups that a configuration is wired into.
pub mod Groups
pub mod Targets
pub mod Sharing
use gh_runner_scaler.Prelude.{
  ℕ, Bool, true, false, not, Option, none, some, List, [], ◌∷◌, ◌++◌, if◌then◌else◌, ◌==◌, nat_eq,
  Text, text_eq,
}
use gh_runner_scaler.Prelude.Strings.{text, to_lower}
use gh_runner_scaler.Prelude.Dict.{Dict, get, put}
use gh_runner_scaler.Prelude.Integers.{ℤ, pos, negsuc}
use gh_runner_scaler.Prelude.Results.{Checked, valid, invalid, and_then}
use gh_runner_scaler.Config.{RunnerClass, Config}
use gh_runner_scaler.Config.Classes.{runner_class_configs}
use gh_runner_scaler.Engine.Settings.{ReconcilerConfig}
use gh_runner_scaler.Daemon.Routing.{RunnerGroup}
use gh_runner_scaler.Github.Repos.{Target}
use gh_runner_scaler.Github.Workflows.{new, new_for_repo}

abbrev pub is_set : Text → Bool
is_set [] = false
is_set (c ∷ s) = true

-- RunnerClass.RepoScoped, RunnerClass.TargetName
unfoldable pub repo_scoped : RunnerClass → Bool
repo_scoped class = is_set class.repo

unfoldable pub class_target_name : RunnerClass → Text
class_target_name class = if is_set class.repo then class.repo else class.org

unfoldable pub github_target_cache_key : RunnerClass → Text
unfolding repo_scoped
github_target_cache_key class =
    if repo_scoped class
    then to_lower (text "repo:" ++ class.repo)
    else to_lower (text "org:" ++ class.org)

-- The loop of daemonMetricsTarget over the classes after the first one.
unfoldable pub metrics_target_of : Text → List RunnerClass → Text
metrics_target_of target [] = target
metrics_target_of target (class ∷ classes) =
    let rest = metrics_target_of target classes in
    if not (to_lower (class_target_name class) == to_lower target)
    then text "multi-target"
    else rest

unfoldable pub daemon_metrics_target : List RunnerClass → Text
daemon_metrics_target [] = []
daemon_metrics_target (class ∷ classes) = metrics_target_of (class_target_name class) classes

-- What the constructors of the providers answer: `some` is the message of an error. The LXD client
-- is made for a class, a state store for its directory.
pub record Makers : Type 0 where
  pub lxd_error : RunnerClass → Option Text
  pub state_error : Text → Option Text

abbrev pub unless_error : Text → Option Text → Checked (Unit {0})
unless_error label none = valid tt
unless_error label (some message) = invalid (label ++ message)

unfoldable pub wire_runtime_and_cache : Makers → Config → RunnerClass → Checked (Unit {0})
wire_runtime_and_cache makers cfg class =
    if cfg.container.provider == text "lxd"
    then unless_error (text "lxd runtime: ") (makers.lxd_error class)
    else invalid (text "unsupported container provider: " ++ cfg.container.provider)

unfoldable pub wire_state : Makers → Config → Text → Checked (Unit {0})
wire_state makers cfg dir =
    if cfg.state_provider == text "filesystem"
    then unless_error (text "filesystem state: ") (makers.state_error dir)
    else invalid (text "unsupported state provider: " ++ cfg.state_provider)

abbrev pub or_malformed : Text → Option Target → Checked Target
or_malformed repo none = invalid (text "repo target must be in owner/name form: " ++ repo)
or_malformed repo (some t) = valid t

-- The class whose provider holds the inventory for the target, and the providers by target
-- afterwards, each as the id of its class.
abbrev pub shared_by : Text → Text → Dict Text Text → Option Text → Text × Dict Text Text
shared_by key id providers (some owner) = (owner, providers)
shared_by key id providers none = (id, put key id providers)

-- A negative number as 0, which SetWorkflowRepoBatchSize makes of it.
abbrev pub magnitude : ℤ → ℕ
magnitude (pos n) = n
magnitude (negsuc n) = 0

-- A provider: its target, the class whose inventory it uses, and what the setters leave in it.
pub record CiProvider : Type 0 where
  pub target : Target
  pub inventory : Text
  pub webhook_secret : Text
  pub workflow_repo_batch_size : ℕ

unfoldable pub wire_ci_provider :
    Config → RunnerClass → Dict Text Text → Checked (CiProvider × Dict Text Text)
unfolding repo_scoped
wire_ci_provider cfg class providers =
    let key = github_target_cache_key class in
    let (owner, after) = shared_by key class.id providers (get key providers) in
    if not (cfg.ci.provider == text "github")
    then invalid (text "unsupported CI provider: " ++ cfg.ci.provider)
    else and_then
        (if repo_scoped class
          then or_malformed class.repo (new_for_repo class.repo)
          else valid (new class.org))
        (λ t. valid (
          record {
            target = t;
            inventory = owner;
            webhook_secret = cfg.ci.github.webhook_secret;
            workflow_repo_batch_size = magnitude cfg.metrics.workflow_repo_batch_size;
          },
          after,
        ))

-- filepath.Join(dir, "runner-groups", id), but for the cleaning of the path
abbrev pub state_dir_of : Config → RunnerClass → Text
state_dir_of cfg class = elim cfg.runner_classes [
  | [] ↦ cfg.state_dir
  | c ∷ cs ↦ cfg.state_dir ++ (text "/runner-groups/" ++ class.id)
]

-- The maximum and the timeout of a class are not negative.
unfoldable pub reconciler_config : Config → RunnerClass → ReconcilerConfig
reconciler_config cfg class = record {
  prefix = class.prefix;
  baseline = class.baseline;
  baseline_name = class.baseline_name;
  max_auto_runners = magnitude class.max_auto_runners;
  idle_timeout = magnitude class.idle_timeout;
  labels = class.labels;
  runner_work_dir = class.runner_work_dir;
  cache_enabled = class.cache.enabled;
  ready_check = [];
  ready_timeout = 0;
  has_cache = class.cache.enabled;
  has_observability = cfg.runner_observability.enabled;
}

unfoldable pub runner_group : RunnerClass → RunnerGroup
unfolding repo_scoped class_target_name
runner_group class = record {
  id = class.id;
  target = class_target_name class;
  repo_scoped = repo_scoped class;
  prefix = class.prefix;
  match_labels = class.match_labels;
  baseline_name = class.baseline_name;
  cache_pool = class.cache.pool;
}

pub record WiredGroup : Type 0 where
  pub group : RunnerGroup
  pub reconciler : ReconcilerConfig
  pub ci : CiProvider
  pub state_dir : Text

abbrev pub for_class {ℓ} : {T : Type ℓ} → RunnerClass → Checked T → Checked T
for_class class (valid value) = valid value
for_class class (invalid message) =
    invalid (text "runner class " ++ (class.id ++ (text ": " ++ message)))

unfoldable pub wire_class :
    Makers → Config → RunnerClass → Dict Text Text → Checked (WiredGroup × Dict Text Text)
wire_class makers cfg class providers =
    and_then (for_class class (wire_runtime_and_cache makers cfg class)) (λ _.
      and_then (for_class class (wire_ci_provider cfg class providers)) (λ wired.
        and_then (for_class class (wire_state makers cfg (state_dir_of cfg class))) (λ _. valid (
          record {
            group = runner_group class;
            reconciler = reconciler_config cfg class;
            ci = wired.0;
            state_dir = state_dir_of cfg class;
          },
          wired.1,
        ))))

-- The loop over the classes.
unfoldable pub wire_classes :
    Makers → Config → List RunnerClass → Dict Text Text → Checked (List WiredGroup)
wire_classes makers cfg [] providers = valid []
wire_classes makers cfg (class ∷ classes) providers =
    and_then (wire_class makers cfg class providers)
      (λ wired. and_then (wire_classes makers cfg classes wired.1) (λ rest. valid (wired.0 ∷ rest)))

-- The groups, and the target of the metrics of the daemon.
unfoldable pub wire_runner_groups : Makers → Config → Checked (List WiredGroup × Text)
wire_runner_groups makers cfg = and_then (runner_class_configs cfg) (λ classes.
    and_then (wire_classes makers cfg classes [])
      (λ groups. valid (groups, daemon_metrics_target classes)))
