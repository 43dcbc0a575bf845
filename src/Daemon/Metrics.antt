-- ===== src/Daemon/Metrics.antt =====
-- internal/daemon/daemon.go: buildRunnerMetrics and filterContainersByPrefix. The utilization is a
-- floating-point number and left out.
use gh_runner_scaler.Prelude.{
  ℕ, ◌+◌, ◌-◌, ◌≡◌, refl, Bool, false, not, ◌&&◌, ◌||◌, Option, none, some, List, [], ◌∷◌, arith,
  length, filter, count, count-le, ◌==◌, nat_eq, Text, text_eq, contains, IsNodup,
}
use gh_runner_scaler.Prelude.Strings.{text, has_prefix}
use gh_runner_scaler.Prelude.Dict.{Dict, get, put, get-put}
use gh_runner_scaler.Domain.{running, status_beq, Container, Runner}
use gh_runner_scaler.Engine.Labels.{available_runner_count}

pub record RunnerDetail : Type 0 where
  pub name : Text
  pub status : Text
  pub busy : Bool
  pub is_auto : Bool

-- The fields of domain.RunnerMetrics that buildRunnerMetrics sets.
pub record RunnerMetrics : Type 0 where
  pub total_runners : ℕ
  pub busy_runners : ℕ
  pub idle_runners : ℕ
  pub online_runners : ℕ
  pub available_online_runners : ℕ
  pub offline_runners : ℕ
  pub auto_runners : ℕ
  pub permanent_runners : ℕ
  pub provisioning_runners : ℕ
  pub runners : List RunnerDetail

abbrev pub is_online : Runner → Bool
is_online r = r.status == text "online"

-- The map from names to runners: a later runner of the same name takes the place.
unfoldable pub runner_by_name : List Runner → Dict Text Runner → Dict Text Runner
runner_by_name [] index = index
runner_by_name (r ∷ rs) index = runner_by_name rs (put r.name r index)

abbrev pub has_online : Option Runner → Bool
has_online none = false
has_online (some r) = is_online r

abbrev pub is_provisioning : Dict Text Runner → Container → Bool
is_provisioning index c = status_beq c.status running && not (has_online (get c.name index))

abbrev pub details : (Text → Bool) → List Runner → List RunnerDetail
details classify [] = []
details classify (r ∷ rs) =
    record { name = r.name; status = r.status; busy = r.busy; is_auto = classify r.name }
    ∷ details classify rs

-- `classify` is ClassifyRunner of the provider.
unfoldable pub build_runner_metrics : List Runner → List Container → (Text → Bool) → RunnerMetrics
build_runner_metrics runners containers classify =
    let total = length runners in
    let busy = count (λ r. r.busy) runners in
    let online = count (λ r. is_online r) runners in
    let auto = count (λ r. classify r.name) runners in
    record {
      total_runners = total;
      busy_runners = busy;
      idle_runners = total - busy;
      online_runners = online;
      available_online_runners = available_runner_count runners;
      offline_runners = total - online;
      auto_runners = auto;
      permanent_runners = total - auto;
      provisioning_runners = count (is_provisioning (runner_by_name runners [])) containers;
      runners = details classify runners;
    }

unfoldable pub filter_containers_by_prefix : List Container → Text → List Container
filter_containers_by_prefix containers prefix = filter (λ c. has_prefix c.name prefix) containers

abbrev pub names : List Runner → List Text
names [] = []
names (r ∷ rs) = r.name ∷ names rs

-- Whether a runner of that name is online.
abbrev pub online_named : Text → List Runner → Bool
online_named name [] = false
online_named name (r ∷ rs) = (r.name == name && is_online r) || online_named name rs

online_named_unknown :
    (name : Text) (rs : List Runner)
    → contains name (names rs) ≡ false
    → online_named name rs ≡ false
online_named_unknown name [] h = refl
online_named_unknown name (r ∷ rs) h = ground (arith, online_named_unknown name rs)

has_online-runner_by_name :
    (name : Text) (rs : List Runner) (index : Dict Text Runner)
    → IsNodup (names rs)
    → has_online (get name (runner_by_name rs index))
      ≡ (online_named name rs || (not (contains name (names rs)) && has_online (get name index)))
unfolding runner_by_name
has_online-runner_by_name name [] index u = ground arith
has_online-runner_by_name name (r ∷ rs) index u = ground (
  arith,
  has_online-runner_by_name name rs (put r.name r index) u.1,
  get-put r.name name r index,
  online_named_unknown name rs,
  text_eq.beq_iff r.name name,
  u.0,
)

count_same :
    (p q : Container → Bool) (cs : List Container)
    → ((c : Container) → p c ≡ q c)
    → count p cs ≡ count q cs
count_same p q [] h = refl
count_same p q (c ∷ cs) h = ground (arith, count_same p q cs h, h c)

-- When no two runners have the same name, the runners counted as provisioning are the running
-- containers that no online runner is named after; and busy and idle, online and offline, auto and
-- permanent runners add up to the total.
pub build_runner_metrics_lem :
    (runners : List Runner) (containers : List Container) (classify : Text → Bool)
    → IsNodup (names runners)
    → let m = build_runner_metrics runners containers classify in
      (m.provisioning_runners
        ≡ count (λ c. status_beq c.status running && not (online_named c.name runners)) containers)
      × (m.busy_runners + m.idle_runners ≡ m.total_runners)
      × (m.online_runners + m.offline_runners ≡ m.total_runners)
      × (m.auto_runners + m.permanent_runners ≡ m.total_runners)
unfolding build_runner_metrics
build_runner_metrics_lem runners containers classify u = (
  count_same _ _ containers (λ c. ground (arith, has_online-runner_by_name c.name runners [] u)),
  omega (arith, count-le {0} (λ r. r.busy) runners),
  omega (arith, count-le {0} (λ r. is_online r) runners),
  omega (arith, count-le {0} (λ r. classify r.name) runners),
)
