-- ===== src/Config/Sound.antt =====
-- internal/config/config.go: what a valid configuration guarantees of its runner classes.
use gh_runner_scaler.Prelude.{
  ℕ, ◌+◌, ◌≤◌, ◌≡◌, refl, subst, ◌≢◌, inl, inr, Bool, true, false, ◌||◌, List, [], ◌∷◌, arith,
  if◌then◌else◌, Bool-cases, count, All, ◌==◌, beq_refl, nat_eq, Text, text_eq, contains, IsNodup,
}
use gh_runner_scaler.Prelude.Strings.{text, has_prefix}
use gh_runner_scaler.Prelude.Dict.{Dict, keys, put, contains-keys-put}
use gh_runner_scaler.Prelude.Results.{valid, Checked-cases, and_then_valid}
use gh_runner_scaler.Config.{RunnerClass, Config}
use gh_runner_scaler.Config.Target.{is_blank}
use gh_runner_scaler.Config.Cache.{validate_cache}
use gh_runner_scaler.Config.Classes.{runner_class_configs}
use gh_runner_scaler.Config.Classes.Runnable.{
  IsRunnable, IsScalerSound, runner_class_configs-IsRunnable,
}
use gh_runner_scaler.Config.Pruning.{IsSafeCache, runner_class_configs-IsSafeCache}
use gh_runner_scaler.Config.Sections.{
  check_credentials, check_legacy, check_scaler, check_ci, check_lxd, check_profiles, check_webhook,
  check_metrics, validate_runner_observability, validate_runner_distribution,
}
use gh_runner_scaler.Config.Validate.{
  check_unique, starts_with_any, check_baselines, check_classes, check_rest, check_pools, validate,
}

abbrev pub ids : List RunnerClass → List Text
ids [] = []
ids (c ∷ cs) = c.id ∷ ids cs

abbrev pub prefixes : List RunnerClass → List Text
prefixes [] = []
prefixes (c ∷ cs) = c.prefix ∷ prefixes cs

-- A baseline has a name, which none of the prefixes of managed runners starts.
abbrev pub IsBaselineSound : List Text → RunnerClass → Type 0
IsBaselineSound managed c =
    c.baseline ≡ true
    → (is_blank c.baseline_name ≡ false) × (starts_with_any c.baseline_name managed ≡ false)

pub record IsSound (classes : List RunnerClass) : Type 0 where
  pub nonempty : classes ≢ []
  pub runnable : All IsRunnable classes
  pub unique_ids : IsNodup (ids classes)
  pub unique_prefixes : IsNodup (prefixes classes)
  pub one_baseline : count (λ c. c.baseline) classes ≤ 1
  pub baselines : All (IsBaselineSound (prefixes classes)) classes
  pub pruning : All (λ c. IsSafeCache c.cache) classes

-- What the loop over the classes has established when it ends.
record Unique (seen_ids : List Text) (seen_prefixes : Dict Text Text) (seen : ℕ)
    (cs : List RunnerClass) (after : Dict Text Text) (baselines : ℕ) : Type 0 where
  new_ids : (k : Text) → contains k seen_ids ≡ true → contains k (ids cs) ≡ false
  once_ids : IsNodup (ids cs)
  new_prefixes :
      (k : Text) → contains k (keys seen_prefixes) ≡ true → contains k (prefixes cs) ≡ false
  once_prefixes : IsNodup (prefixes cs)
  kept :
      (k : Text)
      → contains k (keys after) ≡ (contains k (keys seen_prefixes) || contains k (prefixes cs))
  counted : baselines ≡ seen + count (λ c. c.baseline) cs
  named : All (λ c. c.baseline ≡ true → is_blank c.baseline_name ≡ false) cs

check_unique-Unique :
    (seen_ids : List Text) (seen_prefixes : Dict Text Text) (seen : ℕ) (cs : List RunnerClass)
    (after : Dict Text Text) (baselines : ℕ)
    → check_unique seen_ids seen_prefixes seen cs ≡ valid (after, baselines)
    → Unique seen_ids seen_prefixes seen cs after baselines
unfolding check_unique
check_unique-Unique seen_ids seen_prefixes seen [] after baselines h = record {
  new_ids = λ k e. refl;
  once_ids = tt;
  new_prefixes = λ k e. refl;
  once_prefixes = tt;
  kept = λ k. ground (arith, h);
  counted = ground (arith, h);
  named = tt;
}
check_unique-Unique seen_ids seen_prefixes seen (c ∷ cs) after baselines h =
    let rest =
      check_unique-Unique (c.id ∷ seen_ids) (put c.prefix c.id seen_prefixes)
        (if c.baseline then seen + 1 else seen) cs after baselines (ground (arith, h)) in
    record {
      new_ids = λ k e. ground (arith, h, e, rest.new_ids k, text_eq.beq_iff c.id k);
      once_ids = (rest.new_ids c.id (ground (arith, beq_refl c.id)), rest.once_ids);
      new_prefixes = λ k e. ground (
        arith,
        h,
        e,
        rest.new_prefixes k,
        contains-keys-put c.prefix k c.id seen_prefixes,
        text_eq.beq_iff c.prefix k,
      );
      once_prefixes = (
        rest.new_prefixes c.prefix (
            ground
              (arith, contains-keys-put c.prefix c.prefix c.id seen_prefixes, beq_refl c.prefix)),
        rest.once_prefixes,
      );
      kept = λ k. ground (arith, rest.kept k, contains-keys-put c.prefix k c.id seen_prefixes);
      counted = ground (arith, rest.counted);
      named = (λ b. ground (arith, b, h), rest.named);
    }

starts_with_member :
    (name k : Text) (ps : List Text)
    → contains k ps ≡ true
    → starts_with_any name ps ≡ false
    → has_prefix name k ≡ false
starts_with_member name k [] m h = ground (arith, m)
starts_with_member name k (p ∷ ps) m h = elim (Bool-cases (p == k)) [
  | inl hit ↦
      subst (λ q. has_prefix name q ≡ false) ((text_eq.beq_iff p k).0 hit) (ground (arith, h))
  | inr miss ↦ starts_with_member name k ps (ground (arith, m, miss)) (ground (arith, h))
]

starts_with_none :
    (name : Text) (ps : List Text)
    → ((k : Text) → contains k ps ≡ true → has_prefix name k ≡ false)
    → starts_with_any name ps ≡ false
starts_with_none name [] h = refl
starts_with_none name (p ∷ ps) h =
    let rest = starts_with_none name ps (λ k m. h k (ground (arith, m))) in
    ground (arith, rest, h p (ground (arith, beq_refl p)))

check_baselines-IsBaselineSound :
    (managed all_prefixes : List Text) (cs : List RunnerClass)
    → ((k : Text) → contains k all_prefixes ≡ true → contains k managed ≡ true)
    → All (λ c. c.baseline ≡ true → is_blank c.baseline_name ≡ false) cs
    → check_baselines managed cs ≡ valid tt
    → All (IsBaselineSound all_prefixes) cs
unfolding check_baselines
check_baselines-IsBaselineSound managed all_prefixes [] sub named h = tt
check_baselines-IsBaselineSound managed all_prefixes (c ∷ cs) sub named h = (
  λ b. (
    named.0 b,
    starts_with_none c.baseline_name all_prefixes
        (λ k m. starts_with_member c.baseline_name k managed (sub k m) (ground (arith, b, h))),
  ),
  check_baselines-IsBaselineSound managed all_prefixes cs sub named.1 (ground (arith, h)),
)

check_classes-IsSound :
    (cs : List RunnerClass)
    → All IsRunnable cs
    → cs ≢ []
    → All (λ c. IsSafeCache c.cache) cs
    → check_classes cs ≡ valid tt
    → IsSound cs
unfolding check_classes
check_classes-IsSound cs runnable nonempty pruning h =
    elim (Checked-cases (check_unique [] [] 0 cs)) [
      | inr (m, e) ↦ ground (arith, e, h)
      | inl ((after, baselines), e) ↦
          let u = check_unique-Unique [] [] 0 cs after baselines e in
          record {
            nonempty = nonempty;
            pruning = pruning;
            runnable = runnable;
            unique_ids = u.once_ids;
            unique_prefixes = u.once_prefixes;
            one_baseline = ground (arith, u.counted, e, h);
            baselines =
                check_baselines-IsBaselineSound (keys after) (prefixes cs) cs
                  (λ k m. ground (arith, u.kept k, m)) u.named (ground (arith, e, h));
          }
    ]

check_legacy-IsScalerSound :
    (cfg : Config) → check_legacy cfg ≡ valid tt → cfg.runner_classes ≡ [] → IsScalerSound cfg
unfolding check_legacy
check_legacy-IsScalerSound cfg h e = ground (arith, h, e)

check_rest-same :
    (is_absolute_url : Text → Bool) (cfg checked : Config)
    → check_rest is_absolute_url cfg ≡ valid checked
    → cfg ≡ checked
unfolding check_rest
check_rest-same is_absolute_url cfg checked h =
    let webhook = and_then_valid (check_webhook cfg.ci cfg.webhook) _ checked h in
    let metrics = and_then_valid (check_metrics cfg.metrics) _ checked webhook.2 in
    let observed =
      and_then_valid (validate_runner_observability is_absolute_url cfg.runner_observability) _
        checked metrics.2 in
    let distributed =
      and_then_valid (validate_runner_distribution cfg.runner_distribution) _ checked observed.2 in
    ground (arith, distributed.2)

check_pools-IsSound :
    (cfg : Config)
    → (cfg.runner_classes ≡ [] → IsScalerSound cfg)
    → check_pools cfg ≡ valid tt
    → (cs : List RunnerClass) × (runner_class_configs cfg ≡ valid cs) × IsSound cs
unfolding check_pools
check_pools-IsSound cfg s h =
    let cache = and_then_valid (validate_cache (text "cache") cfg.cache) _ tt h in
    let profiles = and_then_valid (check_profiles cfg.cache_profiles) _ tt cache.2 in
    let (cs, found, checked) = and_then_valid (runner_class_configs cfg) _ tt profiles.2 in
    let (runnable, nonempty) = runner_class_configs-IsRunnable cfg cs s found in
    let pruning = runner_class_configs-IsSafeCache cfg cs cache.1 profiles.1 found in
    (cs, found, check_classes-IsSound cs runnable nonempty pruning checked)

-- A configuration that passes the validation has runner classes that the daemon can run: there is
-- one, each is complete and has exactly one target, ids and prefixes are unique, at most one has a
-- baseline, whose name is not taken for that of a managed runner, and the cleanup of every cache is
-- confined to paths below /cache.
pub validate-IsSound :
    (is_absolute_url : Text → Bool) (cfg checked : Config)
    → validate is_absolute_url cfg ≡ valid checked
    → (cs : List RunnerClass) × (runner_class_configs checked ≡ valid cs) × IsSound cs
unfolding validate
validate-IsSound is_absolute_url cfg checked h =
    let credentials = and_then_valid (check_credentials cfg.ci) _ checked h in
    let legacy = and_then_valid (check_legacy cfg) _ checked credentials.2 in
    let scaler = and_then_valid (check_scaler cfg.scaler) _ checked legacy.2 in
    let (ci, trimmed, after_ci) = and_then_valid (check_ci cfg.ci) _ checked scaler.2 in
    let lxd = and_then_valid (check_lxd cfg.container.lxd) _ checked after_ci in
    let pools = and_then_valid (check_pools (record cfg { ci = ci })) _ checked lxd.2 in
    subst (λ c. (cs : List RunnerClass) × (runner_class_configs c ≡ valid cs) × IsSound cs)
      (check_rest-same is_absolute_url (record cfg { ci = ci }) checked pools.2)
      (check_pools-IsSound (record cfg { ci = ci }) (λ e. check_legacy-IsScalerSound cfg legacy.1 e)
        pools.1)
