-- ===== src/Config/Classes/Runnable.antt =====
-- internal/config/config.go: the runner classes that RunnerClassConfigs resolves can be run.
use gh_runner_scaler.Prelude.{
  ◌≡◌, refl, subst, ◌≢◌, inl, inr, true, false, List, [], ◌∷◌, ◌++◌, arith, Bool-cases, All, nat_eq,
  text_eq,
}
use gh_runner_scaler.Prelude.Strings.{text, trim_space}
use gh_runner_scaler.Prelude.Integers.{is_negative, is_positive}
use gh_runner_scaler.Prelude.Results.{valid, Checked-cases}
use gh_runner_scaler.Config.{RunnerClass, RunnerClassConfig, Config}
use gh_runner_scaler.Config.Target.{
  is_blank, resolve_target, validate_runner_target, IsTarget, validate_runner_target-IsTarget,
}
use gh_runner_scaler.Config.Classes.{
  runner_class_enabled, class_cache, resolved, check_class, resolve_class, resolve_classes,
  single_class, legacy_class, require_class, class_configs, runner_class_configs,
}

-- A class that the daemon can run.
pub record IsRunnable (c : RunnerClass) : Type 0 where
  pub identified : is_blank c.id ≡ false
  pub targeted : IsTarget c.org c.repo
  pub prefixed : is_blank c.prefix ≡ false
  pub max_not_negative : is_negative c.max_auto_runners ≡ false
  pub idle_positive : is_positive c.idle_timeout ≡ true
  pub templated : is_blank c.template ≡ false

pub check_class-IsRunnable : (c d : RunnerClass) → check_class c ≡ valid d → (c ≡ d) × IsRunnable c
unfolding check_class
check_class-IsRunnable c d h =
    elim (Checked-cases (validate_runner_target (text "runner class " ++ c.id) c.org c.repo)) [
      | inr (m, e) ↦ ground (arith, e, h)
      | inl (u, e) ↦ (
        ground (arith, e, h),
        record {
          identified = ground (arith, h);
          targeted = validate_runner_target-IsTarget (text "runner class " ++ c.id) c.org c.repo e;
          prefixed = ground (arith, e, h);
          max_not_negative = ground (arith, e, h);
          idle_positive = ground (arith, e, h);
          templated = ground (arith, e, h);
        },
      )
    ]

resolve_class-IsRunnable :
    (cfg : Config) (raw : RunnerClassConfig) (c : RunnerClass)
    → resolve_class cfg raw ≡ valid c
    → IsRunnable c
unfolding resolve_class
resolve_class-IsRunnable cfg raw c h =
    elim (Checked-cases (class_cache cfg (trim_space raw.id) raw.cache_profile)) [
      | inr (m, e) ↦ ground (arith, e, h)
      | inl (cache, e) ↦
          let before =
            resolved cfg raw (resolve_target raw.org raw.repo cfg.ci.org cfg.ci.repo) cache in
          let checked = check_class-IsRunnable before c (ground (arith, e, h)) in
          subst IsRunnable checked.0 checked.1
    ]

pub resolve_classes-IsRunnable :
    (cfg : Config) (raws : List RunnerClassConfig) (cs : List RunnerClass)
    → resolve_classes cfg raws ≡ valid cs
    → All IsRunnable cs
unfolding resolve_classes
resolve_classes-IsRunnable cfg [] [] h = tt
resolve_classes-IsRunnable cfg [] (c ∷ cs) h = ground (arith, h)
resolve_classes-IsRunnable cfg (raw ∷ raws) cs h =
    elim (Bool-cases (runner_class_enabled raw.enabled)) [
      | inr disabled ↦ resolve_classes-IsRunnable cfg raws cs (ground (arith, disabled, h))
      | inl enabled ↦ elim (Checked-cases (resolve_class cfg raw)) [
        | inr (m, e) ↦ ground (arith, enabled, e, h)
        | inl (c, e) ↦ elim (Checked-cases (resolve_classes cfg raws)) [
          | inr (m, f) ↦ ground (arith, enabled, e, f, h)
          | inl (rest, f) ↦
              let all_of : c ∷ rest ≡ cs = ground (arith, enabled, e, f, h) in
              subst (λ xs. All IsRunnable xs) all_of
                (resolve_class-IsRunnable cfg raw c e, resolve_classes-IsRunnable cfg raws rest f)
        ]
      ]
    ]

-- The parts of the legacy class that the validation of the scaler section covers.
abbrev pub IsScalerSound : Config → Type 0
IsScalerSound cfg =
    (is_blank cfg.scaler.prefix ≡ false)
    × (is_negative cfg.scaler.max_auto_runners ≡ false)
    × (is_positive cfg.scaler.idle_timeout ≡ true)

single_class-IsRunnable :
    (cfg : Config) (cs : List RunnerClass)
    → IsScalerSound cfg
    → single_class cfg ≡ valid cs
    → All IsRunnable cs × (cs ≢ [])
unfolding single_class
single_class-IsRunnable cfg cs s h =
    let target = resolve_target [] [] cfg.ci.org cfg.ci.repo in
    elim (Checked-cases (validate_runner_target (text "ci") target.0 target.1)) [
      | inr (m, e) ↦ ground (arith, e, h)
      | inl (u, e) ↦
          let only : legacy_class cfg target ∷ [] ≡ cs = ground (arith, e, h) in
          subst (λ xs. All IsRunnable xs × (xs ≢ [])) only
            (
              (
                record {
                  identified = refl;
                  targeted = validate_runner_target-IsTarget (text "ci") target.0 target.1 e;
                  prefixed = s.0;
                  max_not_negative = s.1;
                  idle_positive = s.2;
                  templated = ground (arith, h);
                },
                tt,
              ),
              λ n. cc,
            )
    ]

pub require_class_lem :
    (resolved_classes cs : List RunnerClass)
    → require_class resolved_classes ≡ valid cs
    → (resolved_classes ≡ cs) × (cs ≢ [])
require_class_lem [] cs h = ground (arith, h)
require_class_lem (c ∷ rest) cs h = (ground (arith, h), λ n. ground (arith, h, n))

class_configs-IsRunnable :
    (cfg : Config) (raws : List RunnerClassConfig) (cs : List RunnerClass)
    → (raws ≡ [] → IsScalerSound cfg)
    → class_configs cfg raws ≡ valid cs
    → All IsRunnable cs × (cs ≢ [])
class_configs-IsRunnable cfg [] cs s h = single_class-IsRunnable cfg cs (s refl) h
class_configs-IsRunnable cfg (raw ∷ raws) cs s h =
    elim (Checked-cases (resolve_classes cfg (raw ∷ raws))) [
      | inr (m, e) ↦ ground (arith, e, h)
      | inl (found, e) ↦
          let same = require_class_lem found cs (ground (arith, e, h)) in
          (
            subst (λ xs. All IsRunnable xs) same.0
                (resolve_classes-IsRunnable cfg (raw ∷ raws) found e),
            same.1,
          )
    ]

-- Resolved classes can be run, and there is one, where the scaler section is sound if it has to
-- stand in for them.
pub runner_class_configs-IsRunnable :
    (cfg : Config) (cs : List RunnerClass)
    → (cfg.runner_classes ≡ [] → IsScalerSound cfg)
    → runner_class_configs cfg ≡ valid cs
    → All IsRunnable cs × (cs ≢ [])
unfolding runner_class_configs
runner_class_configs-IsRunnable cfg cs s h = class_configs-IsRunnable cfg cfg.runner_classes cs s h
