-- ===== src/Config/Pruning.antt =====
-- internal/config/config.go: what the cleanup of a valid configuration can reach.
use gh_runner_scaler.Prelude.{
  ◌≡◌, subst, inl, inr, true, some, List, [], ◌∷◌, ◌++◌, arith, Bool-cases, Option-cases, All, ◌==◌,
  nat_eq, Text, text_eq,
}
use gh_runner_scaler.Prelude.Strings.{text, trim_space}
use gh_runner_scaler.Prelude.Dict.{Dict, get}
use gh_runner_scaler.Prelude.Results.{valid, and_then, Checked-cases, and_then_valid}
use gh_runner_scaler.Config.{CacheConfig, RunnerClassConfig, RunnerClass, Config}
use gh_runner_scaler.Config.Target.{resolve_target, validate_runner_target}
use gh_runner_scaler.Config.Cache.{
  validate_cache, cache_prune_policy, IsSafePolicy, validate_cache-IsSafePolicy,
}
use gh_runner_scaler.Config.Classes.{
  runner_class_enabled, class_cache, resolved, resolve_class, resolve_classes, single_class,
  legacy_class, require_class, class_configs, runner_class_configs,
}
use gh_runner_scaler.Config.Classes.Runnable.{check_class-IsRunnable, require_class_lem}
use gh_runner_scaler.Config.Sections.{check_profiles}

-- The cleanup of a cache, if it is to be cleaned up, is safe.
abbrev pub IsSafeCache : CacheConfig → Type 0
IsSafeCache cache =
    (cache_prune_policy cache).enabled ≡ true → IsSafePolicy (cache_prune_policy cache)

check_profiles-IsSafeCache :
    (profiles : Dict Text CacheConfig) (name : Text) (cache : CacheConfig)
    → check_profiles profiles ≡ valid tt
    → get name profiles ≡ some cache
    → IsSafeCache cache
unfolding check_profiles
check_profiles-IsSafeCache [] name cache h g = cc
check_profiles-IsSafeCache ((n, profile) ∷ profiles) name cache h g =
    let first = and_then_valid (validate_cache (text "cache_profiles." ++ n) profile) _ tt h in
    elim (Bool-cases (n == name)) [
      | inl hit ↦
          let same : profile ≡ cache = ground (arith, g, hit) in
          subst IsSafeCache same
            (validate_cache-IsSafePolicy (text "cache_profiles." ++ n) profile first.1)
      | inr miss ↦ check_profiles-IsSafeCache profiles name cache first.2 (ground (arith, g, miss))
    ]

module _ (cfg : Config) (common : IsSafeCache cfg.cache)
    (profiles : check_profiles cfg.cache_profiles ≡ valid tt) where
  class_cache-IsSafeCache :
      (id profile : Text) (cache : CacheConfig)
      → class_cache cfg id profile ≡ valid cache
      → IsSafeCache cache
  unfolding class_cache
  class_cache-IsSafeCache id [] cache h =
      let same : cfg.cache ≡ cache = ground (arith, h) in subst IsSafeCache same common
  class_cache-IsSafeCache id (c ∷ profile) cache h =
      elim (Option-cases (get (c ∷ profile) cfg.cache_profiles)) [
        | inl e ↦ ground (arith, e, h)
        | inr (found, e) ↦
            let same : found ≡ cache = ground (arith, e, h) in
            subst IsSafeCache same
              (check_profiles-IsSafeCache cfg.cache_profiles (c ∷ profile) found profiles e)
      ]

  resolve_class-IsSafeCache :
      (raw : RunnerClassConfig) (c : RunnerClass)
      → resolve_class cfg raw ≡ valid c
      → IsSafeCache c.cache
  unfolding resolve_class
  resolve_class-IsSafeCache raw c h =
      elim (Checked-cases (class_cache cfg (trim_space raw.id) raw.cache_profile)) [
        | inr (m, e) ↦ ground (arith, e, h)
        | inl (cache, e) ↦
            let before =
              resolved cfg raw (resolve_target raw.org raw.repo cfg.ci.org cfg.ci.repo) cache in
            let checked = check_class-IsRunnable before c (ground (arith, e, h)) in
            subst (λ d. IsSafeCache d.cache) checked.0
              (class_cache-IsSafeCache (trim_space raw.id) raw.cache_profile cache e)
      ]

  resolve_classes-IsSafeCache :
      (raws : List RunnerClassConfig) (cs : List RunnerClass)
      → resolve_classes cfg raws ≡ valid cs
      → All (λ c. IsSafeCache c.cache) cs
  unfolding resolve_classes
  resolve_classes-IsSafeCache [] [] h = tt
  resolve_classes-IsSafeCache [] (c ∷ cs) h = ground (arith, h)
  resolve_classes-IsSafeCache (raw ∷ raws) cs h =
      elim (Bool-cases (runner_class_enabled raw.enabled)) [
        | inr disabled ↦ resolve_classes-IsSafeCache raws cs (ground (arith, disabled, h))
        | inl enabled ↦
            let (c, e, later) =
              and_then_valid (resolve_class cfg raw)
                (λ c. and_then (resolve_classes cfg raws) (λ rest. valid (c ∷ rest))) cs
                (ground (arith, enabled, h)) in
            let (rest, f, both) =
              and_then_valid (resolve_classes cfg raws) (λ rest. valid (c ∷ rest)) cs later in
            let all_of : c ∷ rest ≡ cs = ground (arith, both) in
            subst (λ xs. All (λ c. IsSafeCache c.cache) xs) all_of
              (resolve_class-IsSafeCache raw c e, resolve_classes-IsSafeCache raws rest f)
      ]

  single_class-IsSafeCache :
      (cs : List RunnerClass) → single_class cfg ≡ valid cs → All (λ c. IsSafeCache c.cache) cs
  unfolding single_class
  single_class-IsSafeCache cs h =
      let target = resolve_target [] [] cfg.ci.org cfg.ci.repo in
      elim (Checked-cases (validate_runner_target (text "ci") target.0 target.1)) [
        | inr (m, e) ↦ ground (arith, e, h)
        | inl (u, e) ↦
            let only : legacy_class cfg target ∷ [] ≡ cs = ground (arith, e, h) in
            subst (λ xs. All (λ c. IsSafeCache c.cache) xs) only (common, tt)
      ]

  class_configs-IsSafeCache :
      (raws : List RunnerClassConfig) (cs : List RunnerClass)
      → class_configs cfg raws ≡ valid cs
      → All (λ c. IsSafeCache c.cache) cs
  class_configs-IsSafeCache [] cs h = single_class-IsSafeCache cs h
  class_configs-IsSafeCache (raw ∷ raws) cs h =
      let (found, e, required) =
        and_then_valid (resolve_classes cfg (raw ∷ raws)) require_class cs h in
      subst (λ xs. All (λ c. IsSafeCache c.cache) xs) (require_class_lem found cs required).0
        (resolve_classes-IsSafeCache (raw ∷ raws) found e)

-- Where the common cache and the profiles pass the validation, the cleanup of every class is
-- confined to paths below /cache.
pub runner_class_configs-IsSafeCache :
    (cfg : Config) (cs : List RunnerClass)
    → validate_cache (text "cache") cfg.cache ≡ valid tt
    → check_profiles cfg.cache_profiles ≡ valid tt
    → runner_class_configs cfg ≡ valid cs
    → All (λ c. IsSafeCache c.cache) cs
unfolding runner_class_configs
runner_class_configs-IsSafeCache cfg cs common profiles h =
    class_configs-IsSafeCache cfg (validate_cache-IsSafePolicy (text "cache") cfg.cache common)
      profiles cfg.runner_classes cs h
