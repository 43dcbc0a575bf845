-- ===== src/Config/Cache.antt =====
-- internal/config/config.go: validateCache and the cleanup policy of a cache.
use gh_runner_scaler.Prelude.{
  ◌≡◌, refl, Bool, true, false, not, ◌&&◌, ◌||◌, List, [], ◌∷◌, ◌++◌, arith, if◌then◌else◌, drop,
  all, All, ◌==◌, nat_eq, Text, text_eq,
}
use gh_runner_scaler.Prelude.Strings.{text, has_prefix, split}
use gh_runner_scaler.Prelude.Integers.{ℤ, is_positive}
use gh_runner_scaler.Prelude.Results.{Checked, valid, invalid, and_then}
use gh_runner_scaler.Config.{SymlinkConfig, CachePruneConfig, CacheConfig}
use gh_runner_scaler.Config.Target.{is_blank}

-- filepath.IsAbs on a Unix system
abbrev pub is_abs : Text → Bool
is_abs path = has_prefix path (text "/")

-- An element of a path that filepath.Clean keeps as it is.
abbrev pub is_plain : Text → Bool
is_plain element = not (is_blank element || element == text "." || element == text "..")

-- filepath.Clean(path) == path, for an absolute path
unfoldable pub is_clean : Text → Bool
is_clean path = path == text "/" || all is_plain (split b'/' (drop 1 path))

unfoldable pub check_symlinks : Text → List SymlinkConfig → Checked (Unit {0})
check_symlinks name [] = valid tt
check_symlinks name (link ∷ links) =
    let rest = check_symlinks name links in
    if not (is_abs link.source)
    then invalid (name ++ (text ".symlinks source must be absolute: " ++ link.source))
    else if not (is_abs link.target)
    then invalid (name ++ (text ".symlinks target must be absolute: " ++ link.target))
    else rest

unfoldable pub check_paths : Text → List Text → Checked (Unit {0})
check_paths name [] = valid tt
check_paths name (path ∷ paths) =
    let rest = check_paths name paths in
    if not (is_abs path)
    then invalid (name ++ (text ".prune.paths entries must be absolute: " ++ path))
    else if not (is_clean path)
    then invalid (name ++ (text ".prune.paths entries must be clean paths: " ++ path))
    else if not (has_prefix path (text "/cache/"))
    then invalid (
        name
        ++ (text ".prune.paths entries must be specific subdirectories under /cache: " ++ path))
    else rest

unfoldable pub check_prune : Text → CachePruneConfig → Checked (Unit {0})
check_prune name prune =
    if not prune.enabled
    then valid tt
    else if not (is_positive prune.interval)
    then invalid (name ++ text ".prune.interval must be > 0")
    else if not (is_positive prune.max_age)
    then invalid (name ++ text ".prune.max_age must be > 0")
    else if not (is_positive prune.temp_max_age)
    then invalid (name ++ text ".prune.temp_max_age must be > 0")
    else check_paths name prune.paths

unfoldable pub validate_cache : Text → CacheConfig → Checked (Unit {0})
validate_cache name cache =
    if not cache.enabled
    then valid tt
    else if is_blank cache.pool
    then invalid (name ++ text ".pool is required when cache is enabled")
    else if is_blank cache.volume
    then invalid (name ++ text ".volume is required when cache is enabled")
    else and_then (check_symlinks name cache.symlinks) (λ _. check_prune name cache.prune)

-- domain.CachePrunePolicy
pub record CachePrunePolicy : Type 0 where
  pub enabled : Bool
  pub interval : ℤ
  pub max_age : ℤ
  pub temp_max_age : ℤ
  pub paths : List Text

unfoldable pub cache_prune_policy : CacheConfig → CachePrunePolicy
cache_prune_policy cache = record {
  enabled = cache.enabled && cache.prune.enabled;
  interval = cache.prune.interval;
  max_age = cache.prune.max_age;
  temp_max_age = cache.prune.temp_max_age;
  paths = cache.prune.paths;
}

-- A path that stands below /cache and has no element that leads out of it.
pub record IsBelowCache (path : Text) : Type 0 where
  pub below : has_prefix path (text "/cache/") ≡ true
  pub plain : all is_plain (split b'/' (drop 1 path)) ≡ true

pub record IsSafePolicy (policy : CachePrunePolicy) : Type 0 where
  pub interval_positive : is_positive policy.interval ≡ true
  pub max_age_positive : is_positive policy.max_age ≡ true
  pub temp_max_age_positive : is_positive policy.temp_max_age ≡ true
  pub paths_below : All IsBelowCache policy.paths

not_root : (path : Text) → has_prefix path (text "/cache/") ≡ true → (path == text "/") ≡ false
unfolding has_prefix
not_root [] h = refl
not_root (c ∷ []) h = ground (arith, h)
not_root (c ∷ d ∷ s) h = ground (arith, h)

check_paths-IsBelowCache :
    (name : Text) (paths : List Text) → check_paths name paths ≡ valid tt → All IsBelowCache paths
unfolding check_paths is_clean
check_paths-IsBelowCache name [] h = tt
check_paths-IsBelowCache name (path ∷ paths) h = (
  record { below = ground (arith, h); plain = ground (arith, h, not_root path) },
  check_paths-IsBelowCache name paths (ground (arith, h)),
)

-- A cache that passes the validation and is to be cleaned up has positive intervals and ages, and
-- its cleanup is confined to paths below /cache that no element leads out of.
pub validate_cache-IsSafePolicy :
    (name : Text) (cache : CacheConfig)
    → validate_cache name cache ≡ valid tt
    → (cache_prune_policy cache).enabled ≡ true
    → IsSafePolicy (cache_prune_policy cache)
unfolding validate_cache cache_prune_policy check_prune
validate_cache-IsSafePolicy name cache h e = record {
  interval_positive = ground (arith, h, e);
  max_age_positive = ground (arith, h, e);
  temp_max_age_positive = ground (arith, h, e);
  paths_below = check_paths-IsBelowCache name cache.prune.paths (ground (arith, h, e));
}
