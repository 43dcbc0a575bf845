-- ===== src/Github/Inventory.antt =====
-- provider/github/ci.go: the cache of the runner inventory. A time that is 0 is the zero time.
pub mod Freshness
use gh_runner_scaler.Prelude.{
  ℕ, ◌+◌, ◌-◌, ◌/◌, ◌⊎◌, inl, inr, Bool, true, false, not, ◌&&◌, Option, none, some, List, [], ◌∷◌,
  ltb, leb, nat_beq, if◌then◌else◌, Text,
}
use gh_runner_scaler.Prelude.Strings.{has_prefix}
use gh_runner_scaler.Domain.{Runner}

pub record RunnerInventoryCache : Type 0 where
  pub runners : List Runner
  pub fetched_at : ℕ
  pub suspended : Bool
  pub generation : ℕ

abbrev pub empty_cache : RunnerInventoryCache
empty_cache = record { runners = []; fetched_at = 0; suspended = false; generation = 0 }

-- The fields of the provider that the cache depends on.
pub record Settings : Type 0 where
  pub prefix : Text
  pub runner_cache_ttl : ℕ
  pub runner_stale_ttl : ℕ

-- domain.RunnerInventoryMeta; FetchedAt is kept as a time.
pub record RunnerInventoryMeta : Type 0 where
  pub stale : Bool
  pub age_s : ℕ
  pub fetched_at : ℕ
  pub error : Text

unfoldable pub annotate_runners : Text → List Runner → List Runner
annotate_runners prefix [] = []
annotate_runners prefix (r ∷ rs) =
    record r { is_auto = has_prefix r.name prefix } ∷ annotate_runners prefix rs

-- math.Round of the age in seconds; a negative age counts as 0.
unfoldable pub runner_inventory_meta : ℕ → ℕ → Bool → RunnerInventoryMeta
runner_inventory_meta fetched_at now stale = record {
  stale = stale;
  age_s = (now - fetched_at + 500000000) / 1000000000;
  fetched_at = fetched_at;
  error = [];
}

-- 0 < ttl and age <= ttl
abbrev pub within : ℕ → ℕ → Bool
within ttl age = ltb 0 ttl && leb age ttl

unfoldable pub cached_runners :
    Settings → ℕ → Bool → RunnerInventoryCache → Option (List Runner × RunnerInventoryMeta)
cached_runners s now allow_stale cache =
    let age = now - cache.fetched_at in
    let runners = annotate_runners s.prefix cache.runners in
    if nat_beq cache.fetched_at 0
    then none
    else if not allow_stale && cache.suspended
    then none
    else if within s.runner_cache_ttl age
    then some (runners, runner_inventory_meta cache.fetched_at now false)
    else if allow_stale && within s.runner_stale_ttl age
    then some (runners, runner_inventory_meta cache.fetched_at now true)
    else none

unfoldable pub store_runner_cache :
    List Runner → ℕ → ℕ → RunnerInventoryCache → RunnerInventoryCache
store_runner_cache runners generation fetched_at cache =
    if nat_beq cache.generation generation
    then record cache { runners = runners; fetched_at = fetched_at }
    else cache

unfoldable pub invalidate_runner_cache : RunnerInventoryCache → RunnerInventoryCache
invalidate_runner_cache cache = record cache {
  runners = [];
  fetched_at = 0;
  generation = cache.generation + 1;
}

unfoldable pub suspend_runner_inventory : RunnerInventoryCache → RunnerInventoryCache
suspend_runner_inventory cache = record cache {
  runners = [];
  fetched_at = 0;
  suspended = true;
  generation = cache.generation + 1;
}

unfoldable pub resume_runner_inventory : RunnerInventoryCache → RunnerInventoryCache
resume_runner_inventory cache = record cache {
  runners = [];
  fetched_at = 0;
  suspended = false;
  generation = cache.generation + 1;
}

-- What listRunners returns.
pub data Listing : Type 0 where
  listed : List Runner → RunnerInventoryMeta → Listing
  failed : Text → Listing

abbrev pub or_stale : Text → Option (List Runner × RunnerInventoryMeta) → Listing
or_stale message none = failed message
or_stale message (some (runners, m)) = listed runners (record m { stale = true; error = message })

-- A fetch that has ended, at the readings `now` and `later` of the clock, with the cache as it is
-- then: `inl` is the list that the pages of the API make up, `inr` the message of its error.
unfoldable pub conclude :
    Settings
    → Bool
    → ℕ
    → ℕ
    → ℕ
    → (List Runner ⊎ Text)
    → RunnerInventoryCache
    → Listing × RunnerInventoryCache
conclude s allow_stale generation now later (inl runners) cache = (
  listed (annotate_runners s.prefix runners) (runner_inventory_meta now later false),
  store_runner_cache runners generation now cache,
)
conclude s allow_stale generation now later (inr message) cache = (
  (if allow_stale then or_stale message (cached_runners s now true cache) else failed message),
  cache,
)

-- listRunners without another caller in between: the cache, else a fetch.
unfoldable pub list_runners :
    Settings
    → Bool
    → ℕ
    → ℕ
    → ℕ
    → (List Runner ⊎ Text)
    → RunnerInventoryCache
    → Listing × RunnerInventoryCache
list_runners s allow_stale start now later reply cache = elim (cached_runners s start false cache) [
  | some (runners, m) ↦ (listed runners m, cache)
  | none ↦ conclude s allow_stale cache.generation now later reply cache
]
