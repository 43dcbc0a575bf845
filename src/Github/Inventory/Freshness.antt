-- ===== src/Github/Inventory/Freshness.antt =====
-- provider/github/ci.go: the cache of the inventory under any interleaving of its users.
use gh_runner_scaler.Prelude.{
  ℕ, ◌+◌, ◌≤◌, ◌≡◌, refl, sym, ◌∙◌, ◌⊎◌, inl, inr, Bool, true, false, some, List, [], ◌∷◌, arith,
  nat_beq, if◌then◌else◌, nat_beq_iff, Bool-cases, get_elem?, All, All-get_elem, nat_eq, text_eq,
}
use gh_runner_scaler.Domain.{Runner}
use gh_runner_scaler.Github.Inventory.{
  RunnerInventoryCache, empty_cache, Settings, RunnerInventoryMeta, annotate_runners,
  cached_runners, store_runner_cache, invalidate_runner_cache, suspend_runner_inventory,
  resume_runner_inventory,
}

-- A fetch under way: the generation that it has read, and the step at which it began.
pub record Fetch : Type 0 where
  pub generation : ℕ
  pub began : ℕ

-- The cache, every fetch begun so far, and the steps counted: the one at which the runners were
-- last changed, and the one at which the fetch of what is cached began. `under_way` says whether the
-- last of the suspensions and resumptions was a suspension.
pub record World : Type 0 where
  pub cache : RunnerInventoryCache
  pub fetches : List Fetch
  pub steps : ℕ
  pub last_change : ℕ
  pub origin : ℕ
  pub under_way : Bool

abbrev pub changed : (RunnerInventoryCache → RunnerInventoryCache) → World → World
changed change w = record w { cache = change w.cache; steps = w.steps + 1; last_change = w.steps }

abbrev pub begun : World → World
begun w = record w {
  fetches = record { generation = w.cache.generation; began = w.steps } ∷ w.fetches;
  steps = w.steps + 1;
}

abbrev pub stored : List Runner → ℕ → Fetch → World → World
stored runners fetched_at f w = record w {
  cache = store_runner_cache runners f.generation fetched_at w.cache;
  steps = w.steps + 1;
  origin = if nat_beq w.cache.generation f.generation then f.began else w.origin;
}

pub data Reachable : World → Type 0 where
  started : Reachable (record {
    cache = empty_cache;
    fetches = [];
    steps = 0;
    last_change = 0;
    origin = 0;
    under_way = false;
  })
  fetch_begins : {w : World} → Reachable w → Reachable (begun w)
  fetch_stores :
      {w : World} (i : ℕ) (f : Fetch) (runners : List Runner) (fetched_at : ℕ)
      → Reachable w
      → get_elem? w.fetches i ≡ some f
      → Reachable (stored runners fetched_at f w)
  runner_deleted : {w : World} → Reachable w → Reachable (changed invalidate_runner_cache w)
  mutation_begins :
      {w : World}
      → Reachable w
      → Reachable (record (changed suspend_runner_inventory w) { under_way = true })
  mutation_ends :
      {w : World}
      → Reachable w
      → Reachable (record (changed resume_runner_inventory w) { under_way = false })

-- A fetch of the current generation began after the last change.
abbrev IsRecent : ℕ → ℕ → Fetch → Type 0
IsRecent generation last_change f =
    (f.generation ≤ generation) × (f.generation ≡ generation → last_change ≤ f.began)

record IsFresh (w : World) : Type 0 where
  change_past : w.last_change ≤ w.steps
  recent : All (IsRecent w.cache.generation w.last_change) w.fetches
  cached_recent : (w.cache.fetched_at ≡ 0) ⊎ (w.last_change ≤ w.origin)
  suspended : w.cache.suspended ≡ w.under_way

All-weaken :
    (P Q : Fetch → Type 0) (fs : List Fetch) → ((f : Fetch) → P f → Q f) → All P fs → All Q fs
All-weaken P Q [] h a = tt
All-weaken P Q (f ∷ fs) h a = (h f a.0, All-weaken P Q fs h a.1)

-- Whatever bumps the generation and empties the cache leaves every fetch begun before behind.
changed-IsFresh :
    (change : RunnerInventoryCache → RunnerInventoryCache) (w : World)
    → ((c : RunnerInventoryCache) → (change c).generation ≡ c.generation + 1)
    → ((c : RunnerInventoryCache) → (change c).fetched_at ≡ 0)
    → (after : Bool) → (change w.cache).suspended ≡ after
    → IsFresh w
    → IsFresh (record (changed change w) { under_way = after })
changed-IsFresh change w bumps empties after same v = record {
  change_past = omega arith;
  recent =
      All-weaken (IsRecent w.cache.generation w.last_change)
        (IsRecent (change w.cache).generation w.steps) w.fetches
        (λ f r.
          (omega (arith, r.0, bumps w.cache), λ e. absurd (omega (arith, r.0, bumps w.cache, e))))
        v.recent;
  cached_recent = inl (empties w.cache);
  suspended = same;
}

invalidate_runner_cache-suspended :
    (c : RunnerInventoryCache) → (invalidate_runner_cache c).suspended ≡ c.suspended
unfolding invalidate_runner_cache
invalidate_runner_cache-suspended c = refl

Reachable-IsFresh : (w : World) → Reachable w → IsFresh w
unfolding store_runner_cache
Reachable-IsFresh w started = record {
  change_past = omega arith;
  recent = tt;
  cached_recent = inl refl;
  suspended = refl;
}
Reachable-IsFresh w (fetch_begins {w = w₀} r) =
    let v = Reachable-IsFresh w₀ r in
    record {
      change_past = omega (arith, v.change_past);
      recent = ((omega arith, λ e. v.change_past), v.recent);
      cached_recent = v.cached_recent;
      suspended = v.suspended;
    }
Reachable-IsFresh w (fetch_stores {w = w₀} i f runners fetched_at r e) =
    let v = Reachable-IsFresh w₀ r in
    let recent =
      All-get_elem (IsRecent w₀.cache.generation w₀.last_change) w₀.fetches i f v.recent e in
    elim (Bool-cases (nat_beq w₀.cache.generation f.generation)) [
      | inl same ↦ rw same (record {
        change_past = omega (arith, v.change_past);
        recent = v.recent;
        cached_recent =
            inr (recent.1 (sym ((nat_beq_iff w₀.cache.generation f.generation).0 same)));
        suspended = v.suspended;
      })
      | inr outdated ↦ rw outdated (record {
        change_past = omega (arith, v.change_past);
        recent = v.recent;
        cached_recent = v.cached_recent;
        suspended = v.suspended;
      })
    ]
Reachable-IsFresh w (runner_deleted {w = w₀} r) =
    changed-IsFresh invalidate_runner_cache w₀ (λ c. unfold invalidate_runner_cache in refl)
      (λ c. unfold invalidate_runner_cache in refl) w₀.under_way
      (invalidate_runner_cache-suspended w₀.cache ∙ (Reachable-IsFresh w₀ r).suspended)
      (Reachable-IsFresh w₀ r)
Reachable-IsFresh w (mutation_begins {w = w₀} r) =
    changed-IsFresh suspend_runner_inventory w₀ (λ c. unfold suspend_runner_inventory in refl)
      (λ c. unfold suspend_runner_inventory in refl) true (unfold suspend_runner_inventory in refl)
      (Reachable-IsFresh w₀ r)
Reachable-IsFresh w (mutation_ends {w = w₀} r) =
    changed-IsFresh resume_runner_inventory w₀ (λ c. unfold resume_runner_inventory in refl)
      (λ c. unfold resume_runner_inventory in refl) false (unfold resume_runner_inventory in refl)
      (Reachable-IsFresh w₀ r)

-- However fetches and changes interleave, what the cache serves, also to a caller that allows stale
-- runners, comes from a fetch that began after the last change that the provider was told of; and a
-- caller that does not allow them is served nothing between a suspension and the next resumption,
-- whichever change that belongs to.
pub cached_runners-fresh :
    (s : Settings) (now : ℕ) (allow_stale : Bool) (w : World)
    (served : List Runner × RunnerInventoryMeta)
    → Reachable w
    → cached_runners s now allow_stale w.cache ≡ some served
    → (w.last_change ≤ w.origin)
      × (served.0 ≡ annotate_runners s.prefix w.cache.runners)
      × (allow_stale ≡ false → w.under_way ≡ false)
unfolding cached_runners
cached_runners-fresh s now allow_stale w served r e =
    let v = Reachable-IsFresh w r in
    (ground (arith, e, v.cached_recent), ground (arith, e), λ n. ground (arith, e, n, v.suspended))
