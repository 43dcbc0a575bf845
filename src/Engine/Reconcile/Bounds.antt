-- ===== src/Engine/Reconcile/Bounds.antt =====
-- internal/engine/reconciler.go, ReconcileDemand: how many containers the scale-up loop adds.
use gh_runner_scaler.Prelude.{
  ℕ, zero, suc, ◌+◌, ◌≤◌, ◌≡◌, refl, ◌⊎◌, inl, inr, List, [], ◌∷◌, ◌++◌, arith, ltb, Bool-cases,
  length, length-append, nat_eq, Text, text_eq,
}
use gh_runner_scaler.Engine.Calls.{History, err, Env, ◌>>=◌, pure, on_reply, Reply-cases}
use gh_runner_scaler.Domain.{running, Container}
use gh_runner_scaler.Engine.Settings.{ReconcilerConfig}
use gh_runner_scaler.Engine.Provision.{scale_up}
use gh_runner_scaler.Engine.Reconcile.{ScaleUps, scale_up_loop, filter_removed_containers}

-- From at most the maximum of runners the loop ends at no more than it; what it added to the count
-- is what it took off the need and what it appended to the list of containers; and it stops short
-- of the need only at the maximum or because a scale-up failed.
pub record Bounded (env : Env) (cfg : ReconcilerConfig) (needed auto listed : ℕ) (r : ScaleUps)
    : Type 0 where
  pub below_max : r.auto_count ≤ cfg.max_auto_runners
  pub covered : r.auto_count + r.needed ≡ auto + needed
  pub appended : length r.containers + auto ≡ listed + r.auto_count
  pub stopped_early :
      (r.needed ≡ 0)
      ⊎ (r.auto_count ≡ cfg.max_auto_runners)
      ⊎ ((existing : List Container) × (h : History) × (e : Text) × ((scale_up env cfg existing h).0
            ≡ err e))

module _ (env : Env) (cfg : ReconcilerConfig) where
  -- From at most the maximum of runners the scale-up loop ends at no more than it; what it adds to
  -- the count it takes off the need and appends to the list of containers; and it stops short of
  -- the need only at the maximum or because a scale-up failed.
  pub scale_up_loop-Bounded :
      (needed auto : ℕ) (removed : List Text) (containers : List Container) (h : History)
      → auto ≤ cfg.max_auto_runners
      → Bounded env cfg needed auto
          (length containers)
          (scale_up_loop env cfg needed auto removed containers h).0
  unfolding scale_up_loop pure ◌>>=◌ on_reply
  scale_up_loop-Bounded zero auto removed containers h m = record {
    below_max = m;
    covered = refl;
    appended = refl;
    stopped_early = inl refl;
  }
  scale_up_loop-Bounded (suc needed) auto removed containers h m =
      elim (Bool-cases (ltb auto cfg.max_auto_runners)) [
        | inr full ↦
            rw (full, scale_up_loop)
              (record {
                below_max = m;
                covered = refl;
                appended = refl;
                stopped_early = inr (inl (ground (arith, full)));
              })
        | inl room ↦
            let existing : List Container = filter_removed_containers containers removed in
            let after : History = (scale_up env cfg existing h).1 in
            elim (Reply-cases (scale_up env cfg existing h).0) [
              | inr (e, failed) ↦
                  rw (room, scale_up_loop)
                    (rw failed (record {
                      below_max = m;
                      covered = refl;
                      appended = refl;
                      stopped_early = inr (inr (existing, h, e, failed));
                    }))
              | inl (name, made) ↦
                  let more : List Container =
                    containers ++ record { name = name; status = running } ∷ [] in
                  let rest =
                    scale_up_loop-Bounded needed (auto + 1) removed more after
                      (ground (arith, room)) in
                  rw (room, scale_up_loop)
                    (rw made (record {
                      below_max = rest.below_max;
                      covered = omega (arith, rest.covered);
                      appended = omega (
                        arith,
                        rest.appended,
                        length-append containers (record { name = name; status = running } ∷ []),
                      );
                      stopped_early = rest.stopped_early;
                    }))
            ]
      ]
