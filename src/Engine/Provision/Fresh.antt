-- ===== src/Engine/Provision/Fresh.antt =====
-- internal/engine/reconciler.go, cloneWithFreshName and scaleUp: the name that a clone gets, and the
-- calls of a scale-up.
use gh_runner_scaler.Prelude.{
  ℕ, zero, suc, ◌+◌, ◌<◌, ◌≡◌, refl, subst, ◌⊎◌, inl, inr, false, some, List, ◌∷◌, arith, leb,
  Bool-cases, Option-cases, length, nat_eq, Text, text_eq, contains,
}
use gh_runner_scaler.Engine.Calls.{
  clone_from_template, list_containers, History, Reply, ok, err, Env, ◌>>=◌, pure, or_else,
  on_reply, perform, ask_containers, Reply-cases,
}
use gh_runner_scaler.Domain.{Container}
use gh_runner_scaler.Engine.Settings.{ReconcilerConfig, numbered, numbered_injective}
use gh_runner_scaler.Engine.Names.{next_name, next_name_lem, Taken}
use gh_runner_scaler.Engine.Provision.{
  names_of, is_container_name_conflict, clone_attempts, clone_with_fresh_name,
}

module _ (env : Env) (cfg : ReconcilerConfig) where
  -- A list of containers that the engine had reason to take for the current one: the one that it
  -- was handed, or a later listing with room for one more container.
  abbrev pub Known : List Container → List Container → Type 0
  Known existing snapshot =
      (snapshot ≡ existing)
      ⊎ ((h : History) × (env.containers h cfg.prefix ≡ ok snapshot)
          × (length snapshot < cfg.max_auto_runners))

  -- The name of a clone: the first of `prefix-1`, `prefix-2`, … that no container of a known list
  -- bears.
  pub record FreshName (existing : List Container) (name : Text) : Type 0 where
    pub number : ℕ
    pub snapshot : List Container
    pub known : Known existing snapshot
    pub named : name ≡ numbered cfg.prefix (1 + number)
    pub unused : contains name (names_of snapshot) ≡ false
    pub smallest : Taken (numbered cfg.prefix) 1 number (names_of snapshot)

  abbrev FreshReply : List Container → Reply Text → Type 0
  FreshReply existing (ok name) = FreshName existing name
  FreshReply existing (err e) = Unit {0}

  abbrev chosen :
      (snapshot : List Container)
      → (k : ℕ) × (next_name (numbered cfg.prefix) (names_of snapshot)
          ≡ some (numbered cfg.prefix (1 + k)))
        × (contains (numbered cfg.prefix (1 + k)) (names_of snapshot) ≡ false)
        × Taken (numbered cfg.prefix) 1 k (names_of snapshot)
  chosen snapshot =
      next_name_lem (numbered cfg.prefix) (numbered_injective cfg.prefix) (names_of snapshot)

  -- Each attempt uses a known list.
  clone_attempts-fresh :
      (left : ℕ) (existing snapshot : List Container) (h : History)
      → Known existing snapshot
      → FreshReply existing (clone_attempts env cfg left snapshot h).0
  unfolding clone_attempts pure ◌>>=◌ perform or_else on_reply ask_containers
  clone_attempts-fresh zero existing snapshot h k = tt
  clone_attempts-fresh (suc left) existing snapshot h k =
      let (n, e, unused, smallest) = chosen snapshot in
      let name : Text = numbered cfg.prefix (1 + n) in
      elim (Option-cases (env.attempt h (clone_from_template name))) [
        | inl fine ↦
            rw (e, clone_attempts)
              (rw fine (record {
                number = n;
                snapshot = snapshot;
                known = k;
                named = refl;
                unused = unused;
                smallest = smallest;
              }))
        | inr (message, failed) ↦
            let h' : History = clone_from_template name ∷ h in
            elim (Bool-cases (is_container_name_conflict message)) [
              | inr other ↦ rw (e, clone_attempts) (rw failed (rw other tt))
              | inl conflict ↦ elim (Reply-cases (env.containers h' cfg.prefix)) [
                | inr (l, f) ↦ rw (e, clone_attempts) (rw failed (rw conflict (rw f tt)))
                | inl (latest, f) ↦ elim (Bool-cases (leb cfg.max_auto_runners (length latest))) [
                  | inl full ↦ rw (e, clone_attempts) (rw failed (rw conflict (rw f (rw full tt))))
                  | inr room ↦
                      rw (e, clone_attempts)
                        (rw failed (
                          rw conflict (
                            rw f (
                              rw room (
                                clone_attempts-fresh left existing latest
                                  (list_containers cfg.prefix ∷ h')
                                  (inr (h', f, ground (arith, room))))))))
                ]
              ]
            ]
      ]

  -- A clone that succeeds has the first name that no container of a list known to the engine bears:
  -- the list that it was handed, or a later listing with room for one more container.
  pub clone_with_fresh_name-FreshName :
      (existing : List Container) (h : History) (name : Text)
      → (clone_with_fresh_name env cfg existing h).0 ≡ ok name
      → FreshName existing name
  unfolding clone_with_fresh_name
  clone_with_fresh_name-FreshName existing h name e =
      subst (FreshReply existing) e (clone_attempts-fresh 3 existing existing h (inl refl))
