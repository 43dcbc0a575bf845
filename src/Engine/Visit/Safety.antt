-- ===== src/Engine/Visit/Safety.antt =====
-- internal/engine/reconciler.go, ReconcileDemand: which containers a pass may tear down.
use gh_runner_scaler.Prelude.{
  ℕ, ◌-◌, ◌≤◌, ◌≡◌, refl, ap, ◌∙◌, ◌⊎◌, inl, inr, Bool, true, false, none, some, List, [], ◌∷◌,
  ◌++◌, arith, leb, if◌then◌else◌, Bool-cases, Option-cases, All, nat_eq, Text, text_eq,
}
use gh_runner_scaler.Engine.Calls.{
  Call, stop_container, delete_container, exec_command, delete_runner, get_last_active,
  set_last_active, History, ok, err, Env, M, ◌>>=◌, pure, on_reply, perform, ask_last_active,
  Reply-cases,
}
use gh_runner_scaler.Domain.{stopped, status_beq, Container, Runner}
use gh_runner_scaler.Engine.Labels.{find_runner, pending_availability_grace}
use gh_runner_scaler.Engine.Settings.{ReconcilerConfig}
use gh_runner_scaler.Engine.Visit.{
  Progress, last_active_or, visit_orphan, visit_idle, visit_registered, visit_known,
}

-- Every call but those that stop or delete a container, or delete a runner.
abbrev pub Harmless : Call → Type 0
Harmless (stop_container n) = ⊥
Harmless (delete_container n) = ⊥
Harmless (exec_command n c) = ⊥
Harmless (delete_runner id) = ⊥
Harmless _ = Unit

module _ (env : Env) (cfg : ReconcilerConfig) (runners : List Runner) where
  -- The time of the container's last activity, as GetLastActive gives it after the history `h`, or
  -- the time of the pass.
  abbrev pub active_at : Text → ℕ → History → ℕ
  active_at name now h = elim (env.last_active h name) [ ok t ↦ t | err e ↦ now ]

  abbrev pub grace : ℕ
  grace = pending_availability_grace cfg.idle_timeout

  -- When a container whose status is known may be torn down: it has stopped; or no runner of its
  -- name is registered and the grace is over; or its runner is idle past the timeout.
  abbrev pub Eligible : Container → ℕ → History → Type 0
  Eligible c now h =
      (status_beq c.status stopped ≡ true)
      ⊎ ((find_runner c.name runners ≡ none) × (grace ≤ now - active_at c.name now h))
      ⊎ ((r : Runner) × (find_runner c.name runners ≡ some r)
          × (r.busy ≡ false)
          × (cfg.idle_timeout ≤ now - active_at c.name now h))

  -- What a round adds to the history is harmless.
  abbrev pub Spared : M Progress → History → Type 0
  Spared m h = (added : History) × ((m h).1 ≡ added ++ h) × All Harmless added

  last_active_or_lem :
      (name : Text) (now : ℕ) (h : History)
      → (added : History) × (last_active_or env cfg runners name now h
          ≡ (active_at name now h, added ++ h))
        × All Harmless added
  unfolding last_active_or ◌>>=◌ on_reply perform ask_last_active pure
  last_active_or_lem name now h = elim (Reply-cases (env.last_active h name)) [
    | inl (t, e) ↦ (get_last_active name ∷ [], rw (e, active_at) refl, (tt, tt))
    | inr (t, e) ↦ (
      set_last_active name now ∷ get_last_active name ∷ [],
      rw (e, active_at) refl,
      (tt, (tt, tt)),
    )
  ]

  -- After the last activity is read, a round does nothing more unless it is due.
  Spared-unless :
      (name : Text) (now : ℕ) (h : History) (due : ℕ → Bool) (rest : ℕ → M Progress)
      → ((last : ℕ) (h' : History) → due last ≡ false → (rest last h').1 ≡ h')
      → Spared (last_active_or env cfg runners name now >>= rest) h
        ⊎ (due (active_at name now h) ≡ true)
  unfolding ◌>>=◌
  Spared-unless name now h due rest quiet =
      let (added, e, a) = last_active_or_lem name now h in
      elim (Bool-cases (due (active_at name now h))) [
        | inl late ↦ inr late
        | inr early ↦ inl (
          added,
          ap (λ (r : ℕ × History). (rest r.0 r.1).1) e
              ∙ quiet (active_at name now h) (added ++ h) early,
          a,
        )
      ]

  visit_orphan-spares :
      (name : Text) (now : ℕ) (p : Progress) (h : History)
      → Spared (visit_orphan env cfg runners name now p) h ⊎ (grace ≤ now - active_at name now h)
  unfolding visit_orphan pure
  visit_orphan-spares name now p h =
      elim (Spared-unless name now h (λ last. leb grace (now - last)) _
        (λ last h' early. ground (arith, early))) [
          | inl spared ↦ inl spared
          | inr due ↦ inr (ground (arith, due))
        ]

  visit_idle-spares :
      (r : Runner) (c : Container) (now : ℕ) (p : Progress) (h : History)
      → Spared (visit_idle env cfg runners r c now p) h
        ⊎ (cfg.idle_timeout ≤ now - active_at c.name now h)
  unfolding visit_idle pure
  visit_idle-spares r c now p h =
      elim (Spared-unless c.name now h (λ last. leb cfg.idle_timeout (now - last)) _
        (λ last h' early. ground (arith, early))) [
          | inl spared ↦ inl spared
          | inr due ↦ inr (ground (arith, due))
        ]

  if-spares :
      (b : Bool) (m n : M Progress) (h : History) {Q : Type 0}
      → (b ≡ true → Spared m h ⊎ Q)
      → (b ≡ false → Spared n h ⊎ Q)
      → Spared (if b then m else n) h ⊎ Q
  if-spares true m n h km kn = km refl
  if-spares false m n h km kn = kn refl

  -- A container whose status is known is torn down only if it has stopped, or has no registered
  -- runner and the grace is over, or its runner is idle past the timeout; in every other case no
  -- container is stopped or deleted, no command is run in one and no runner is deleted.
  pub visit_known-spares :
      (c : Container) (now : ℕ) (p : Progress) (h : History)
      → Spared (visit_known env cfg runners c now p) h ⊎ Eligible c now h
  unfolding visit_known visit_registered ◌>>=◌ perform pure
  visit_known-spares c now p h =
      if-spares (status_beq c.status stopped) _ _ h (λ gone. inr (inl gone))
        λ alive. elim (Option-cases (find_runner c.name runners)) [
          | inl missing ↦ rw missing (elim (visit_orphan-spares c.name now p h) [
            | inl spared ↦ inl spared
            | inr due ↦ inr (inr (inl (refl, due)))
          ])
          | inr (r, found) ↦ rw found (
              if-spares r.busy _ _ h (λ busy. inl (set_last_active c.name now ∷ [], refl, (tt, tt)))
                (λ free. elim (visit_idle-spares r c now p h) [
                  | inl spared ↦ inl spared
                  | inr due ↦ inr (inr (inr (r, refl, free, due)))
                ]))
        ]
