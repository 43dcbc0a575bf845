-- ===== src/Wiring/Targets.antt =====
-- cmd/scaler/main.go: the targets of groups, and what making the provider of a class does to the
-- providers by target.
use gh_runner_scaler.Prelude.{
  ◌≡◌, refl, sym, subst, ◌∙◌, ◌↔◌, ◌⊎◌, inl, inr, some, ◌++◌, arith, if◌then◌else◌, Bool-cases,
  Option-cases, ◌==◌, beq_refl, nat_eq, Text, text_eq,
}
use gh_runner_scaler.Prelude.Strings.{text, to_lower}
use gh_runner_scaler.Prelude.Dict.{Dict, get, get-put}
use gh_runner_scaler.Prelude.Results.{Checked, valid, invalid, and_then_valid}
use gh_runner_scaler.Config.{RunnerClass, Config}
use gh_runner_scaler.Daemon.Routing.{RunnerGroup}
use gh_runner_scaler.Github.Workflows.{new, new_for_repo}
use gh_runner_scaler.Wiring.{
  Makers, WiredGroup, CiProvider, for_class, wire_runtime_and_cache, wire_ci_provider, wire_state,
  state_dir_of, runner_group, shared_by, github_target_cache_key, repo_scoped, class_target_name,
  is_set, or_malformed, wire_class,
}

-- Two groups have the same target: both a repository or both an organisation, with the same name up
-- to case.
abbrev pub IsSameTarget : RunnerGroup → RunnerGroup → Type 0
IsSameTarget g h = (g.repo_scoped ≡ h.repo_scoped) × (to_lower g.target ≡ to_lower h.target)

abbrev pub group_key : RunnerGroup → Text
group_key g =
    if g.repo_scoped
    then to_lower (text "repo:" ++ g.target)
    else to_lower (text "org:" ++ g.target)

pub class-group_key :
    (class : RunnerClass) → github_target_cache_key class ≡ group_key (runner_group class)
unfolding github_target_cache_key runner_group repo_scoped class_target_name
class-group_key class = elim (Bool-cases (is_set class.repo)) [
  | inl scoped ↦ rw scoped refl
  | inr org ↦ rw org refl
]

pub group_key-IsSameTarget : (g h : RunnerGroup) → (group_key g ≡ group_key h) ↔ IsSameTarget g h
unfolding to_lower
group_key-IsSameTarget g h = elim (Bool-cases g.repo_scoped) [
  | inl a ↦ elim (Bool-cases h.repo_scoped) [
    | inl b ↦ rw (a, b) ((λ e. (refl, ground (arith, e))), λ s. ground (arith, s.1))
    | inr b ↦ rw (a, b) ((λ e. ground (arith, e)), λ s. ground (arith, s.0))
  ]
  | inr a ↦ elim (Bool-cases h.repo_scoped) [
    | inl b ↦ rw (a, b) ((λ e. ground (arith, e)), λ s. ground (arith, s.0))
    | inr b ↦ rw (a, b) ((λ e. (refl, ground (arith, e))), λ s. ground (arith, s.1))
  ]
]

-- What making the provider of a class does to the providers by target.
pub record IsShared (key id owner : Text) (providers after : Dict Text Text) : Type 0 where
  pub held : get key after ≡ some owner
  pub kept : (k o : Text) → get k providers ≡ some o → get k after ≡ some o
  pub only :
      (k o : Text) → get k after ≡ some o → (get k providers ≡ some o) ⊎ ((k ≡ key) × (o ≡ id))

shared_by-IsShared :
    (key id : Text) (providers : Dict Text Text)
    → IsShared key id
        (shared_by key id providers (get key providers)).0
        providers
        (shared_by key id providers (get key providers)).1
shared_by-IsShared key id providers = elim (Option-cases (get key providers)) [
  | inr (owner, e) ↦ rw e (record { held = e; kept = λ k o h. h; only = λ k o h. inl h })
  | inl e ↦ rw e (record {
    held = get-put key key id providers ∙ ground (arith, beq_refl key);
    kept = λ k o h. get-put key k id providers ∙ ground (arith, h, e, text_eq.beq_iff key k);
    only = λ k o h. elim (Bool-cases (key == k)) [
      | inl hit ↦
          inr (
            sym ((text_eq.beq_iff key k).0 hit),
            ground (arith, h, hit, get-put key k id providers),
          )
      | inr miss ↦ inl (ground (arith, h, miss, get-put key k id providers))
    ];
  })
]

for_class_valid :
    {T : Type 0} (class : RunnerClass) (r : Checked T) (v : T)
    → for_class class r ≡ valid v
    → r ≡ valid v
for_class_valid class (valid t) v h = h
for_class_valid class (invalid m) v h = ground (arith, h)

wire_ci_provider_lem :
    (cfg : Config) (class : RunnerClass) (providers after : Dict Text Text) (ci : CiProvider)
    → wire_ci_provider cfg class providers ≡ valid (ci, after)
    → IsShared (github_target_cache_key class) class.id ci.inventory providers after
unfolding wire_ci_provider
wire_ci_provider_lem cfg class providers after ci h =
    elim (Bool-cases (cfg.ci.provider == text "github")) [
      | inr other ↦ ground (arith, h, other)
      | inl github ↦
          let key = github_target_cache_key class in
          let (t, made, last) =
            and_then_valid
              (if repo_scoped class
                then or_malformed class.repo (new_for_repo class.repo)
                else valid (new class.org))
              _ (ci, after) (rw github at h) in
          let same_owner : (shared_by key class.id providers (get key providers)).0 ≡ ci.inventory =
            ground (arith, last) in
          let same_after : (shared_by key class.id providers (get key providers)).1 ≡ after =
            ground (arith, last) in
          subst (λ d. IsShared key class.id ci.inventory providers d) same_after
            (subst
              (λ o.
                IsShared key class.id o providers
                  (shared_by key class.id providers (get key providers)).1)
              same_owner (shared_by-IsShared key class.id providers))
    ]

pub wire_class_lem :
    (makers : Makers) (cfg : Config) (class : RunnerClass) (providers after : Dict Text Text)
    (w : WiredGroup)
    → wire_class makers cfg class providers ≡ valid (w, after)
    → (w.group ≡ runner_group class)
      × IsShared (github_target_cache_key class) class.id w.ci.inventory providers after
unfolding wire_class
wire_class_lem makers cfg class providers after w h =
    let runtime =
      and_then_valid (for_class class (wire_runtime_and_cache makers cfg class)) _ (w, after) h in
    let ((ci, added), made, rest) =
      and_then_valid (for_class class (wire_ci_provider cfg class providers)) _ (w, after)
        runtime.2 in
    let state =
      and_then_valid (for_class class (wire_state makers cfg (state_dir_of cfg class))) _ (w, after)
        rest in
    let shared =
      wire_ci_provider_lem cfg class providers added ci
        (for_class_valid class _ (ci, added) made) in
    let same_ci : ci ≡ w.ci = ground (arith, state.2) in
    let same_after : added ≡ after = ground (arith, state.2) in
    (
      ground (arith, state.2),
      subst (λ d. IsShared (github_target_cache_key class) class.id w.ci.inventory providers d)
          same_after
          (subst
            (λ p. IsShared (github_target_cache_key class) class.id p.inventory providers added)
            same_ci shared),
    )
