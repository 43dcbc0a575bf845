-- ===== src/Github/Workflows/Names.antt =====
-- provider/github/ci.go with internal/config/config.go: the name under which a repository is
-- reported leads back to the repository.
use gh_runner_scaler.Prelude.{
  ◌≡◌, refl, sym, ap, ◌∙◌, inl, inr, true, false, some, [], ◌∷◌, ◌++◌, arith, Option-cases,
  beq_refl, nat_eq, Text, text_eq,
}
use gh_runner_scaler.Prelude.Strings.{to_lower, trim_space, cut, cut_lem}
use gh_runner_scaler.Prelude.Results.{valid}
use gh_runner_scaler.Config.Target.{is_blank, is_owner_and_name, validate_repo_full_name}
use gh_runner_scaler.Github.Repos.{
  Target, split_repo_full_name, owner_and_name, name_in, target_name, metric_repo_name,
  api_repo_name,
}
use gh_runner_scaler.Github.Workflows.{repo_target_of, new_for_repo}

validated_parts :
    (label full : Text)
    → validate_repo_full_name label full ≡ valid tt
    → (owner : Text) × (name : Text) × (cut b'/' full ≡ some (owner, name))
      × (is_owner_and_name (some (owner, name)) ≡ true)
unfolding validate_repo_full_name
validated_parts label full h = elim (Option-cases (cut b'/' full)) [
  | inl e ↦ ground (arith, e, h)
  | inr ((owner, name), e) ↦ (owner, name, e, ground (arith, e, h))
]

trim_space_nil : trim_space [] ≡ []
unfolding trim_space
trim_space_nil = refl

parts_kept :
    (owner name : Text)
    → is_owner_and_name (some (owner, name)) ≡ true
    → (owner_and_name (some (owner, name)) ≡ some (owner, name))
      × (trim_space owner ≡ owner)
      × (is_blank name ≡ false)
parts_kept [] name h = ground (arith, h, trim_space_nil)
parts_kept (c ∷ owner) [] h = ground (arith, h, trim_space_nil)
parts_kept (c ∷ owner) (d ∷ name) h = (
  ground (arith, h),
  (text_eq.beq_iff (trim_space (c ∷ owner)) (c ∷ owner)).0 (ground (arith, h)),
  refl,
)

split_parts :
    (full owner name : Text)
    → trim_space full ≡ full
    → cut b'/' full ≡ some (owner, name)
    → is_owner_and_name (some (owner, name)) ≡ true
    → split_repo_full_name full ≡ some (owner, name)
unfolding split_repo_full_name
split_parts full owner name trimmed e h =
    ap (λ s. owner_and_name (cut b'/' s)) trimmed
    ∙ ap owner_and_name e
    ∙ (parts_kept owner name h).0

same_owner : (owner full name : Text) → name_in owner full (some (owner, name)) ≡ name
same_owner owner full name = ground (arith, beq_refl (to_lower owner))

reported_name :
    (org repo : Text)
    → is_blank repo ≡ false
    → metric_repo_name (record { org = org; repo = repo }) repo ≡ org ++ b'/' ∷ repo
unfolding metric_repo_name target_name
reported_name org [] h = ground (arith, h)
reported_name org (c ∷ repo) h = refl

-- A repository whose name has passed the validation, without space around it, gets a provider whose
-- target bears that name, and whose runs are reported under it; and the name in a report leads back
-- to the repository of the target.
pub new_for_repo-api_repo_name :
    (label full : Text)
    → validate_repo_full_name label full ≡ valid tt
    → trim_space full ≡ full
    → (t : Target) × (new_for_repo full ≡ some t)
      × (metric_repo_name t t.repo ≡ full)
      × (api_repo_name t full ≡ t.repo)
unfolding new_for_repo metric_repo_name api_repo_name
new_for_repo-api_repo_name label full h trimmed =
    let (owner, name, e, good) = validated_parts label full h in
    let (kept, owner_trimmed, named) = parts_kept owner name good in
    let split = split_parts full owner name trimmed e good in
    let t : Target = record { org = owner; repo = name } in
    (
      t,
      ap repo_target_of split ∙ ap (λ o. some (record { org = o; repo = name })) owner_trimmed,
      reported_name owner name named ∙ sym (cut_lem b'/' full owner name e),
      ap (name_in owner full) split ∙ same_owner owner full name,
    )
