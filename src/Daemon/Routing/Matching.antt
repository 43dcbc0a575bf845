-- ===== src/Daemon/Routing/Matching.antt =====
-- internal/daemon/webhook.go: which repositories a group serves and which labels it asks for, said
-- without the code that tests them.
use gh_runner_scaler.Prelude.{
  ◌≡◌, refl, ◌↔◌, ◌⊎◌, inl, inr, true, false, some, List, [], ◌∷◌, map, arith, Option-cases, All,
  nat_eq, Text, text_eq, contains,
}
use gh_runner_scaler.Prelude.Strings.{to_lower, trim_space, cut}
use gh_runner_scaler.Prelude.{Any}
use gh_runner_scaler.Daemon.Routing.{
  RunnerGroup, is_empty, is_owner, folded, labels_seen, group_matches_repo, labels_match,
}

-- Names are compared without the space around them and without regard to case; a blank target, and
-- a blank repository, match everything.
abbrev pub Serves : RunnerGroup → Text → Type 0
Serves g repo =
    let target = to_lower (trim_space g.target) in
    let wanted = to_lower (trim_space repo) in
    (target ≡ [])
    ⊎ (wanted ≡ [])
    ⊎ ((g.repo_scoped ≡ true) × (wanted ≡ target))
    ⊎ ((g.repo_scoped ≡ false) × (name : Text) × (cut b'/' wanted ≡ some (target, name)))

-- Every label asked for that is not blank is among those carried, up to case and space.
abbrev pub HasLabels : List Text → List Text → Type 0
HasLabels carried asked =
    All
      (λ label.
        (to_lower (trim_space label) ≡ [])
        ⊎ Any (λ other. to_lower (trim_space other) ≡ to_lower (trim_space label)) carried)
      asked

is_empty_iff : (s : Text) → (is_empty s ≡ true) ↔ (s ≡ [])
is_empty_iff [] = ((λ e. refl), (λ e. refl))
is_empty_iff (c ∷ s) = ground arith

is_owner_iff :
    (target wanted : Text)
    → (is_owner target (cut b'/' wanted) ≡ true)
      ↔ ((name : Text) × (cut b'/' wanted ≡ some (target, name)))
is_owner_iff target wanted = elim (Option-cases (cut b'/' wanted)) [
  | inl e ↦ rw e ((λ h. cc), (λ h. absurd (ground (arith, h.1))))
  | inr ((owner, name), e) ↦ rw e (
    (λ h. (name, ground (arith, h, text_eq.beq_iff owner target))),
    (λ h. ground (arith, h.1, text_eq.beq_iff owner target)),
  )
]

pub group_matches_repo_iff :
    (g : RunnerGroup) (repo : Text) → (group_matches_repo g repo ≡ true) ↔ Serves g repo
unfolding group_matches_repo
group_matches_repo_iff g repo =
    let target = to_lower (trim_space g.target) in
    let wanted = to_lower (trim_space repo) in
    grind (
      arith,
      is_empty_iff target,
      is_empty_iff wanted,
      is_owner_iff target wanted,
      text_eq.beq_iff wanted target,
    )

contains-folded_iff :
    (label : Text) (carried : List Text)
    → (contains label (map folded carried) ≡ true)
      ↔ Any (λ other. to_lower (trim_space other) ≡ label) carried
contains-folded_iff label [] = ((λ e. absurd (ground (arith, e))), (λ e. absurd e))
contains-folded_iff label (c ∷ cs) =
    ground (arith, contains-folded_iff label cs, text_eq.beq_iff (to_lower (trim_space c)) label)

labels_seen_iff :
    (carried asked : List Text)
    → (labels_seen (map folded carried) asked ≡ true) ↔ HasLabels carried asked
labels_seen_iff carried [] = ((λ e. tt), (λ e. refl))
labels_seen_iff carried (l ∷ ls) = ground (
  arith,
  labels_seen_iff carried ls,
  is_empty_iff (folded l),
  contains-folded_iff (folded l) carried,
)

pub labels_match_iff :
    (carried asked : List Text) → (labels_match carried asked ≡ true) ↔ HasLabels carried asked
unfolding labels_match
labels_match_iff carried asked = labels_seen_iff carried asked
