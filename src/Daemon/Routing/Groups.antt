-- ===== src/Daemon/Routing/Groups.antt =====
-- internal/daemon/webhook.go: which groups an event reaches.
use gh_runner_scaler.Prelude.{
  ◌≡◌, refl, sym, ap, ◌∙◌, ◌≢◌, ◌↔◌, ◌⊎◌, inl, inr, Bool, true, some, List, [], ◌∷◌, arith,
  Bool-cases, filter, All, nat_eq, Text, text_eq,
}
use gh_runner_scaler.Daemon.Routing.Matching.{
  Serves, HasLabels, group_matches_repo_iff, labels_match_iff,
}
use gh_runner_scaler.Prelude.Strings.{to_lower, trim_space}
use gh_runner_scaler.Domain.{WebhookEvent}
use gh_runner_scaler.Daemon.Routing.{
  RunnerGroup, is_empty, group_matches_repo, labels_match, groups_for_repo, or_candidates,
  by_labels, groups_for_event,
}

filter_of_narrower :
    (p q : RunnerGroup → Bool) (xs : List RunnerGroup)
    → ((g : RunnerGroup) → p g ≡ true → q g ≡ true)
    → filter p (filter q xs) ≡ filter p xs
filter_of_narrower p q [] h = refl
filter_of_narrower p q (x ∷ xs) h = ground (arith, filter_of_narrower p q xs h, h x)

filter_all :
    (p : RunnerGroup → Bool) (xs : List RunnerGroup)
    → ((g : RunnerGroup) → p g ≡ true)
    → filter p xs ≡ xs
filter_all p [] h = refl
filter_all p (x ∷ xs) h = ground (arith, filter_all p xs h, h x)

All-filter : (p : RunnerGroup → Bool) (xs : List RunnerGroup) → All (λ g. p g ≡ true) (filter p xs)
All-filter p [] = tt
All-filter p (x ∷ xs) = elim (Bool-cases (p x)) [
  | inl hit ↦ rw hit (hit, All-filter p xs)
  | inr miss ↦ rw miss (All-filter p xs)
]

All-sub :
    (P : RunnerGroup → Type 0) (p : RunnerGroup → Bool) (xs : List RunnerGroup)
    → All P xs
    → All P (filter p xs)
All-sub P p [] h = tt
All-sub P p (x ∷ xs) h = elim (Bool-cases (p x)) [
  | inl hit ↦ rw hit (h.0, All-sub P p xs h.1)
  | inr miss ↦ rw miss (All-sub P p xs h.1)
]

is_empty-to_lower : (s : Text) → is_empty (to_lower s) ≡ is_empty s
unfolding to_lower
is_empty-to_lower [] = refl
is_empty-to_lower (c ∷ s) = refl

matches_blank :
    (g : RunnerGroup) (repo : Text)
    → is_empty (trim_space repo) ≡ true
    → group_matches_repo g repo ≡ true
unfolding group_matches_repo
matches_blank g repo h = ground (arith, h, is_empty-to_lower (trim_space repo))

-- A blank repository matches every group, so both branches are one filter.
groups_for_repo-filter :
    (groups : List RunnerGroup) (repo : Text)
    → groups_for_repo groups repo ≡ filter (λ g. group_matches_repo g repo) groups
unfolding groups_for_repo
groups_for_repo-filter groups repo = elim (Bool-cases (is_empty (trim_space repo))) [
  | inl blank ↦
      rw blank
        (sym (filter_all (λ g. group_matches_repo g repo) groups (λ g. matches_blank g repo blank)))
  | inr named ↦ rw named refl
]

-- The groups that an event reaches among the candidates, in terms of those with its labels.
pub record Reached (wanted : RunnerGroup → Bool) (candidates reached : List RunnerGroup)
    : Type 0 where
  pub same_wanted : filter wanted reached ≡ filter wanted candidates
  pub fallback : (reached ≡ filter wanted candidates) ⊎ (reached ≡ candidates)
  pub nonempty : candidates ≢ [] → reached ≢ []

or_candidates-Reached :
    (wanted : RunnerGroup → Bool) (candidates chosen : List RunnerGroup)
    → chosen ≡ filter wanted candidates
    → Reached wanted candidates (or_candidates candidates chosen)
or_candidates-Reached wanted candidates [] h = record {
  same_wanted = refl;
  fallback = inr refl;
  nonempty = λ n. n;
}
or_candidates-Reached wanted candidates (g ∷ gs) h = record {
  same_wanted = ap (filter wanted) h ∙ filter_of_narrower wanted wanted candidates (λ x e. e);
  fallback = inl h;
  nonempty = λ n e. cc;
}

by_labels-Reached :
    (labels : List Text) (candidates : List RunnerGroup)
    → Reached (λ g. labels_match labels g.match_labels) candidates (by_labels labels candidates)
by_labels-Reached [] candidates = record {
  same_wanted = refl;
  fallback = inr refl;
  nonempty = λ n. n;
}
by_labels-Reached (l ∷ ls) candidates =
    or_candidates-Reached (λ g. labels_match (l ∷ ls) g.match_labels) candidates
      (filter (λ g. labels_match (l ∷ ls) g.match_labels) candidates) refl

All-Serves :
    (repo : Text) (gs : List RunnerGroup)
    → All (λ g. group_matches_repo g repo ≡ true) gs
    → All (λ g. Serves g repo) gs
All-Serves repo [] h = tt
All-Serves repo (g ∷ gs) h = ((group_matches_repo_iff g repo).0 h.0, All-Serves repo gs h.1)

pub groups_for_event_lem :
    (groups : List RunnerGroup) (event : WebhookEvent)
    → ((g : RunnerGroup) → (group_matches_repo g event.repo ≡ true) ↔ Serves g event.repo)
      × ((g : RunnerGroup)
          → (labels_match event.labels g.match_labels ≡ true)
            ↔ HasLabels event.labels g.match_labels)
      × All (λ g. Serves g event.repo) (groups_for_event groups (some event))
      × Reached
          (λ g. labels_match event.labels g.match_labels)
          (filter (λ g. group_matches_repo g event.repo) groups)
          (groups_for_event groups (some event))
unfolding groups_for_event
groups_for_event_lem groups event = rw (groups_for_repo-filter groups event.repo) (
    let serving = All-filter (λ g. group_matches_repo g event.repo) groups in
    let reached =
      by_labels-Reached event.labels (filter (λ g. group_matches_repo g event.repo) groups) in
    (
      λ g. group_matches_repo_iff g event.repo,
      λ g. labels_match_iff event.labels g.match_labels,
      elim reached.fallback [
        | inl chosen ↦ rw chosen (All-Serves event.repo _ (All-sub _ _ _ serving))
        | inr all_of ↦ rw all_of (All-Serves event.repo _ serving)
      ],
      reached,
    ))
