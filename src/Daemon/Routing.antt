-- ===== src/Daemon/Routing.antt =====
-- internal/daemon/webhook.go: which runner groups an event concerns, and what a push syncs.
pub mod Matching
pub mod Groups
use gh_runner_scaler.Prelude.{
  Bool, true, false, ◌||◌, Option, none, some, List, [], ◌∷◌, map, if◌then◌else◌, filter, ◌==◌,
  nat_eq, Text, text_eq, contains,
}
use gh_runner_scaler.Prelude.Strings.{to_lower, trim_space, cut}
use gh_runner_scaler.Domain.{WebhookEvent}

-- daemon.go, RunnerGroup, less the providers that serve the group.
pub record RunnerGroup : Type 0 where
  pub id : Text
  pub target : Text
  pub repo_scoped : Bool
  pub prefix : Text
  pub match_labels : List Text
  pub baseline_name : Text
  pub cache_pool : Text

abbrev pub is_empty : Text → Bool
is_empty [] = true
is_empty (c ∷ s) = false

abbrev pub is_owner : Text → Option (Text × Text) → Bool
is_owner target none = false
is_owner target (some (owner, rest)) = owner == target

unfoldable pub group_matches_repo : RunnerGroup → Text → Bool
group_matches_repo group repo =
    let target = to_lower (trim_space group.target) in
    let wanted = to_lower (trim_space repo) in
    if is_empty target || is_empty wanted
    then true
    else if group.repo_scoped
    then wanted == target
    else is_owner target (cut b'/' wanted)

-- A label in lower case without the space around it.
abbrev pub folded : Text → Text
folded label = to_lower (trim_space label)

-- The loop over the labels of the group, against the folded labels of the job.
abbrev pub labels_seen : List Text → List Text → Bool
labels_seen seen [] = true
labels_seen seen (label ∷ labels) =
    let rest = labels_seen seen labels in
    if is_empty (folded label) then rest else if contains (folded label) seen then rest else false

unfoldable pub labels_match : List Text → List Text → Bool
labels_match job_labels group_labels = labels_seen (map folded job_labels) group_labels

unfoldable pub groups_for_repo : List RunnerGroup → Text → List RunnerGroup
groups_for_repo groups repo =
    if is_empty (trim_space repo) then groups else filter (λ g. group_matches_repo g repo) groups

abbrev pub or_candidates : List RunnerGroup → List RunnerGroup → List RunnerGroup
or_candidates candidates [] = candidates
or_candidates candidates (g ∷ gs) = g ∷ gs

abbrev pub by_labels : List Text → List RunnerGroup → List RunnerGroup
by_labels [] candidates = candidates
by_labels (l ∷ ls) candidates =
    or_candidates candidates (filter (λ g. labels_match (l ∷ ls) g.match_labels) candidates)

-- No candidate is left as no group, also where the event has labels.
unfoldable pub groups_for_event : List RunnerGroup → Option WebhookEvent → List RunnerGroup
groups_for_event groups none = groups
groups_for_event groups (some event) = by_labels event.labels (groups_for_repo groups event.repo)
