-- ===== src/Engine/Labels.antt =====
-- internal/engine/reconciler.go: the label sets, the counts of runners, and the snapshot.
use gh_runner_scaler.Prelude.{
  sym, ◌∙◌, ℕ, suc, ◌-◌, ◌≡◌, refl, sym, ◌∙◌, ◌↔◌, inl, inr, Bool, true, false, not, ◌&&◌, ◌||◌,
  Option, none, some, List, [], ◌∷◌, arith, ltb, nat_beq, if◌then◌else◌, Bool-cases, length, all,
  count, ◌==◌, beq_refl, nat_eq, Text, text_eq, contains,
}
use gh_runner_scaler.Prelude.Strings.{text, to_lower, trim_space, has_prefix, split}
use gh_runner_scaler.Domain.{ContainerStatus, running, status_beq, Runner, RunnerSnapshot}

-- The nonempty labels, trimmed and in lower case; what `labelsSet` and `runnerHasLabels` put in
-- their maps.
unfoldable pub label_set : List Text → List Text
label_set [] = []
label_set (label ∷ rest) =
    let l = to_lower (trim_space label) in if l == [] then label_set rest else l ∷ label_set rest

unfoldable pub labels_set : Text → List Text
unfolding label_set
labels_set labels = label_set (split b',' labels)

unfoldable pub runner_has_labels : Runner → List Text → Bool
runner_has_labels runner [] = true
runner_has_labels runner (r ∷ required) = elim runner.labels [
  | [] ↦ false
  | l ∷ ls ↦ all (λ label. contains label (label_set (l ∷ ls))) (r ∷ required)
]

unfoldable pub available_runner_count : List Runner → ℕ
available_runner_count [] = 0
available_runner_count (r ∷ runners) =
    if r.status == text "online" && not r.busy
    then suc (available_runner_count runners)
    else available_runner_count runners

count_labelled : List Text → List Runner → ℕ
count_labelled required [] = 0
count_labelled required (r ∷ runners) =
    if r.status == text "online" && not r.busy && runner_has_labels r required
    then suc (count_labelled required runners)
    else count_labelled required runners

unfoldable pub available_runner_count_for_labels : List Runner → Text → ℕ
unfolding count_labelled
available_runner_count_for_labels runners labels = count_labelled (labels_set labels) runners

unfoldable pub build_snapshot : List Runner → Text → RunnerSnapshot
build_snapshot runners prefix =
    let total = length runners in
    let busy = count (λ r. r.busy) runners in
    let online = count (λ r. r.status == text "online") runners in
    let auto = count (λ r. has_prefix r.name prefix) runners in
    record {
      total = total;
      busy = busy;
      idle = total - busy;
      online = online;
      offline = total - online;
      auto = auto;
      permanent = total - auto;
      runners = runners;
    }

unfoldable pub find_runner : Text → List Runner → Option Runner
find_runner name [] = none
find_runner name (r ∷ runners) = if r.name == name then some r else find_runner name runners

-- runnerAvailabilityGrace, two minutes in nanoseconds
abbrev pub runner_availability_grace : ℕ
runner_availability_grace = 120000000000

unfoldable pub pending_availability_grace : ℕ → ℕ
pending_availability_grace idle_timeout =
    if ltb 0 idle_timeout && ltb idle_timeout runner_availability_grace
    then idle_timeout
    else runner_availability_grace

unfoldable pub pending_runner_capacity : ContainerStatus → Runner → Text → ℕ → ℕ → Bool
pending_runner_capacity status runner labels idle_dur grace =
    if not (status_beq status running) || runner.busy || runner.status == text "online"
    then false
    else if nat_beq grace 0 || ltb grace idle_dur
    then false
    else runner_has_labels runner (labels_set labels)

-- Membership in a set of labels, spelled out: some label of the list, trimmed and in lower case,
-- is `l`, and `l` is not empty.
abbrev pub labelled : Text → List Text → Bool
labelled l [] = false
labelled l (label ∷ rest) = (to_lower (trim_space label) == l && not (l == [])) || labelled l rest

contains-label_set :
    (l : Text) (labels : List Text) → contains l (label_set labels) ≡ labelled l labels
unfolding label_set
contains-label_set l [] = refl
contains-label_set l (label ∷ rest) = ground (
  arith,
  contains-label_set l rest,
  text_eq.beq_iff (to_lower (trim_space label)) [],
  text_eq.beq_iff (to_lower (trim_space label)) l,
  text_eq.beq_iff l [],
)

all-contains :
    (required : List Text) (set : List Text) (l : Text)
    → all (λ label. contains label set) required ≡ true
    → contains l required ≡ true
    → contains l set ≡ true
all-contains [] set l h m = ground arith
all-contains (r ∷ required) set l h m = elim (Bool-cases (r == l)) [
  | inl e ↦ rw (← (text_eq.beq_iff r l).0 e) (ground arith)
  | inr e ↦ all-contains required set l (ground arith) (ground arith)
]

all_of_contains :
    (required : List Text) (set : List Text)
    → ((l : Text) → contains l required ≡ true → contains l set ≡ true)
    → all (λ label. contains label set) required ≡ true
all_of_contains [] set h = refl
all_of_contains (r ∷ required) set h =
    ground (arith, h r, beq_refl r, all_of_contains required set (λ l m. h l (ground (arith, m))))

runner_has_labels-eq-all :
    (runner : Runner) (required : List Text)
    → runner_has_labels runner required
      ≡ all (λ label. contains label (label_set runner.labels)) required
unfolding runner_has_labels label_set
runner_has_labels-eq-all runner [] = refl
runner_has_labels-eq-all runner (r ∷ required) = ground arith

-- A runner has the required labels exactly when each of them is one of its labels, up to
-- surrounding space and case.
pub runner_has_labels_iff :
    (runner : Runner) (labels : Text)
    → (runner_has_labels runner (labels_set labels) ≡ true)
      ↔ ((l : Text) → labelled l (split b',' labels) ≡ true → labelled l runner.labels ≡ true)
unfolding labels_set
runner_has_labels_iff runner labels =
    let required : List Text = label_set (split b',' labels) in
    let same = runner_has_labels-eq-all runner required in
    (
      (λ h l m.
          sym (contains-label_set l runner.labels)
          ∙ all-contains required (label_set runner.labels) l (sym same ∙ h)
              (contains-label_set l (split b',' labels) ∙ m)),
      (λ h.
          same
          ∙ all_of_contains required (label_set runner.labels) (λ l m.
            contains-label_set l runner.labels
            ∙ h l (sym (contains-label_set l (split b',' labels)) ∙ m))),
    )
