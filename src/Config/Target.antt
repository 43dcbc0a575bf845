-- ===== src/Config/Target.antt =====
-- internal/config/config.go: labels, and the GitHub target of a runner class.
use gh_runner_scaler.Prelude.{
  ◌≡◌, refl, sym, inl, inr, Bool, true, false, not, ◌&&◌, ◌||◌, Option, none, some, List, [], ◌∷◌,
  ◌++◌, arith, if◌then◌else◌, Option-cases, ◌==◌, nat_eq, Text, text_eq,
}
use gh_runner_scaler.Prelude.Strings.{text, trim_space, contains_text, split, cut, cut_lem}
use gh_runner_scaler.Prelude.Results.{Checked, valid, invalid}

abbrev pub is_blank : Text → Bool
is_blank [] = true
is_blank (c ∷ s) = false

unfoldable pub clean_labels : List Text → List Text
clean_labels [] = []
clean_labels (label ∷ labels) =
    let rest = clean_labels labels in
    if is_blank (trim_space label) then rest else trim_space label ∷ rest

unfoldable pub labels_list : Text → List Text
labels_list labels = clean_labels (split b',' labels)

abbrev pub first_nonempty : Text → Text → Text
first_nonempty first second = if is_blank first then second else first

-- The org and the repository, of which at most one is not empty.
unfoldable pub resolve_target : Text → Text → Text → Text → Text × Text
resolve_target raw_org raw_repo default_org default_repo =
    if not (is_blank (trim_space raw_repo))
    then ([], trim_space raw_repo)
    else if not (is_blank (trim_space raw_org))
    then (trim_space raw_org, [])
    else if not (is_blank (trim_space default_repo))
    then ([], trim_space default_repo)
    else (trim_space default_org, [])

abbrev pub is_owner_and_name : Option (Text × Text) → Bool
is_owner_and_name none = false
is_owner_and_name (some (owner, name)) = not (
    is_blank (trim_space owner)
    || is_blank (trim_space name)
    || not (trim_space owner == owner)
    || not (trim_space name == name)
    || contains_text name (text "/"))

unfoldable pub validate_repo_full_name : Text → Text → Checked (Unit {0})
validate_repo_full_name name repo =
    if is_owner_and_name (cut b'/' repo)
    then valid tt
    else invalid (name ++ text " must be in owner/name form")

unfoldable pub validate_runner_target : Text → Text → Text → Checked (Unit {0})
validate_runner_target name org repo =
    if not (is_blank org) && not (is_blank repo)
    then invalid (name ++ text " must set either org or repo, not both")
    else if is_blank org && is_blank repo
    then invalid (name ++ text " org or repo is required")
    else if not (is_blank repo)
    then validate_repo_full_name (name ++ text ".repo") repo
    else valid tt

-- A repository in the form owner/name: both parts are there, without space around them, and there
-- is no other slash in the name.
pub record IsRepoName (repo : Text) : Type 0 where
  pub owner : Text
  pub name : Text
  pub parts : repo ≡ owner ++ b'/' ∷ name
  pub owner_trimmed : trim_space owner ≡ owner
  pub owner_nonempty : is_blank owner ≡ false
  pub name_trimmed : trim_space name ≡ name
  pub name_nonempty : is_blank name ≡ false
  pub one_slash : contains_text name (text "/") ≡ false

-- Exactly one of the two is set, and a repository is in the form owner/name.
pub data IsTarget : Text → Text → Type 0 where
  org_target : {org : Text} → is_blank org ≡ false → IsTarget org []
  repo_target : {repo : Text} → IsRepoName repo → IsTarget [] repo

is_blank_of_same : (s t : Text) → s ≡ t → is_blank s ≡ false → is_blank t ≡ false
is_blank_of_same s t e h = rw (sym e) h

owner_and_name-IsRepoName :
    (repo owner name : Text)
    → repo ≡ owner ++ b'/' ∷ name
    → is_owner_and_name (some (owner, name)) ≡ true
    → IsRepoName repo
owner_and_name-IsRepoName repo owner name e h =
    let o : trim_space owner ≡ owner =
      (text_eq.beq_iff (trim_space owner) owner).0 (ground (arith, h)) in
    let n : trim_space name ≡ name =
      (text_eq.beq_iff (trim_space name) name).0 (ground (arith, h)) in
    record {
      owner = owner;
      name = name;
      parts = e;
      owner_trimmed = o;
      owner_nonempty = is_blank_of_same (trim_space owner) owner o (ground (arith, h));
      name_trimmed = n;
      name_nonempty = is_blank_of_same (trim_space name) name n (ground (arith, h));
      one_slash = ground (arith, h);
    }

pub validate_repo_full_name-IsRepoName :
    (label repo : Text) → validate_repo_full_name label repo ≡ valid tt → IsRepoName repo
unfolding validate_repo_full_name
validate_repo_full_name-IsRepoName label repo h = elim (Option-cases (cut b'/' repo)) [
  | inl e ↦ ground (arith, e, h)
  | inr ((owner, name), e) ↦
      owner_and_name-IsRepoName repo owner name (cut_lem b'/' repo owner name e)
        (ground (arith, e, h))
]

pub validate_runner_target-IsTarget :
    (label org repo : Text) → validate_runner_target label org repo ≡ valid tt → IsTarget org repo
unfolding validate_runner_target
validate_runner_target-IsTarget label [] [] h = ground (arith, h)
validate_runner_target-IsTarget label [] (c ∷ repo) h =
    repo_target (validate_repo_full_name-IsRepoName (label ++ text ".repo") (c ∷ repo) h)
validate_runner_target-IsTarget label (c ∷ org) [] h = org_target refl
validate_runner_target-IsTarget label (c ∷ org) (d ∷ repo) h = ground (arith, h)
