-- ===== src/Github/Repos.antt =====
-- provider/github/ci.go: the names of repositories, their cache, and the batch of them that one
-- round looks at.
pub mod Rounds
pub mod Shared
use gh_runner_scaler.Prelude.{
  ℕ, zero, suc, ◌+◌, ◌%◌, Bool, true, false, ◌&&◌, ◌||◌, Option, none, some, List, [], ◌∷◌, ◌++◌,
  ltb, leb, nat_beq, if◌then◌else◌, length, get_elem?, ◌==◌, nat_eq, Text, text_eq,
}
use gh_runner_scaler.Prelude.Strings.{text, to_lower, trim_space, contains_text, cut}

-- strings.Cut, and then one slash only and both parts there
abbrev pub owner_and_name : Option (Text × Text) → Option (Text × Text)
owner_and_name none = none
owner_and_name (some ([], name)) = none
owner_and_name (some (c ∷ owner, [])) = none
owner_and_name (some (c ∷ owner, d ∷ name)) =
    if contains_text (d ∷ name) (text "/") then none else some (c ∷ owner, d ∷ name)

unfoldable pub split_repo_full_name : Text → Option (Text × Text)
split_repo_full_name repo = owner_and_name (cut b'/' (trim_space repo))

-- The target of the provider: an empty repository stands for the whole organisation.
pub record Target : Type 0 where
  pub org : Text
  pub repo : Text

abbrev pub is_org : Text → Bool
is_org [] = true
is_org (c ∷ s) = false

unfoldable pub target_name : Target → Text
target_name t = if is_org t.repo then t.org else t.org ++ b'/' ∷ t.repo

unfoldable pub metric_repo_name : Target → Text → Text
unfolding target_name
metric_repo_name t repo = if is_org t.repo then repo else target_name t

abbrev pub name_in : Text → Text → Option (Text × Text) → Text
name_in org repo none = repo
name_in org repo (some (owner, name)) = if to_lower owner == to_lower org then name else repo

unfoldable pub api_repo_name : Target → Text → Text
api_repo_name t repo = name_in t.org repo (split_repo_full_name repo)

unfoldable pub registration_url : Target → Text
registration_url t =
    if is_org t.repo
    then text "https://github.com/" ++ t.org
    else text "https://github.com/" ++ (t.org ++ b'/' ∷ t.repo)

-- repos[(start+i)%len(repos)] for i from `i` on; `none` is an index out of range.
abbrev pub pick : List Text → ℕ → ℕ → ℕ → Option (List Text)
pick repos start i zero = some []
pick repos start i (suc left) = elim (get_elem? repos ((start + i) % length repos)) [
  | none ↦ none
  | some repo ↦ elim (pick repos start (i + 1) left) [
    | none ↦ none
    | some batch ↦ some (repo ∷ batch)
  ]
]

-- The batch, and the cursor afterwards.
unfoldable pub workflow_repo_batch : ℕ → ℕ → List Text → Option (List Text) × ℕ
workflow_repo_batch size cursor repos =
    let start = cursor % length repos in
    if nat_beq size 0 || leb (length repos) size
    then (some repos, cursor)
    else (pick repos start 0 size, (start + size) % length repos)

-- The cache of the repositories of an organisation, and the cursor.
pub record RepoCache : Type 0 where
  pub repos : List Text
  pub expires_at : ℕ
  pub cursor : ℕ

abbrev pub wrapped_cursor : List Text → ℕ → ℕ
wrapped_cursor [] cursor = 0
wrapped_cursor (r ∷ repos) cursor = cursor % length (r ∷ repos)

-- listOrgRepos: the cache, or what the pages of the API make up, `none` being an error.
unfoldable pub list_org_repos :
    ℕ → ℕ → ℕ → Option (List Text) → RepoCache → Option (List Text) × RepoCache
list_org_repos now later ttl reply cache =
    if ltb 0 (length cache.repos) && ltb now cache.expires_at
    then (some cache.repos, cache)
    else elim reply [
      | none ↦ (none, cache)
      | some repos ↦ (
        some repos,
        record {
          repos = repos;
          expires_at = later + ttl;
          cursor = wrapped_cursor repos cache.cursor;
        },
      )
    ]
