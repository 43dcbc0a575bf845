-- ===== src/Github/Pages.antt =====
-- provider/github: the loops over the pages of a listing of the REST API. They stop at the page
-- after which there is none, or at a limit; the fuel is the number of pages that may be asked for.
pub mod Limits
use gh_runner_scaler.Prelude.{
  ℕ, zero, suc, Bool, true, false, Option, none, some, List, [], ◌∷◌, ◌++◌, nat_beq, if◌then◌else◌,
  length, nat_eq, text_eq,
}

-- A reply: the items of a page, and the number of the next one, 0 after the last.
pub record Page {ℓ} (T : Type ℓ) : Type ℓ where
  pub items : List T
  pub next_page : ℕ

-- What a loop ends with; `unfinished` is a loop that runs out of fuel.
pub data Fetched {ℓ} (T : Type ℓ) : Type ℓ where
  fetched : List T → Fetched T
  refused : Fetched T
  unfinished : Fetched T

abbrev pub after_items {ℓ} : {T : Type ℓ} → List T → Fetched T → Fetched T
after_items items (fetched later) = fetched (items ++ later)
after_items items refused = refused
after_items items unfinished = unfinished

module _ {T : Type 0} where
  -- The inner loop of listRepositoryWorkflowRuns, and whether the limit was met in it.
  unfoldable pub append_until : ℕ → List T → List T → List T × Bool
  append_until limit runs [] = (runs, false)
  append_until limit runs (run ∷ rest) =
      let longer = runs ++ run ∷ [] in
      let further = append_until limit longer rest in
      if nat_beq (length longer) limit then (longer, true) else further

module _ {T : Type 0} (page : ℕ → Option (Page T)) where
  -- fetchRunners, listOrgRepos, listWorkflowJobsForRun; `number` is opts.Page.
  unfoldable pub all_pages : ℕ → ℕ → Fetched T
  all_pages zero number = unfinished
  all_pages (suc fuel) number = elim (page number) [
    | none ↦ refused
    | some p ↦
        let rest = all_pages fuel p.next_page in
        if nat_beq p.next_page 0 then fetched p.items else after_items p.items rest
  ]

  -- listRepositoryWorkflowRuns
  unfoldable pub limited_pages : ℕ → ℕ → ℕ → List T → Fetched T
  unfolding append_until
  limited_pages limit zero number runs = unfinished
  limited_pages limit (suc fuel) number runs = elim (page number) [
    | none ↦ refused
    | some p ↦
        let (longer, full) = append_until limit runs p.items in
        let rest = limited_pages limit fuel p.next_page longer in
        if full then fetched longer else if nat_beq p.next_page 0 then fetched longer else rest
  ]
