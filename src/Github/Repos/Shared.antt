-- ===== src/Github/Repos/Shared.antt =====
-- provider/github/ci.go: the queue audit and the workflow metrics take their batches from the same
-- cursor.
use native.Mathlib.Nat.{mod-add-mod, add-mod-mod}
use gh_runner_scaler.Prelude.{
  ℕ, zero, suc, ◌+◌, ◌*◌, ◌%◌, ◌<◌, ◌≡◌, sym, ap, ◌∙◌, List, arith, length, nat_eq, Text, text_eq,
}
use gh_runner_scaler.Github.Repos.{pick, workflow_repo_batch}
use gh_runner_scaler.Github.Repos.Rounds.{cursor_after, batch_of}

reassociate : (a b c : ℕ) → a + b + c ≡ a + (b + c)
reassociate a b c = omega arith

one_more : (rounds size : ℕ) → size + rounds * size ≡ suc rounds * size
one_more rounds size = grind arith

turn :
    (cursor batches turns size : ℕ)
    → cursor + suc turns * batches * size ≡ cursor + turns * batches * size + batches * size
turn cursor batches turns size = grind arith

module _ (size : ℕ) (repos : List Text) (some_size : 0 < size) (fewer : size < length repos) where
  next_cursor :
      (cursor : ℕ)
      → (workflow_repo_batch size cursor repos).1 ≡ (cursor % length repos + size) % length repos
  unfolding workflow_repo_batch
  next_cursor cursor = ground (arith, some_size, fewer)

  batch_at :
      (cursor : ℕ)
      → (workflow_repo_batch size cursor repos).0 ≡ pick repos (cursor % length repos) 0 size
  unfolding workflow_repo_batch
  batch_at cursor = ground (arith, some_size, fewer)

  cursor_after-mod :
      (cursor rounds : ℕ)
      → cursor_after size repos cursor rounds % length repos
        ≡ (cursor + rounds * size) % length repos
  cursor_after-mod cursor zero = ap (λ c. c % length repos) (grind arith)
  cursor_after-mod cursor (suc rounds) =
      let n = length repos in
      cursor_after-mod (workflow_repo_batch size cursor repos).1 rounds
      ∙ ap (λ c. (c + rounds * size) % n) (next_cursor cursor)
      ∙ mod-add-mod (cursor % n + size) n (rounds * size)
      ∙ ap (λ c. c % n) (reassociate (cursor % n) size (rounds * size))
      ∙ mod-add-mod cursor n (size + rounds * size)
      ∙ ap (λ c. (cursor + c) % n) (one_more rounds size)

  -- Batches that make up whole rounds of the list bring the cursor back.
  whole_rounds-mod :
      (cursor batches turns : ℕ)
      → (batches * size) % length repos ≡ 0
      → (cursor + turns * batches * size) % length repos ≡ cursor % length repos
  whole_rounds-mod cursor batches zero whole = ap (λ c. c % length repos) (grind arith)
  whole_rounds-mod cursor batches (suc turns) whole =
      let n = length repos in
      ap (λ c. c % n) (turn cursor batches turns size)
      ∙ sym (add-mod-mod (cursor + turns * batches * size) (batches * size) n)
      ∙ ap (λ c. (cursor + turns * batches * size + c) % n) whole
      ∙ ap (λ c. c % n) (omega arith)
      ∙ whole_rounds-mod cursor batches turns whole

-- While the list of repositories stays the same and does not fit into one batch, a caller gets the
-- same batch every time if between two of its calls the batches taken make up whole rounds of the
-- list, so that the repositories outside its first batch are never in one of its batches.
pub shared_cursor_starves :
    (size cursor batches turns : ℕ) (repos : List Text)
    → 0 < size
    → size < length repos
    → (batches * size) % length repos ≡ 0
    → batch_of size repos cursor (turns * batches) ≡ batch_of size repos cursor 0
shared_cursor_starves size cursor batches turns repos some_size fewer whole =
    batch_at size repos some_size fewer (cursor_after size repos cursor (turns * batches))
    ∙ ap (λ c. pick repos c 0 size)
        (cursor_after-mod size repos some_size fewer cursor (turns * batches)
          ∙ whole_rounds-mod size repos some_size fewer cursor batches turns whole)
    ∙ sym (batch_at size repos some_size fewer cursor)
