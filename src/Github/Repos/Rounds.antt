-- ===== src/Github/Repos/Rounds.antt =====
-- provider/github/ci.go: rounds of batches reach every repository.
use native.Mathlib.Nat.{mod-lt, mod-mod, mod-eq_of_lt, mod-eq-sub-mod, add-mod_right}
use gh_runner_scaler.Prelude.{
  ℕ, zero, suc, ◌+◌, ◌-◌, ◌%◌, ◌≤◌, ◌<◌, ◌≡◌, refl, ap, subst, ◌∙◌, ◌⊎◌, inl, inr, Bool, true,
  false, ◌||◌, Option, none, some, List, [], ◌∷◌, arith, ltb, leb, nat_beq, if◌then◌else◌, ltb→lt,
  Bool-cases, length, get_elem?, ◌==◌, nat_eq, Text, text_eq, contains,
}
use gh_runner_scaler.Github.Repos.{pick, workflow_repo_batch}

-- The cursor after some rounds, and the batch of one.
abbrev pub cursor_after : ℕ → List Text → ℕ → ℕ → ℕ
cursor_after size repos cursor zero = cursor
cursor_after size repos cursor (suc rounds) =
    cursor_after size repos (workflow_repo_batch size cursor repos).1 rounds

abbrev pub batch_of : ℕ → List Text → ℕ → ℕ → Option (List Text)
batch_of size repos cursor rounds =
    (workflow_repo_batch size (cursor_after size repos cursor rounds) repos).0

abbrev pub holds : Text → Option (List Text) → Bool
holds repo none = false
holds repo (some batch) = contains repo batch

-- How far an index is ahead of the cursor, round the end of the list.
abbrev ahead : ℕ → ℕ → ℕ → ℕ
ahead n c j = if leb c j then j - c else j + n - c

get_elem-in_range :
    (repos : List Text) (i : ℕ) → i < length repos → (r : Text) × (get_elem? repos i ≡ some r)
get_elem-in_range [] i h = absurd (omega (arith, h))
get_elem-in_range (x ∷ xs) zero h = (x, refl)
get_elem-in_range (x ∷ xs) (suc i) h = get_elem-in_range xs i (omega (arith, h))

-- The repository that an index stands for, round the end of the list.
abbrev IsAt : List Text → ℕ → Text → Type 0
IsAt repos m r = get_elem? repos (m % length repos) ≡ some r

has_place :
    (repos : List Text) (start i left : ℕ) (repo : Text) (batch : List Text)
    → IsAt repos (start + i) repo
    → ((k : ℕ) (r : Text) → k < left → IsAt repos (start + (i + 1 + k)) r → contains r batch ≡ true)
    → (k : ℕ) (r : Text) → k < suc left
    → IsAt repos (start + (i + k)) r
    → contains r (repo ∷ batch) ≡ true
has_place repos start i left repo batch here rest zero r l e =
    let same : start + (i + 0) ≡ start + i = omega arith in
    let found = subst (λ m. IsAt repos m r) same e in
    ground (arith, here, found, text_eq.beq_iff repo r)
has_place repos start i left repo batch here rest (suc k) r l e =
    let same : start + (i + suc k) ≡ start + (i + 1 + k) = omega arith in
    let found = rest k r (omega (arith, l)) (subst (λ m. IsAt repos m r) same e) in
    ground (arith, found)

-- No index of a batch is out of range, and each repository in it has its place.
pick_lem :
    (repos : List Text) (start i left : ℕ)
    → 0 < length repos
    → (batch : List Text) × (pick repos start i left ≡ some batch)
      × (length batch ≡ left)
      × ((k : ℕ) (r : Text)
          → k < left
          → get_elem? repos ((start + (i + k)) % length repos) ≡ some r
          → contains r batch ≡ true)
pick_lem repos start i zero h = ([], refl, refl, λ k r l e. absurd (omega (arith, l)))
pick_lem repos start i (suc left) h =
    let (repo, here) =
      get_elem-in_range repos ((start + i) % length repos) (mod-lt (start + i) h) in
    let (batch, found, size, rest) = pick_lem repos start (i + 1) left h in
    (
      repo ∷ batch,
      ground (arith, here, found),
      omega (arith, size),
      has_place repos start i left repo batch here rest,
    )

mod_cases : (a n : ℕ) → a < n + n → ((a < n) × (a % n ≡ a)) ⊎ ((n ≤ a) × (a % n ≡ a - n))
mod_cases a n h = elim (Bool-cases (ltb a n)) [
  | inl small ↦ let l = ltb→lt a n small in inl (l, mod-eq_of_lt l)
  | inr large ↦
      let l : n ≤ a = ground (arith, large) in
      inr (l, mod-eq-sub-mod l ∙ mod-eq_of_lt (omega (arith, h, l)))
]

-- The index that is so far ahead.
ahead-mod : (n s j : ℕ) → s < n → j < n → (s + ahead n s j) % n ≡ j
ahead-mod n s j hs hj = elim (Bool-cases (leb s j)) [
  | inl before ↦
      let same : s + ahead n s j ≡ j = ground (arith, before) in
      ap (λ m. m % n) same ∙ mod-eq_of_lt hj
  | inr after ↦
      let same : s + ahead n s j ≡ j + n = ground (arith, after, hs) in
      ap (λ m. m % n) same ∙ add-mod_right j n ∙ mod-eq_of_lt hj
]

ahead-step :
    (n size s j : ℕ)
    → s < n
    → j < n
    → size < n
    → size ≤ ahead n s j
    → ahead n ((s + size) % n) j ≡ ahead n s j - size
ahead-step n size s j hs hj small h = elim (mod_cases (s + size) n (omega (arith, hs, small))) [
  | inl (l, e) ↦ rw e (ground (arith, l, h, hs, hj))
  | inr (l, e) ↦ rw e (ground (arith, l, h, hs, hj, small))
]

not_below : (a b : ℕ) → ltb a b ≡ false → b ≤ a
not_below a b h = ground (arith, h)

module _ (size : ℕ) (repos : List Text) (some_size : 0 < size) (fewer : size < length repos) where
  batch_found :
      (cursor : ℕ)
      → (workflow_repo_batch size cursor repos).0 ≡ pick repos (cursor % length repos) 0 size
  unfolding workflow_repo_batch
  batch_found cursor = ground (arith, some_size, fewer)

  cursor_found :
      (cursor : ℕ)
      → (workflow_repo_batch size cursor repos).1 ≡ (cursor % length repos + size) % length repos
  unfolding workflow_repo_batch
  cursor_found cursor = ground (arith, some_size, fewer)

  holds_at :
      (cursor j : ℕ) (r : Text)
      → j < length repos
      → get_elem? repos j ≡ some r
      → ahead (length repos) (cursor % length repos) j < size
      → holds r (workflow_repo_batch size cursor repos).0 ≡ true
  holds_at cursor j r hj e near =
      let n = length repos in
      let start = cursor % n in
      let any : 0 < n = omega (arith, hj) in
      let (batch, found, size_of, place) = pick_lem repos start 0 size any in
      let index : (start + (0 + ahead n start j)) % n ≡ j =
        ap (λ d. (start + d) % n) (omega arith) ∙ ahead-mod n start j (mod-lt cursor any) hj in
      rw (batch_found cursor)
        (rw found (place (ahead n start j) r near (ap (get_elem? repos) index ∙ e)))

  next_nearer :
      (cursor j : ℕ)
      → j < length repos
      → size ≤ ahead (length repos) (cursor % length repos) j
      → ahead (length repos) ((workflow_repo_batch size cursor repos).1 % length repos) j
        ≡ ahead (length repos) (cursor % length repos) j - size
  next_nearer cursor j hj far =
      let n = length repos in
      let any : 0 < n = omega (arith, hj) in
      ap (λ c. ahead n c j) (ap (λ c. c % n) (cursor_found cursor) ∙ mod-mod (cursor % n + size) n)
      ∙ ahead-step n size (cursor % n) j (mod-lt cursor any) hj fewer far

  -- By recursion on a bound of how far the index is ahead.
  reaches :
      (bound cursor j : ℕ) (r : Text)
      → j < length repos
      → get_elem? repos j ≡ some r
      → ahead (length repos) (cursor % length repos) j < bound
      → (rounds : ℕ) × (rounds < bound) × (holds r (batch_of size repos cursor rounds) ≡ true)
  reaches zero cursor j r hj e h = absurd (omega (arith, h))
  reaches (suc bound) cursor j r hj e h =
      elim (Bool-cases (ltb (ahead (length repos) (cursor % length repos) j) size)) [
        | inl near ↦ (0, omega arith, holds_at cursor j r hj e (ltb→lt _ _ near))
        | inr far ↦
            let nearer = next_nearer cursor j hj (not_below _ _ far) in
            let (rounds, few, found) =
              reaches bound (workflow_repo_batch size cursor repos).1 j r hj e
                (omega (arith, nearer, h, some_size, not_below _ _ far)) in
            (suc rounds, omega (arith, few), found)
      ]

index_of :
    (r : Text) (repos : List Text)
    → contains r repos ≡ true
    → (j : ℕ) × (j < length repos) × (get_elem? repos j ≡ some r)
index_of r [] h = cc
index_of r (x ∷ repos) h = elim (Bool-cases (x == r)) [
  | inl hit ↦ (0, omega arith, ap some ((text_eq.beq_iff x r).0 hit))
  | inr miss ↦
      let (j, l, e) = index_of r repos (ground (arith, h, miss)) in (suc j, omega (arith, l), e)
]

ahead_lt : (n s j : ℕ) → s < n → j < n → ahead n s j < n
ahead_lt n s j hs hj = ground (arith, hs, hj)

whole_batch :
    (size cursor : ℕ) (repos : List Text)
    → (nat_beq size 0 || leb (length repos) size) ≡ true
    → (workflow_repo_batch size cursor repos).0 ≡ some repos
unfolding workflow_repo_batch
whole_batch size cursor repos h = rw h refl

-- While the list of repositories stays the same, each of them is in one of the next batches, at
-- most as many as there are repositories, whatever the size of a batch and the cursor.
pub workflow_repo_batch_reaches :
    (size cursor : ℕ) (repos : List Text) (r : Text)
    → contains r repos ≡ true
    → (rounds : ℕ) × (rounds < length repos) × (holds r (batch_of size repos cursor rounds) ≡ true)
workflow_repo_batch_reaches size cursor repos r h =
    let (j, hj, e) = index_of r repos h in
    elim (Bool-cases (nat_beq size 0 || leb (length repos) size)) [
      | inl all_of ↦ (0, omega (arith, hj), rw (whole_batch size cursor repos all_of) h)
      | inr part ↦
          reaches size repos (ground (arith, part)) (ground (arith, part)) (length repos) cursor j r
            hj e
            (ahead_lt (length repos) (cursor % length repos) j (mod-lt cursor (omega (arith, hj)))
              hj)
    ]
