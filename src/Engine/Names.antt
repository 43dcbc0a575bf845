-- ===== src/Engine/Names.antt =====
-- internal/engine/reconciler.go, nextName: the first free container name. `numbered i` stands for
-- fmt.Sprintf("%s-%d", prefix, i).
use gh_runner_scaler.Prelude.{
  subst, ◌∙◌, Bool-cases, ◌==◌, IsNodup, length-le_of_subset, ℕ, zero, suc, ◌+◌, ◌<◌, ◌≡◌, refl, ap,
  subst, ◌∙◌, ◌⊎◌, inl, inr, true, false, Option, none, some, List, [], ◌∷◌, arith, if◌then◌else◌,
  Bool-cases, length, ◌==◌, nat_eq, Text, text_eq, contains, IsNodup, length-le_of_subset,
}

module _ (numbered : ℕ → Text) where
  -- The loop, from number `i` on; `none` when the fuel has run out.
  next_from : ℕ → ℕ → List Text → Option Text
  next_from zero i used = none
  next_from (suc fuel) i used =
      let rest = next_from fuel (i + 1) used in
      if contains (numbered i) used then rest else some (numbered i)

  -- One round more than there are names is enough.
  unfoldable pub next_name : List Text → Option Text
  unfolding next_from
  next_name used = next_from (suc (length used)) 1 used

  from_to : ℕ → ℕ → List Text
  from_to i zero = []
  from_to i (suc n) = numbered i ∷ from_to (i + 1) n

  length-from_to : (i n : ℕ) → length (from_to i n) ≡ n
  unfolding from_to
  length-from_to i zero = refl
  length-from_to i (suc n) = ap suc (length-from_to (i + 1) n)

  -- The numbers below `k`, from `i` on, are all in use.
  abbrev pub Taken : ℕ → ℕ → List Text → Type 0
  Taken i k used = (j : ℕ) → j < k → contains (numbered (i + j)) used ≡ true

  taken_shift :
      (i k : ℕ) (used : List Text)
      → contains (numbered i) used ≡ true
      → Taken (i + 1) k used
      → Taken i (suc k) used
  taken_shift i k used here later zero h =
      subst (λ n. contains (numbered n) used ≡ true) (omega arith) here
  taken_shift i k used here later (suc j) h =
      subst (λ n. contains (numbered n) used ≡ true) (omega arith) (later j (omega arith))

  abbrev Stops : ℕ → ℕ → List Text → Type 0
  Stops fuel i used =
      (k : ℕ) × (next_from fuel i used ≡ some (numbered (i + k)))
      × (contains (numbered (i + k)) used ≡ false)
      × Taken i k used

  -- The loop stops at the first name from `i` on that is not in use, or all names are in use.
  next_from_cases : (fuel i : ℕ) (used : List Text) → Stops fuel i used ⊎ Taken i fuel used
  unfolding next_from
  next_from_cases zero i used = inr (λ j h. absurd (omega arith))
  next_from_cases (suc fuel) i used = elim (Bool-cases (contains (numbered i) used)) [
    | inr open_name ↦ inl (
      0,
      rw open_name (ap (λ n. some (numbered n)) (omega arith)),
      subst (λ n. contains (numbered n) used ≡ false) (omega arith) open_name,
      (λ j h. absurd (omega arith)),
    )
    | inl here ↦ elim (next_from_cases fuel (i + 1) used) [
      | inr all_taken ↦ inr (taken_shift i fuel used here all_taken)
      | inl (k, e, unused, before) ↦ inl (
        suc k,
        rw here (e ∙ ap (λ n. some (numbered n)) (omega arith)),
        subst (λ n. contains (numbered n) used ≡ false) (omega arith) unused,
        taken_shift i k used here before,
      )
    ]
  ]

  module _ (injective : (a b : ℕ) → numbered a ≡ numbered b → a ≡ b) where
    not-contains-from_to : (i k n : ℕ) → i < k → contains (numbered i) (from_to k n) ≡ false
    unfolding from_to
    not-contains-from_to i k zero h = refl
    not-contains-from_to i k (suc n) h = elim (Bool-cases (numbered k == numbered i)) [
      | inl e ↦
          absurd (omega (arith, injective k i ((text_eq.beq_iff (numbered k) (numbered i)).0 e)))
      | inr e ↦ rw e (not-contains-from_to i (k + 1) n (omega arith))
    ]

    from_to-IsNodup : (i n : ℕ) → IsNodup (from_to i n)
    unfolding from_to
    from_to-IsNodup i zero = tt
    from_to-IsNodup i (suc n) =
        (not-contains-from_to i (i + 1) n (omega arith), from_to-IsNodup (i + 1) n)

    contains_of_taken :
        (i n : ℕ) (used : List Text) (a : Text)
        → Taken i n used
        → contains a (from_to i n) ≡ true
        → contains a used ≡ true
    unfolding from_to
    contains_of_taken i zero used a t h = cc
    contains_of_taken i (suc n) used a t h = elim (Bool-cases (numbered i == a)) [
      | inl e ↦
          rw (← (text_eq.beq_iff (numbered i) a).0 e)
            (subst (λ m. contains (numbered m) used ≡ true) (omega arith) (t 0 (omega arith)))
      | inr e ↦
          contains_of_taken (i + 1) n used a
            (λ j l.
              subst (λ m. contains (numbered m) used ≡ true) (omega arith)
                (t (suc j) (omega arith)))
            (rw e at h)
    ]

    -- When different numbers give different names, the search for a container name ends: it finds
    -- the smallest number from 1 on whose name is not in use.
    pub next_name_lem :
        (used : List Text)
        → (k : ℕ) × (next_name used ≡ some (numbered (1 + k)))
          × (contains (numbered (1 + k)) used ≡ false)
          × Taken 1 k used
    unfolding next_name
    next_name_lem used = elim (next_from_cases (suc (length used)) 1 used) [
      | inl found ↦ found
      | inr all_taken ↦ absurd (
          omega (
            arith,
            length-from_to 1 (suc (length used)),
            length-le_of_subset (from_to 1 (suc (length used))) used
                (from_to-IsNodup 1 (suc (length used)))
                (λ a. contains_of_taken 1 (suc (length used)) used a all_taken),
          ))
    ]
