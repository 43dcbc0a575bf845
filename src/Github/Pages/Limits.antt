-- ===== src/Github/Pages/Limits.antt =====
-- provider/github: the loops over the pages of a listing end, and a limit keeps its first items.
use gh_runner_scaler.Prelude.{
  ℕ, zero, suc, ◌+◌, ◌≤◌, ◌<◌, ◌≡◌, refl, sym, ap, subst, ◌∙◌, ◌≢◌, ◌⊎◌, inl, inr, true, false,
  Option, some, List, [], ◌∷◌, ◌++◌, append_assoc, append-nil, arith, nat_beq, nat_beq_iff,
  Bool-cases, Option-cases, length, take, length-append, nat_eq, text_eq,
}
use gh_runner_scaler.Github.Pages.{
  Page, Fetched, fetched, refused, unfinished, after_items, all_pages, append_until, limited_pages,
}

Fetched-cases :
    {T : Type 0} (f : Fetched T)
    → (f ≡ refused) ⊎ (((items : List T) × (f ≡ fetched items)) ⊎ (f ≡ unfinished))
Fetched-cases (fetched items) = inr (inl (items, refl))
Fetched-cases refused = inl refl
Fetched-cases unfinished = inr (inr refl)

after_items-fetched :
    {T : Type 0} (items : List T) (f : Fetched T) (whole : List T)
    → after_items items f ≡ fetched whole
    → (later : List T) × (f ≡ fetched later) × (items ++ later ≡ whole)
after_items-fetched items (fetched later) whole h = (later, refl, ground (arith, h))
after_items-fetched items refused whole h = ground (arith, h)
after_items-fetched items unfinished whole h = ground (arith, h)

module _ {T : Type 0} (page : ℕ → Option (Page T)) where
  -- What is documented of the API: a next page has a greater number, up to that of the last page.
  unfoldable pub HasLastPage : ℕ → Type 0
  HasLastPage last =
      (number : ℕ) (p : Page T)
      → page number ≡ some p
      → (p.next_page ≡ 0) ⊎ ((number < p.next_page) × (p.next_page ≤ last))

  after_items-finished :
      (items : List T) (rest : Fetched T) → rest ≢ unfinished → after_items items rest ≢ unfinished
  after_items-finished items (fetched later) h = λ e. cc
  after_items-finished items refused h = λ e. cc
  after_items-finished items unfinished h = λ e. h refl

  -- The loop ends when the fuel is more than the pages that are left.
  all_pages-finished :
      (last fuel number : ℕ)
      → HasLastPage last
      → number ≤ last
      → last < number + fuel
      → all_pages page fuel number ≢ unfinished
  unfolding all_pages HasLastPage
  all_pages-finished last zero number h bound enough = absurd (omega (arith, bound, enough))
  all_pages-finished last (suc fuel) number h bound enough = elim (Option-cases (page number)) [
    | inl e ↦ rw (e, all_pages) (λ q. cc)
    | inr (p, e) ↦ elim (Bool-cases (nat_beq p.next_page 0)) [
      | inl done ↦ rw (e, done, all_pages) (λ q. cc)
      | inr more ↦ elim (h number p e) [
        | inl none_left ↦ ground (arith, more, none_left)
        | inr (greater, within) ↦
            let rest =
              all_pages-finished last fuel p.next_page h within (omega (arith, greater, enough)) in
            rw (e, more, all_pages)
              (after_items-finished p.items (all_pages page fuel p.next_page) rest)
      ]
    ]
  ]

  take-all : (n : ℕ) (xs : List T) → length xs ≤ n → take n xs ≡ xs
  take-all zero [] h = refl
  take-all zero (x ∷ xs) h = absurd (omega (arith, h))
  take-all (suc n) [] h = refl
  take-all (suc n) (x ∷ xs) h = ap (λ ys. x ∷ ys) (take-all n xs (omega (arith, h)))

  take-exact : (n : ℕ) (xs ys : List T) → length xs ≡ n → take n (xs ++ ys) ≡ xs
  take-exact zero [] ys h = refl
  take-exact zero (x ∷ xs) ys h = absurd (omega (arith, h))
  take-exact (suc n) [] ys h = absurd (omega (arith, h))
  take-exact (suc n) (x ∷ xs) ys h = ap (λ zs. x ∷ zs) (take-exact n xs ys (omega (arith, h)))

  -- Below the limit, the inner loop appends all items or meets the limit with the first of them.
  append_until_lem :
      (limit : ℕ) (runs items : List T)
      → length runs < limit
      → ((append_until limit runs items ≡ (runs ++ items, false))
          × (length (runs ++ items) < limit))
        ⊎ ((longer : List T) × (append_until limit runs items ≡ (longer, true))
            × ((later : List T) → take limit ((runs ++ items) ++ later) ≡ longer))
  unfolding append_until
  append_until_lem limit runs [] h =
      inl (ap (λ xs. (xs, false)) (sym (append-nil runs)), rw (append-nil runs) h)
  append_until_lem limit runs (run ∷ rest) h =
      let longer = runs ++ run ∷ [] in
      let one_more : length longer ≡ length runs + 1 = length-append runs (run ∷ []) in
      let same : longer ++ rest ≡ runs ++ run ∷ rest = append_assoc runs (run ∷ []) rest in
      elim (Bool-cases (nat_beq (length longer) limit)) [
        | inl met ↦ inr (
          longer,
          rw met refl,
          λ later.
              ap (take limit) (ap (λ xs. xs ++ later) (sym same) ∙ append_assoc longer rest later)
              ∙ take-exact limit longer (rest ++ later) ((nat_beq_iff (length longer) limit).0 met),
        )
        | inr below ↦ rw below (
            subst
              (λ all_of.
                ((append_until limit longer rest ≡ (all_of, false)) × (length all_of < limit))
                ⊎ ((found : List T) × (append_until limit longer rest ≡ (found, true))
                    × ((later : List T) → take limit (all_of ++ later) ≡ found)))
              same (append_until_lem limit longer rest (ground (arith, below, one_more, h))))
      ]

  -- What the loop over all pages does at one page.
  pages_step :
      (fuel number : ℕ) (rest : List T)
      → all_pages page (suc fuel) number ≡ fetched rest
      → (p : Page T) × (page number ≡ some p)
        × ((nat_beq p.next_page 0 ≡ true) × (p.items ≡ rest)
            ⊎ ((later : List T) × (nat_beq p.next_page 0 ≡ false)
                × (all_pages page fuel p.next_page ≡ fetched later)
                × (p.items ++ later ≡ rest)))
  unfolding all_pages
  pages_step fuel number rest h = elim (Option-cases (page number)) [
    | inl e ↦ ground (arith, e, h)
    | inr (p, e) ↦ elim (Bool-cases (nat_beq p.next_page 0)) [
      | inl done ↦ (p, e, inl (done, ground (arith, e, done, h)))
      | inr more ↦
          let (later, f, g) =
            after_items-fetched p.items (all_pages page fuel p.next_page) rest
              (ground (arith, e, more, h)) in
          (p, e, inr (later, more, f, g))
    ]
  ]

  -- The runs that the limited loop ends with are the first ones of the whole listing.
  limited_pages-take :
      (limit fuel number : ℕ) (runs rest : List T)
      → length runs < limit
      → all_pages page fuel number ≡ fetched rest
      → limited_pages page limit fuel number runs ≡ fetched (take limit (runs ++ rest))
  unfolding limited_pages all_pages
  limited_pages-take limit zero number runs rest below h = ground (arith, h)
  limited_pages-take limit (suc fuel) number runs rest below h =
      let (p, e, outcome) = pages_step fuel number rest h in
      elim (append_until_lem limit runs p.items below) [
        | inl (a, short) ↦ elim outcome [
          | inl (done, same) ↦
              rw (e, a, done, limited_pages)
                (ap fetched (
                  sym (take-all limit (runs ++ p.items) (omega (arith, short)))
                  ∙ ap (λ xs. take limit (runs ++ xs)) same))
          | inr (later, more, f, same) ↦
              rw (e, a, more, limited_pages)
                (limited_pages-take limit fuel p.next_page (runs ++ p.items) later short f
                  ∙ ap (λ xs. fetched (take limit xs))
                      (append_assoc runs p.items later ∙ ap (λ xs. runs ++ xs) same))
        ]
        | inr (longer, a, found) ↦ elim outcome [
          | inl (done, same) ↦
              rw (e, a, limited_pages)
                (ap fetched (
                  sym (found [])
                  ∙ ap (take limit) (append-nil (runs ++ p.items) ∙ ap (λ xs. runs ++ xs) same)))
          | inr (later, more, f, same) ↦
              rw (e, a, limited_pages)
                (ap fetched (
                  sym (found later)
                  ∙ ap (take limit) (append_assoc runs p.items later ∙ ap (λ xs. runs ++ xs) same)))
        ]
      ]

  -- With a last page and fuel for more pages than there are, the loop over all pages ends, with an
  -- error or with the whole listing, and in the second case the loop with a limit that is not 0
  -- ends with its first items, as many as the limit says.
  pub limited_pages_lem :
      (last fuel limit : ℕ)
      → HasLastPage last
      → last < fuel
      → 0 < limit
      → (all_pages page fuel 0 ≡ refused)
        ⊎ ((whole : List T) × (all_pages page fuel 0 ≡ fetched whole)
            × (limited_pages page limit fuel 0 [] ≡ fetched (take limit whole)))
  limited_pages_lem last fuel limit h enough some_limit =
      elim (Fetched-cases (all_pages page fuel 0)) [
        | inl e ↦ inl e
        | inr (inl (whole, e)) ↦
            inr (whole, e, limited_pages-take limit fuel 0 [] whole some_limit e)
        | inr (inr e) ↦
            absurd (all_pages-finished last fuel 0 h (omega arith) (omega (arith, enough)) e)
      ]
