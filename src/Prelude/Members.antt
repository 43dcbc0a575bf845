-- ===== src/Prelude/Members.antt =====
-- Membership by Go's `==`: what the code asks of a `map[K]struct{}` used as a set.
use Prim.Native.Nat.{◌≤◌, ◌<◌}
use mathlib.Core.Path.{◌≡◌, refl}
use mathlib.Core.Bool.{Bool, true, false, ◌||◌}
use mathlib.Core.List.{List, [], ◌∷◌, ◌++◌}
use native.Mathlib.Omega.{arith}
use gh_runner_scaler.Prelude.Tests.{if◌then◌else◌}
use gh_runner_scaler.Prelude.Equality.{Eq, ◌==◌, beq_refl}
use gh_runner_scaler.Prelude.Lists.{length}

module _ {ℓ} {A : Type ℓ} ⦃e : Eq A⦄ where
  abbrev pub contains : A → List A → Bool
  contains a [] = false
  contains a (x ∷ xs) = x == a || contains a xs

  -- Every element occurs once.
  abbrev pub IsNodup : List A → Type 0
  IsNodup [] = Unit {0}
  IsNodup (x ∷ xs) = (contains x xs ≡ false) × IsNodup xs

  abbrev pub remove : A → List A → List A
  remove a [] = []
  remove a (x ∷ xs) = if x == a then remove a xs else x ∷ remove a xs

  pub contains-append :
      (a : A) (xs ys : List A) → contains a (xs ++ ys) ≡ (contains a xs || contains a ys)
  contains-append a [] ys = refl
  contains-append a (x ∷ xs) ys = ground (arith, contains-append a xs ys)

  pub contains-remove :
      (a b : A) (xs : List A) → contains a (remove b xs) ≡ (if b == a then false else contains a xs)
  contains-remove a b [] = ground arith
  contains-remove a b (x ∷ xs) =
      ground (arith, contains-remove a b xs, e.beq_iff x b, e.beq_iff b a, e.beq_iff x a)

  pub length-remove-le : (a : A) (xs : List A) → length (remove a xs) ≤ length xs
  length-remove-le a [] = omega arith
  length-remove-le a (x ∷ xs) = ground (arith, length-remove-le a xs)

  pub length-remove-lt :
      (a : A) (xs : List A) → contains a xs ≡ true → length (remove a xs) < length xs
  length-remove-lt a [] h = ground arith
  length-remove-lt a (x ∷ xs) h = ground (arith, length-remove-lt a xs, length-remove-le a xs)

  pub remove-IsNodup : (a : A) (xs : List A) → IsNodup xs → IsNodup (remove a xs)
  remove-IsNodup a [] h = tt
  remove-IsNodup a (x ∷ xs) h = ground (arith, remove-IsNodup a xs h.1, contains-remove x a xs)

  pub append-IsNodup :
      (a : A) (xs : List A) → contains a xs ≡ false → IsNodup xs → IsNodup (xs ++ a ∷ [])
  append-IsNodup a [] c h = (refl, tt)
  append-IsNodup a (x ∷ xs) c h =
      ground (
        arith,
        append-IsNodup a xs,
        contains-append x xs (a ∷ []),
        e.beq_iff a x,
        e.beq_iff x a,
        h.1,
      )

  -- What one list holds without repetition and another holds at all is no longer.
  pub length-le_of_subset :
      (xs ys : List A)
      → IsNodup xs
      → ((a : A) → contains a xs ≡ true → contains a ys ≡ true)
      → length xs ≤ length ys
  length-le_of_subset [] ys n s = omega arith
  length-le_of_subset (x ∷ xs) ys n s =
      let shorter = length-remove-lt x ys (s x (ground (arith, beq_refl x))) in
      let rest =
        length-le_of_subset xs (remove x ys) n.1
          (λ a h. ground (arith, s a, contains-remove a x ys, e.beq_iff x a, n.0)) in
      omega (arith, shorter, rest)
