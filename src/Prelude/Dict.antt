-- ===== src/Prelude/Dict.antt =====
-- A Go map as an association list. The order of the entries stands for Go's unspecified order of
-- iteration.
use mathlib.Core.Path.{◌≡◌, refl, subst}
use mathlib.Core.Logic.{◌≢◌, inl, inr}
use mathlib.Core.Bool.{false, ◌||◌}
use mathlib.Core.Option.{Option, none, some}
use mathlib.Core.List.{List, [], ◌∷◌}
use native.Mathlib.Omega.{arith}
use gh_runner_scaler.Prelude.Tests.{if◌then◌else◌, Bool-cases}
use gh_runner_scaler.Prelude.Lists.{All}
use gh_runner_scaler.Prelude.Equality.{Eq, ◌==◌}
use gh_runner_scaler.Prelude.Members.{contains, IsNodup}

abbrev pub Dict : Type 0 → Type 0 → Type 0
Dict K V = List (K × V)

abbrev pub keys : {K V : Type 0} → Dict K V → List K
keys [] = []
keys ((k, v) ∷ d) = k ∷ keys d

pair_path : {A B : Type 0} {a c : A} {b d : B} → a ≡ c → b ≡ d → ◌≡◌ {A = A × B} (a, b) (c, d)
pair_path p q = λ i. (p i, q i)

module _ {K V : Type 0} ⦃e : Eq K⦄ where
  abbrev pub get : K → Dict K V → Option V
  get k [] = none
  get k ((j, v) ∷ d) = if j == k then some v else get k d

  -- d[k] = v
  abbrev pub put : K → V → Dict K V → Dict K V
  put k v [] = (k, v) ∷ []
  put k v ((j, w) ∷ d) = if j == k then (k, v) ∷ d else (j, w) ∷ put k v d

  -- delete(d, k)
  abbrev pub delete : K → Dict K V → Dict K V
  delete k [] = []
  delete k ((j, v) ∷ d) = if j == k then delete k d else (j, v) ∷ delete k d

  -- No key occurs twice.
  abbrev pub HasUniqueKeys : Dict K V → Type 0
  HasUniqueKeys d = IsNodup (keys d)

  pub get-put :
      (k j : K) (v : V) (d : Dict K V) → get j (put k v d) ≡ (if k == j then some v else get j d)
  get-put k j v [] = refl
  get-put k j v ((i, w) ∷ d) =
      ground (arith, get-put k j v d, e.beq_iff i k, e.beq_iff k j, e.beq_iff i j)

  pub get-delete :
      (k j : K) (d : Dict K V) → get j (delete k d) ≡ (if k == j then none else get j d)
  get-delete k j [] = ground arith
  get-delete k j ((i, w) ∷ d) =
      ground (arith, get-delete k j d, e.beq_iff i k, e.beq_iff k j, e.beq_iff i j)

  pub contains-keys-put :
      (k j : K) (v : V) (d : Dict K V)
      → contains j (keys (put k v d)) ≡ (k == j || contains j (keys d))
  contains-keys-put k j v [] = refl
  contains-keys-put k j v ((i, w) ∷ d) =
      ground (arith, contains-keys-put k j v d, e.beq_iff i k, e.beq_iff k j, e.beq_iff i j)

  pub contains-keys-delete :
      (k j : K) (d : Dict K V)
      → contains j (keys (delete k d)) ≡ (if k == j then false else contains j (keys d))
  contains-keys-delete k j [] = ground arith
  contains-keys-delete k j ((i, w) ∷ d) =
      ground (arith, contains-keys-delete k j d, e.beq_iff i k, e.beq_iff k j, e.beq_iff i j)

  pub get-none : (k : K) (d : Dict K V) → contains k (keys d) ≡ false → get k d ≡ none
  get-none k [] h = refl
  get-none k ((i, w) ∷ d) h = ground (arith, get-none k d)

  pub put-HasUniqueKeys :
      (k : K) (v : V) (d : Dict K V) → HasUniqueKeys d → HasUniqueKeys (put k v d)
  put-HasUniqueKeys k v [] h = (refl, tt)
  put-HasUniqueKeys k v ((i, w) ∷ d) h =
      ground (
        arith,
        put-HasUniqueKeys k v d h.1,
        contains-keys-put k i v d,
        e.beq_iff i k,
        e.beq_iff k i,
      )

  pub delete-HasUniqueKeys : (k : K) (d : Dict K V) → HasUniqueKeys d → HasUniqueKeys (delete k d)
  delete-HasUniqueKeys k [] h = tt
  delete-HasUniqueKeys k ((i, w) ∷ d) h =
      ground (arith, delete-HasUniqueKeys k d h.1, contains-keys-delete k i d)

  pub All-put :
      (P : K × V → Type 0) (k : K) (v : V) (d : Dict K V) → P (k, v) → All P d → All P (put k v d)
  All-put P k v [] p h = (p, tt)
  All-put P k v ((i, w) ∷ d) p h = ground (arith, All-put P k v d p h.1)

  pub All-delete : (P : K × V → Type 0) (k : K) (d : Dict K V) → All P d → All P (delete k d)
  All-delete P k [] h = tt
  All-delete P k ((i, w) ∷ d) h = ground (arith, All-delete P k d h.1)

  pub All-get :
      (P : K × V → Type 0) (k : K) (v : V) (d : Dict K V) → All P d → get k d ≡ some v → P (k, v)
  All-get P k v [] h q = cc
  All-get P k v ((i, w) ∷ d) h q = elim (Bool-cases (i == k)) [
    | inl hit ↦ subst P (pair_path ((e.beq_iff i k).0 hit) (ground arith)) h.0
    | inr miss ↦ All-get P k v d h.1 (rw miss at q)
  ]

  pub put_nonempty : (k : K) (v : V) (d : Dict K V) → put k v d ≢ []
  put_nonempty k v [] e = cc
  put_nonempty k v ((i, w) ∷ d) e = ground arith
