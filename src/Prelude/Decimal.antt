-- ===== src/Prelude/Decimal.antt =====
-- Decimal numerals: the `%d` of fmt.Sprintf on numbers that are not negative, and its inverse.
use Prim.Native.Nat.{ℕ, zero, suc, ◌+◌, ◌-◌, ◌*◌, ◌/◌, ◌%◌, ◌<◌}
use mathlib.Core.Path.{◌≡◌, refl, ap, sym, ◌∙◌}
use mathlib.Core.Logic.{inl, inr}
use mathlib.Core.List.{[], ◌∷◌, ◌++◌}
use native.Mathlib.Omega.{arith}
use gh_runner_scaler.Prelude.Tests.{ltb, if◌then◌else◌, Bool-cases}
use gh_runner_scaler.Prelude.Equality.{Text}

digits : ℕ → ℕ → Text
digits zero n = []
digits (suc fuel) n =
    let rest = digits fuel (n / 10) in
    if ltb n 10 then (48 + n) ∷ [] else rest ++ (48 + n % 10) ∷ []

-- A number has no more digits than it has units, and one digit if it is 0.
unfoldable pub decimal : ℕ → Text
unfolding digits
decimal n = digits (suc n) n

-- The number that a numeral stands for, read after the digits that make up `acc`.
value : ℕ → Text → ℕ
value acc [] = acc
value acc (c ∷ s) = value (acc * 10 + (c - 48)) s

value-append : (acc : ℕ) (s : Text) (c : ℕ) → value acc (s ++ c ∷ []) ≡ value acc s * 10 + (c - 48)
unfolding value
value-append acc [] c = refl
value-append acc (d ∷ s) c = value-append (acc * 10 + (d - 48)) s c

value-digits : (fuel n : ℕ) → n < fuel → value 0 (digits fuel n) ≡ n
unfolding digits
value-digits zero n h = elim h [ ]
value-digits (suc fuel) n h = elim (Bool-cases (ltb n 10)) [
  | inl small ↦ rw small (unfold value in omega arith)
  | inr big ↦ rw big (
      value-append 0 (digits fuel (n / 10)) (48 + n % 10)
      ∙ ground (arith, value-digits fuel (n / 10), big))
]

-- Different numbers have different numerals.
pub decimal_injective : (a b : ℕ) → decimal a ≡ decimal b → a ≡ b
unfolding decimal
decimal_injective a b e =
    sym (value-digits (suc a) a (omega arith))
    ∙ ap (value 0) e
    ∙ value-digits (suc b) b (omega arith)
