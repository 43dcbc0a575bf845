-- ===== src/Prelude/Results.antt =====
-- A value, or the message of an error: Go's `(T, error)`.
use mathlib.Core.Path.{◌≡◌, refl}
use mathlib.Core.Logic.{◌⊎◌, inl, inr}
use native.Mathlib.Omega.{arith}
use gh_runner_scaler.Prelude.Equality.{Text}

pub data Checked {ℓ} (T : Type ℓ) : Type ℓ where
  valid : T → Checked T
  invalid : Text → Checked T

-- v, err := …; if err != nil { return err }
abbrev pub and_then {ℓ κ} : {T : Type ℓ} {R : Type κ} → Checked T → (T → Checked R) → Checked R
and_then (valid value) next = next value
and_then (invalid message) next = invalid message

module _ {T : Type 0} where
  pub Checked-cases : (r : Checked T) → ((v : T) × (r ≡ valid v)) ⊎ ((m : Text) × (r ≡ invalid m))
  Checked-cases (valid v) = inl (v, refl)
  Checked-cases (invalid m) = inr (m, refl)

  -- A result that is a value comes from a value at each step.
  pub and_then_valid :
      {R : Type 0} (r : Checked T) (next : T → Checked R) (v : R)
      → and_then r next ≡ valid v
      → (t : T) × (r ≡ valid t) × (next t ≡ valid v)
  and_then_valid (valid t) next v h = (t, refl, h)
  and_then_valid (invalid m) next v h = ground (arith, h)
