-- ===== src/Engine/Settings.antt =====
-- internal/engine/reconciler.go: the tuning parameters of a reconciler, and the names it gives.
use gh_runner_scaler.Prelude.{ℕ, ◌≡◌, refl, Bool, List, [], ◌∷◌, ◌++◌, arith, nat_eq, Text, text_eq}
use gh_runner_scaler.Prelude.Strings.{text}
use gh_runner_scaler.Prelude.Decimal.{decimal, decimal_injective}

pub record ReconcilerConfig : Type 0 where
  pub prefix : Text
  pub baseline : Bool
  pub baseline_name : Text
  pub max_auto_runners : ℕ
  pub idle_timeout : ℕ
  pub labels : Text
  pub runner_work_dir : Text
  pub cache_enabled : Bool
  pub ready_check : List Text
  pub ready_timeout : ℕ
  -- whether the reconciler has a cache manager, and an observability bootstrapper
  pub has_cache : Bool
  pub has_observability : Bool

-- fmt.Sprintf("%s-%d", prefix, i)
unfoldable pub numbered : Text → ℕ → Text
unfolding decimal
numbered prefix i = prefix ++ b'-' ∷ decimal i

append_cancel : (p s t : Text) → p ++ s ≡ p ++ t → s ≡ t
append_cancel [] s t e = e
append_cancel (c ∷ p) s t e = append_cancel p s t (ground arith)

pub numbered_injective : (prefix : Text) (a b : ℕ) → numbered prefix a ≡ numbered prefix b → a ≡ b
unfolding numbered
numbered_injective prefix a b e =
    decimal_injective a b
      (ground (arith, append_cancel prefix (b'-' ∷ decimal a) (b'-' ∷ decimal b) e))

numbered_test : numbered (text "gh-runner-auto") 12 ≡ text "gh-runner-auto-12"
unfolding numbered
numbered_test = refl
