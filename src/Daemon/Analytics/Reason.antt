-- ===== src/Daemon/Analytics/Reason.antt =====
-- internal/daemon/analytics.go: the reason of an issue fits into a label.
use gh_runner_scaler.Prelude.{
  ℕ, ◌≤◌, ◌≡◌, refl, ◌≢◌, inl, inr, false, List, [], ◌∷◌, ◌++◌, arith, ltb, Bool-cases, length,
  take, length-append, length-take-le, ◌==◌, nat_eq, Text, text_eq,
}
use gh_runner_scaler.Prelude.Strings.{text, is_space, trim_space, trim_space_head}
use gh_runner_scaler.Daemon.Logs.{LogEntry}
use gh_runner_scaler.Daemon.Analytics.{join_fields, shortened, first_reason, derive_issue_reason}

-- A reason has at most 160 characters, and it is not empty.
abbrev pub IsReason : Text → Type 0
IsReason reason = (length reason ≤ 160) × (reason ≢ [])

appended_nil : (s : Text) → s ++ text "..." ≢ []
appended_nil [] = λ e. cc
appended_nil (c ∷ s) = λ e. cc

shortened-IsReason : (candidate : Text) → candidate ≢ [] → IsReason (shortened candidate)
shortened-IsReason candidate nonempty = elim (Bool-cases (ltb 160 (length candidate))) [
  | inr fits ↦ rw fits (ground (arith, fits), nonempty)
  | inl long ↦
      let cut_length = length-append (take 157 candidate) (text "...") in
      rw long (
        omega (arith, cut_length, length-take-le 157 candidate),
        λ e. appended_nil (take 157 candidate) e,
      )
]

-- The first character that is not a space is kept.
join_fields-nonempty : (c : ℕ) (s : Text) → is_space c ≡ false → join_fields false (c ∷ s) ≢ []
unfolding join_fields
join_fields-nonempty c s h = rw h (λ e. cc)

joined_nonempty :
    (s : Text)
    → (s == []) ≡ false
    → ((c : ℕ) (t : Text) → s ≡ c ∷ t → is_space c ≡ false)
    → join_fields false s ≢ []
joined_nonempty [] h f = λ e. ground (arith, h)
joined_nonempty (c ∷ s) h f = join_fields-nonempty c s (f c s refl)

first_reason-IsReason : (candidates : List Text) → IsReason (first_reason candidates)
unfolding first_reason
first_reason-IsReason [] = (omega arith, λ e. cc)
first_reason-IsReason (candidate ∷ candidates) = elim (Bool-cases (trim_space candidate == [])) [
  | inl blank ↦ rw blank (first_reason-IsReason candidates)
  | inr set ↦ rw set (
      shortened-IsReason (join_fields false (trim_space candidate))
        (joined_nonempty (trim_space candidate) set (trim_space_head candidate)))
]

-- The reason of an issue is never empty and never longer than 160 characters, whatever the entry of
-- the log holds.
pub derive_issue_reason-IsReason : (entry : LogEntry) → IsReason (derive_issue_reason entry)
unfolding derive_issue_reason
derive_issue_reason-IsReason entry =
    first_reason-IsReason (entry.detail ∷ entry.error ∷ entry.message ∷ [])
