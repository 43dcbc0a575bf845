-- ===== src/Daemon/Shell.antt =====
-- internal/daemon/webhook.go: shellQuote, against the way a shell reads quotes.
use gh_runner_scaler.Prelude.{
  ℕ, ◌≡◌, refl, sym, ap, inl, inr, Bool, ◌||◌, Option, none, some, [], ◌∷◌, ◌++◌, nat_beq,
  if◌then◌else◌, nat_beq_iff, Bool-cases, nat_eq, Text, text_eq,
}
use gh_runner_scaler.Prelude.Strings.{text}

-- strings.ReplaceAll(value, "'", `'"'"'`)
abbrev pub quote_body : Text → Text
quote_body [] = []
quote_body (c ∷ s) =
    let rest = quote_body s in if nat_beq c b'\'' then text "'\"'\"'" ++ rest else c ∷ rest

unfoldable pub shell_quote : Text → Text
shell_quote value = b'\'' ∷ (quote_body value ++ b'\'' ∷ [])

-- Where a shell is while it reads a word.
pub data Quoting : Type 0 where
  outside single double : Quoting

abbrev pub add_char : ℕ → Option Text → Option Text
add_char c none = none
add_char c (some s) = some (c ∷ s)

-- `$`, a backquote and a backslash keep a meaning between double quotes.
abbrev pub is_active : ℕ → Bool
is_active c = nat_beq c b'$' || nat_beq c b'`' || nat_beq c b'\\'

-- The word that a shell makes of a fully quoted argument: nothing for any other text, in
-- particular where a character outside quotes or an active one would be left to the shell.
unfoldable pub shell_word : Quoting → Text → Option Text
shell_word Quoting.outside [] = some []
shell_word Quoting.single [] = none
shell_word Quoting.double [] = none
shell_word Quoting.outside (c ∷ s) =
    let in_single = shell_word Quoting.single s in
    let in_double = shell_word Quoting.double s in
    if nat_beq c b'\'' then in_single else if nat_beq c b'"' then in_double else none
shell_word Quoting.single (c ∷ s) =
    let out = shell_word Quoting.outside s in
    let rest = shell_word Quoting.single s in if nat_beq c b'\'' then out else add_char c rest
shell_word Quoting.double (c ∷ s) =
    let out = shell_word Quoting.outside s in
    let rest = shell_word Quoting.double s in
    if nat_beq c b'"' then out else if is_active c then none else add_char c rest

shell_word-quote_body :
    (value : Text) → shell_word Quoting.single (quote_body value ++ b'\'' ∷ []) ≡ some value
unfolding shell_word
shell_word-quote_body [] = refl
shell_word-quote_body (c ∷ s) = elim (Bool-cases (nat_beq c b'\'')) [
  | inl quote ↦
      rw quote (
        rw (shell_word-quote_body s) (ap (λ d. some (d ∷ s)) (sym ((nat_beq_iff c b'\'').0 quote))))
  | inr other ↦ rw other (rw other (rw (shell_word-quote_body s) refl))
]

-- A shell reads a quoted value back as one word, the value itself, whatever characters it holds.
pub shell_word-shell_quote :
    (value : Text) → shell_word Quoting.outside (shell_quote value) ≡ some value
unfolding shell_word shell_quote
shell_word-shell_quote value = shell_word-quote_body value
