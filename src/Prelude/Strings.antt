-- ===== src/Prelude/Strings.antt =====
-- The functions of Go's `strings` that the program uses, over code points. `to_lower` folds the
-- ASCII letters only.
use Prim.Native.Char.{code}
use Prim.Native.String.{String}
use gh_runner_scaler.Prelude.Tests.{leb, nat_beq, if◌then◌else◌}
use gh_runner_scaler.Prelude.Equality.{Text}
use Prim.Native.Nat.{ℕ, ◌+◌}
use mathlib.Core.Path.{◌≡◌, refl, ap, subst}
use mathlib.Core.Logic.{◌⊎◌, inl, inr}
use mathlib.Core.Bool.{Bool, true, false, ◌&&◌, ◌||◌}
use mathlib.Core.Option.{Option, none, some}
use mathlib.Core.List.{List, [], ◌∷◌, ◌++◌, map}
use native.Mathlib.Omega.{arith}

abbrev pub text : String → Text
text String.[] = []
text (String.◌∷◌ c s) = code c ∷ text s

-- unicode.IsSpace
abbrev pub is_space : ℕ → Bool
is_space c =
    (leb 9 c && leb c 13)
    || nat_beq c 32
    || nat_beq c 0x85
    || nat_beq c 0xa0
    || nat_beq c 0x1680
    || (leb 0x2000 c && leb c 0x200a)
    || nat_beq c 0x2028
    || nat_beq c 0x2029
    || nat_beq c 0x202f
    || nat_beq c 0x205f
    || nat_beq c 0x3000

abbrev pub lower_code : ℕ → ℕ
lower_code c = if leb b'A' c && leb c b'Z' then c + 32 else c

-- strings.ToLower
unfoldable pub to_lower : Text → Text
to_lower = map lower_code

trim_left : Text → Text
trim_left [] = []
trim_left (c ∷ s) = let rest = trim_left s in if is_space c then rest else c ∷ s

-- Spaces at the end are dropped once what follows is known to be empty.
keep_unless_blank : ℕ → Text → Text
keep_unless_blank c [] = if is_space c then [] else c ∷ []
keep_unless_blank c (d ∷ s) = c ∷ d ∷ s

unfoldable pub trim_right : Text → Text
unfolding keep_unless_blank
trim_right [] = []
trim_right (c ∷ s) = keep_unless_blank c (trim_right s)

-- strings.TrimSpace
unfoldable pub trim_space : Text → Text
unfolding trim_left trim_right
trim_space s = trim_right (trim_left s)

-- strings.HasPrefix
unfoldable pub has_prefix : Text → Text → Bool
has_prefix s [] = true
has_prefix [] (p ∷ ps) = false
has_prefix (c ∷ s) (p ∷ ps) = nat_beq c p && has_prefix s ps

-- strings.Contains
unfoldable pub contains_text : Text → Text → Bool
unfolding has_prefix
contains_text [] sub = has_prefix [] sub
contains_text (c ∷ s) sub = has_prefix (c ∷ s) sub || contains_text s sub

prepend : ℕ → List Text → List Text
prepend c [] = (c ∷ []) ∷ []
prepend c (p ∷ ps) = (c ∷ p) ∷ ps

-- strings.Split at a one-character separator
unfoldable pub split : ℕ → Text → List Text
unfolding prepend
split sep [] = [] ∷ []
split sep (c ∷ s) = let rest = split sep s in if nat_beq c sep then [] ∷ rest else prepend c rest

-- strings.Cut at a one-character separator
unfoldable pub cut : ℕ → Text → Option (Text × Text)
cut sep [] = none
cut sep (c ∷ s) =
    let rest = cut sep s in
    if nat_beq c sep
    then some ([], s)
    else elim rest [ none ↦ none | some (before, after) ↦ some (c ∷ before, after) ]

pub has_prefix_refl : (s : Text) → has_prefix s s ≡ true
unfolding has_prefix
has_prefix_refl [] = refl
has_prefix_refl (c ∷ s) = ground (arith, has_prefix_refl s)

pub has_prefix-append : (p s : Text) → has_prefix (p ++ s) p ≡ true
unfolding has_prefix
has_prefix-append [] [] = refl
has_prefix-append [] (c ∷ s) = refl
has_prefix-append (c ∷ p) s = ground (arith, has_prefix-append p s)

-- What is cut apart is the text again, and the separator does not occur before the cut.
pub cut_lem :
    (sep : ℕ) (s before after : Text) → cut sep s ≡ some (before, after) → s ≡ before ++ sep ∷ after
unfolding cut
cut_lem sep [] before after h = ground arith
cut_lem sep (c ∷ s) [] after h = ground arith
cut_lem sep (c ∷ s) (d ∷ before) after h = ground (arith, cut_lem sep s before after)

if-cases :
    (b : Bool) (x y z : Text)
    → (if b then x else y) ≡ z
    → ((b ≡ true) × (x ≡ z)) ⊎ ((b ≡ false) × (y ≡ z))
if-cases true x y z h = inl (refl, h)
if-cases false x y z h = inr (refl, h)

first_of : Text → ℕ
first_of [] = 0
first_of (c ∷ s) = c

trim_left_head : (s : Text) (c : ℕ) (t : Text) → trim_left s ≡ c ∷ t → is_space c ≡ false
unfolding trim_left first_of
trim_left_head [] c t h = cc
trim_left_head (d ∷ s) c t h = elim (if-cases (is_space d) (trim_left s) (d ∷ s) (c ∷ t) h) [
  | inl (space, e) ↦ trim_left_head s c t e
  | inr (other, e) ↦ subst (λ x. is_space x ≡ false) (ap first_of e) other
]

kept_head : (c : ℕ) (r : Text) (d : ℕ) (t : Text) → keep_unless_blank c r ≡ d ∷ t → c ≡ d
unfolding keep_unless_blank first_of
kept_head c [] d t h = elim (if-cases (is_space c) [] (c ∷ []) (d ∷ t) h) [
  | inl (space, e) ↦ cc
  | inr (other, e) ↦ ap first_of e
]
kept_head c (x ∷ r) d t h = ap first_of h

trim_right_head : (s : Text) (d : ℕ) (t : Text) → trim_right s ≡ d ∷ t → first_of s ≡ d
unfolding trim_right first_of
trim_right_head [] d t h = cc
trim_right_head (c ∷ s) d t h = kept_head c (trim_right s) d t h

trimmed_head :
    (s : Text) (c : ℕ) (t : Text)
    → ((d : ℕ) (u : Text) → s ≡ d ∷ u → is_space d ≡ false)
    → trim_right s ≡ c ∷ t
    → is_space c ≡ false
unfolding trim_right first_of
trimmed_head [] c t f h = cc
trimmed_head (d ∷ u) c t f h =
    subst (λ x. is_space x ≡ false) (trim_right_head (d ∷ u) c t h) (f d u refl)

-- What is trimmed does not begin with a space.
pub trim_space_head : (s : Text) (c : ℕ) (t : Text) → trim_space s ≡ c ∷ t → is_space c ≡ false
unfolding trim_space
trim_space_head s c t h = trimmed_head (trim_left s) c t (trim_left_head s) h

trim_test : trim_space (text "  a b ") ≡ text "a b"
unfolding trim_space
trim_test = refl

split_test : split b',' (text "a,,b") ≡ text "a" ∷ [] ∷ text "b" ∷ []
unfolding split
split_test = refl
