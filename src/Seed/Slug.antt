-- ===== src/Seed/Slug.antt =====
-- internal/seed/generator.go: `slugify`, and what a tracking number starts with.
pub mod Shape
use duckstore.Prelude.{
  ℕ, ◌+◌, ◌-◌, Bool, true, false, not, ◌&&◌, ◌||◌, List, [], ◌∷◌, ◌++◌, Option, none, some, length,
  take, replicate, reverse, ◌==◌, if◌then◌else◌,
}
use duckstore.Prelude.Text.{Text, codes, within}

-- `strings.ToLower`, for the letters of Latin-1, which are all that the names of the reference data
-- have.
abbrev pub lower : ℕ → ℕ
lower c = if within b'A' b'Z' c || (within 0xc0 0xde c && not (c == 0xd7)) then c + 32 else c

abbrev pub any_of : ℕ → List ℕ → Bool
any_of c [] = false
any_of c (x ∷ xs) = c == x || any_of c xs

-- `accentFolder`, at one character.
unfoldable pub fold : ℕ → Text
fold c =
    if any_of c (0xe1 ∷ 0xe0 ∷ 0xe3 ∷ 0xe2 ∷ 0xe4 ∷ 0xe5 ∷ [])
    then b'a' ∷ []
    else if any_of c (0xe9 ∷ 0xe8 ∷ 0xea ∷ 0xeb ∷ [])
    then b'e' ∷ []
    else if any_of c (0xed ∷ 0xec ∷ 0xee ∷ 0xef ∷ [])
    then b'i' ∷ []
    else if any_of c (0xf3 ∷ 0xf2 ∷ 0xf5 ∷ 0xf4 ∷ 0xf6 ∷ [])
    then b'o' ∷ []
    else if any_of c (0xfa ∷ 0xf9 ∷ 0xfb ∷ 0xfc ∷ [])
    then b'u' ∷ []
    else if c == 0xe7
    then b'c' ∷ []
    else if c == 0xf1
    then b'n' ∷ []
    else if c == b'&'
    then codes "and"
    else c ∷ []

unfoldable pub fold_all : Text → Text
unfolding fold
fold_all [] = []
fold_all (c ∷ s) = fold (lower c) ++ fold_all s

abbrev pub is_plain : ℕ → Bool
is_plain r = within b'a' b'z' r || within b'0' b'9' r

-- The loop: `started` is `b.Len() > 0`.
unfoldable pub slug_from : Bool → Bool → Text → Text
slug_from started dash [] = []
slug_from started dash (r ∷ rs) =
    let later = slug_from (started || is_plain r) (not (is_plain r) && (dash || started)) rs in
    if is_plain r then r ∷ later else if not dash && started then b'-' ∷ later else later

-- `strings.TrimSuffix(s, "-")`
unfoldable pub trim_dash : Text → Text
trim_dash [] = []
trim_dash (c ∷ []) = if c == b'-' then [] else c ∷ []
trim_dash (c ∷ d ∷ s) = c ∷ trim_dash (d ∷ s)

unfoldable pub slugify : Text → Text
unfolding fold_all slug_from trim_dash
slugify s = trim_dash (slug_from false false (fold_all s))
