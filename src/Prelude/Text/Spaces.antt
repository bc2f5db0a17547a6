-- ===== src/Prelude/Text/Spaces.antt =====
-- White space: what `strings.TrimSpace` leaves, and what the lines of a blank text are.
use duckstore.Prelude.Lists.{All, All-reverse}
use duckstore.Prelude.Tests.{Bool-cases, ◌==◌}
use duckstore.Prelude.Text.{Text, is_space, trim_left, trim_space, lines, cons_line}
use Prim.Native.Nat.{ℕ}
use mathlib.Core.Path.{◌≡◌, refl, ap, ◌∙◌, sym}
use mathlib.Core.Logic.{inl, inr}
use mathlib.Core.Bool.{true}
use mathlib.Core.List.{List, [], ◌∷◌, reverse, reverse-reverse}
use native.Mathlib.Omega.{arith}

abbrev pub IsBlank : Text → Type 0
IsBlank = All (λ c. is_space c ≡ true)

trim_left-IsBlank : (s : Text) → IsBlank s → trim_left s ≡ []
unfolding trim_left
trim_left-IsBlank [] h = refl
trim_left-IsBlank (c ∷ s) h = rw (h.0, trim_left) (trim_left-IsBlank s h.1)

pub trim_space-IsBlank : (s : Text) → IsBlank s → trim_space s ≡ []
unfolding trim_space
trim_space-IsBlank s h = rw (trim_left-IsBlank s h) refl

IsBlank-trim_left : (s : Text) → IsBlank (trim_left s) → IsBlank s
unfolding trim_left
IsBlank-trim_left [] h = tt
IsBlank-trim_left (c ∷ s) h = elim (Bool-cases (is_space c)) [
  | inl e ↦ (e, IsBlank-trim_left s (rw (e, trim_left) at h))
  | inr e ↦ absurd (ground arith)
]

-- Only a blank text is trimmed to nothing.
pub IsBlank-trim_space : (s : Text) → trim_space s ≡ [] → IsBlank s
unfolding trim_space
IsBlank-trim_space s h =
    let t = trim_left s in
    let e : trim_left (reverse t) ≡ [] = sym (reverse-reverse _) ∙ ap reverse h in
    let b : IsBlank (reverse t) = IsBlank-trim_left (reverse t) (rw e tt) in
    IsBlank-trim_left s (rw reverse-reverse at (All-reverse (λ c. is_space c ≡ true) (reverse t) b))

cons_line-IsBlank :
    (c : ℕ) (ls : List Text) → is_space c ≡ true → All IsBlank ls → All IsBlank (cons_line c ls)
cons_line-IsBlank c [] e h = ((e, tt), tt)
cons_line-IsBlank c (l ∷ ls) e h = ((e, h.0), h.1)

-- Every line of a blank text is blank.
pub lines-IsBlank : (s : Text) → IsBlank s → All IsBlank (lines s)
unfolding lines
lines-IsBlank [] h = tt
lines-IsBlank (c ∷ s) h = elim (Bool-cases (c == b'\n')) [
  | inl e ↦ rw e ((h.0, tt), lines-IsBlank s h.1)
  | inr e ↦ rw e (cons_line-IsBlank c (lines s) h.0 (lines-IsBlank s h.1))
]
