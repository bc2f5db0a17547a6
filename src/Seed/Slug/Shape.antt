-- ===== src/Seed/Slug/Shape.antt =====
-- internal/seed/generator.go: what `slugify` gives.
use duckstore.Prelude.{
  ℕ, ◌≡◌, ◌⊎◌, refl, Bool, true, false, not, ◌&&◌, ◌||◌, [], ◌∷◌, arith, ◌==◌, if◌then◌else◌,
  Bool-cases, inl, inr,
}
use duckstore.Prelude.Text.{Text}
use duckstore.Seed.Slug.{fold_all, is_plain, slug_from, trim_dash, slugify}

-- Words of letters and digits with one dash between each two: `after_dash` tells that the text
-- follows a dash, or stands at the start.
abbrev pub IsSlug : Bool → Text → Type 0
IsSlug after_dash [] = after_dash ≡ false
IsSlug after_dash (c ∷ s) =
    ((is_plain c ≡ true) × IsSlug false s) ⊎ ((c ≡ b'-') × (after_dash ≡ false) × IsSlug true s)

-- The same with a dash at the end.
abbrev Slugging : Bool → Text → Type 0
Slugging after_dash [] = Unit {0}
Slugging after_dash (c ∷ s) =
    ((is_plain c ≡ true) × Slugging false s) ⊎ ((c ≡ b'-') × (after_dash ≡ false) × Slugging true s)

slug_from-Slugging :
    (started dash : Bool) (s : Text) → Slugging (dash || not started) (slug_from started dash s)
unfolding slug_from
slug_from-Slugging started dash [] = tt
slug_from-Slugging started dash (r ∷ rs) = elim (Bool-cases (is_plain r)) [
  | inl plain ↦
      let later =
        slug_from-Slugging (started || is_plain r) (not (is_plain r) && (dash || started)) rs in
      rw plain (inl (plain, first_of started _ (rw plain at later)))
  | inr other ↦
      let later =
        slug_from-Slugging (started || is_plain r) (not (is_plain r) && (dash || started)) rs in
      rw other (kept started dash _ (rw other at later))
]
  where
    first_of : (started : Bool) (t : Text) → Slugging (not (started || true)) t → Slugging false t
    first_of true t h = h
    first_of false t h = h

    kept :
        (started dash : Bool) (t : Text)
        → Slugging ((dash || started) || not (started || false)) t
        → Slugging (dash || not started) (if not dash && started then b'-' ∷ t else t)
    kept true true t h = h
    kept true false t h = inr (refl, refl, h)
    kept false true t h = h
    kept false false t h = h

dash_not_plain : (c : ℕ) → is_plain c ≡ true → (c == b'-') ≡ false
dash_not_plain c h = ground arith

trim_dash-IsSlug :
    (after_dash : Bool) (t : Text)
    → Slugging after_dash t
    → (t ≡ [] → after_dash ≡ false)
    → IsSlug after_dash (trim_dash t)
unfolding trim_dash
trim_dash-IsSlug a [] h k = k refl
trim_dash-IsSlug a (c ∷ []) (inl (plain, _)) k = rw (dash_not_plain c plain) (inl (plain, refl))
trim_dash-IsSlug a (c ∷ []) (inr (e, last, _)) k = rw (e, last) refl
trim_dash-IsSlug a (c ∷ d ∷ s) (inl (plain, h)) k =
    inl (plain, trim_dash-IsSlug false (d ∷ s) h (λ _. refl))
trim_dash-IsSlug a (c ∷ d ∷ s) (inr (e, first, h)) k =
    inr (e, first, trim_dash-IsSlug true (d ∷ s) h (λ q. cc))

-- `slugify` gives words of lower-case letters and digits with one dash between each two, and no
-- dash at either end, or nothing.
pub slugify-IsSlug : (s : Text) → (slugify s ≡ []) ⊎ IsSlug true (slugify s)
unfolding slugify
slugify-IsSlug s =
    go (slug_from false false (fold_all s)) (slug_from-Slugging false false (fold_all s))
  where
    go : (t : Text) → Slugging true t → (trim_dash t ≡ []) ⊎ IsSlug true (trim_dash t)
    go [] h = inl refl
    go (c ∷ t) h = inr (trim_dash-IsSlug true (c ∷ t) h (λ q. cc))
