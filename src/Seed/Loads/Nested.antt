-- ===== src/Seed/Loads/Nested.antt =====
-- internal/seed/seed.go: an iterator over groups of rows gives all of them, group by group.
use duckstore.Prelude.{
  ℕ, zero, suc, ◌+◌, ◌-◌, ◌≤◌, ◌≡◌, refl, sym, ap, ◌∙◌, subst, true, false, List, [], ◌∷◌, ◌++◌,
  Option, none, some, arith, length, leb, ◌⊎◌, inl, inr, if_ind,
}
use duckstore.Seed.Loads.{Cursor, skip, give, next_nested, with_row, copy_iter}

module _ {G R : Type 0} (size : G → ℕ) (row : ℕ → G → ℕ → R) where
  -- The `k` rows of a group from `item` on.
  abbrev pub group_rows : ℕ → G → ℕ → ℕ → List R
  group_rows group g zero item = []
  group_rows group g (suc k) item = row group g item ∷ group_rows group g k (item + 1)

  abbrev pub all_rows : ℕ → List G → List R
  all_rows group [] = []
  all_rows group (g ∷ gs) = group_rows group g (size g) 0 ++ all_rows (group + 1) gs

  -- What is left from `item` on.
  abbrev remaining : ℕ → List G → ℕ → List R
  remaining group [] item = []
  remaining group (g ∷ gs) item = group_rows group g (size g - item) item ++ all_rows (group + 1) gs

  remaining-all_rows : (group : ℕ) (gs : List G) → remaining group gs 0 ≡ all_rows group gs
  remaining-all_rows group [] = refl
  remaining-all_rows group (g ∷ gs) =
      ap (λ k. group_rows group g k 0 ++ all_rows (group + 1) gs) (all_left (size g))
    where
      all_left : (n : ℕ) → n - 0 ≡ n
      all_left n = omega arith

  -- An iterator that gives the first of `rows` and goes on with the others, or none at the end.
  Gives : List R → Cursor G → Type 0
  Gives rows c =
      let p = give size row c.group c.left c.item in
      ((rows ≡ []) × (p.0 ≡ none))
      ⊎ ((r : R) × (p.0 ≡ some r) × (rows ≡ r ∷ remaining p.1.group p.1.left p.1.item))

  skip-Gives :
      (group : ℕ) (gs : List G) (item : ℕ)
      → Gives (remaining group gs item) (skip size row group gs item)
  unfolding skip Gives
  skip-Gives group [] item = inl (refl, refl)
  skip-Gives group (g ∷ gs) item =
      let rows = remaining group (g ∷ gs) item in
      if_ind (Gives rows) (leb (size g) item)
        (λ e.
          subst (λ rs. Gives rs (skip size row (group + 1) gs 0)) (sym (done e))
            (skip-Gives (group + 1) gs 0))
        (λ e. inr (row group g item, refl, more e))
    where
      none_left : (n i : ℕ) → leb n i ≡ true → n - i ≡ 0
      none_left n i h = ground arith

      one_left : (n i : ℕ) → leb n i ≡ false → n - i ≡ suc (n - (i + 1))
      one_left n i h = ground arith

      done : leb (size g) item ≡ true → remaining group (g ∷ gs) item ≡ remaining (group + 1) gs 0
      done e =
          ap (λ k. group_rows group g k item ++ all_rows (group + 1) gs) (none_left (size g) item e)
          ∙ sym (remaining-all_rows (group + 1) gs)

      more :
          leb (size g) item ≡ false
          → remaining group (g ∷ gs) item ≡ row group g item ∷ remaining group (g ∷ gs) (item + 1)
      more e =
          ap (λ k. group_rows group g k item ++ all_rows (group + 1) gs) (one_left (size g) item e)

  -- One round of COPY, where the rounds after it give what is left.
  round :
      (rows : List R) (r : Option R) (rest : List R) (later : Option (List R))
      → ((rows ≡ []) × (r ≡ none)) ⊎ ((x : R) × (r ≡ some x) × (rows ≡ x ∷ rest))
      → (suc (length rest) ≡ length rows → later ≡ some rest)
      → with_row size row r later ≡ some rows
  round rows r rest later (inl (nil, ended)) h =
      ap (λ r. with_row size row r later) ended ∙ ap some (sym nil)
  round rows r rest later (inr (x, one, more)) h =
      ap (λ r. with_row size row r later) one
      ∙ ap (with_row size row (some x)) (h (sym (ap length more)))
      ∙ ap some (sym more)

  copy_iter-remaining :
      (fuel : ℕ) (c : Cursor G)
      → length (remaining c.group c.left c.item) ≤ fuel
      → copy_iter size row (suc fuel) c ≡ some (remaining c.group c.left c.item)
  unfolding copy_iter next_nested Gives
  copy_iter-remaining zero c le =
      let c' = (next_nested size row c).1 in
      round _ _ (remaining c'.group c'.left c'.item) _ (skip-Gives c.group c.left c.item)
        (λ e. absurd (omega arith))
  copy_iter-remaining (suc fuel) c le =
      let c' = (next_nested size row c).1 in
      round _ _ (remaining c'.group c'.left c'.item) _ (skip-Gives c.group c.left c.item)
        (λ e. copy_iter-remaining fuel c' (omega arith))

  -- COPY gets the rows of the first group, then those of the second and so on, each once.
  pub copy_iter-all_rows :
      (gs : List G)
      → copy_iter size row
          (suc (length (all_rows 0 gs)))
          (record { group = 0; left = gs; item = 0 })
        ≡ some (all_rows 0 gs)
  copy_iter-all_rows gs =
      subst
        (λ rows.
          copy_iter size row (suc (length rows)) (record { group = 0; left = gs; item = 0 })
          ≡ some rows)
        (remaining-all_rows 0 gs)
        (copy_iter-remaining (length (remaining 0 gs 0)) (record { group = 0; left = gs; item = 0 })
          (omega arith))
