-- ===== src/Seed/Copy/Count.antt =====
-- internal/seed/copy.go: `copyN` loads the rows that it is told to.
use duckstore.Prelude.{
  ℕ, zero, suc, ◌+◌, ◌≡◌, refl, ap, ◌∙◌, List, [], ◌∷◌, Option, none, some, arith, leb, true, false,
}
use duckstore.Seed.Copy.{next_of, with_next, copy_n}

-- `row i`, `row (i + 1)` and so on, `k` rows.
abbrev pub rows_from : {A : Type 0} → ℕ → (ℕ → A) → ℕ → List A
rows_from zero row i = []
rows_from (suc k) row i = row i ∷ rows_from k row (i + 1)

next_of-none :
    {A : Type 0} (n : ℕ) (row : ℕ → A) (i : ℕ) → leb n i ≡ true → next_of n row i ≡ (none, i)
unfolding next_of
next_of-none n row i h = rw h refl

next_of-some :
    {A : Type 0} (n : ℕ) (row : ℕ → A) (i : ℕ)
    → leb n i ≡ false
    → next_of n row i ≡ (some (row i), i + 1)
unfolding next_of
next_of-some n row i h = rw h refl

copy_n-from :
    {A : Type 0} (k n : ℕ) (row : ℕ → A) (i : ℕ)
    → i + k ≡ n
    → copy_n (suc k) n row i ≡ some (rows_from k row i)
unfolding copy_n
copy_n-from {A} zero n row i h =
    ap (λ (p : Option A × ℕ). with_next p.0 (copy_n 0 n row p.1))
      (next_of-none n row i (done n i h))
  where
    done : (n i : ℕ) → i + 0 ≡ n → leb n i ≡ true
    done n i h = ground arith
copy_n-from {A} (suc k) n row i h =
    ap (λ (p : Option A × ℕ). with_next p.0 (copy_n (suc k) n row p.1))
      (next_of-some n row i (more n i k h))
    ∙ ap (λ rows. with_next (some (row i)) rows) (copy_n-from k n row (i + 1) (omega arith))
  where
    more : (n i k : ℕ) → i + suc k ≡ n → leb n i ≡ false
    more n i k h = ground arith

-- `copyN` ends, and COPY gets `row(0)` to `row(n-1)`, in order.
pub copy_n-rows_from :
    {A : Type 0} (n : ℕ) (row : ℕ → A) → copy_n (suc n) n row 0 ≡ some (rows_from n row 0)
copy_n-rows_from n row = copy_n-from n n row 0 (omega arith)
