-- ===== src/Query/Limit.antt =====
-- internal/query/query.go: the first rows are kept, all are counted.
use duckstore.Prelude.{
  ℕ, zero, suc, ◌≤◌, ◌≡◌, refl, sym, ap, ◌∙◌, Bool, true, false, ◌&&◌, List, [], ◌∷◌, ◌++◌, map,
  some, arith, length, take, length-append, length-take, append_assoc, append-nil, Bool-cases, inl,
  inr, ltb, leb,
}
use duckstore.Prelude.Int.{ℤ, pos, negsuc}
use duckstore.Query.{QueryResult, no_rows_yet, add_row, read_rows}

-- Whether a limit leaves some of `n` rows out.
abbrev pub is_over : ℤ → ℕ → Bool
is_over (pos zero) n = false
is_over (pos (suc m)) n = ltb (suc m) n
is_over (negsuc _) n = false

module _ {A : Type 0} where
  -- The rows that a limit leaves. No limit is one that is not above 0.
  abbrev pub limited : ℤ → List A → List A
  limited (pos zero) vs = vs
  limited (pos (suc m)) vs = take (suc m) vs
  limited (negsuc _) vs = vs

  abbrev pub limit_result : ℤ → List A → QueryResult A
  limit_result max_rows vs = record {
    rows = limited max_rows vs;
    row_count = length vs;
    truncated = is_over max_rows (length vs);
  }

  take-append_le : (n : ℕ) (vs : List A) (v : A) → n ≤ length vs → take n (vs ++ v ∷ []) ≡ take n vs
  take-append_le zero vs v h = refl
  take-append_le (suc n) [] v h = absurd (omega arith)
  take-append_le (suc n) (x ∷ vs) v h = ap (λ l. x ∷ l) (take-append_le n vs v (omega arith))

  take_all : (n : ℕ) (vs : List A) → length vs ≤ n → take n vs ≡ vs
  take_all zero [] h = refl
  take_all zero (x ∷ vs) h = absurd (omega arith)
  take_all (suc n) [] h = refl
  take_all (suc n) (x ∷ vs) h = ap (λ l. x ∷ l) (take_all n vs (omega arith))

  result-eq :
      {r s : List A} {m n : ℕ} {b c : Bool}
      → r ≡ s
      → m ≡ n
      → b ≡ c
      → ◌≡◌ {A = QueryResult A}
          (record { rows = r; row_count = m; truncated = b })
          (record { rows = s; row_count = n; truncated = c })
  result-eq p q t = λ i. record { rows = p i; row_count = q i; truncated = t i }

  add_row-limit_result :
      (max_rows : ℤ) (vs : List A) (v : A)
      → add_row (limit_result max_rows vs) v max_rows ≡ limit_result max_rows (vs ++ v ∷ [])
  unfolding add_row
  add_row-limit_result (pos zero) vs v = result-eq refl (sym (length-append vs (v ∷ []))) refl
  add_row-limit_result (negsuc m) vs v = result-eq refl (sym (length-append vs (v ∷ []))) refl
  add_row-limit_result (pos (suc m)) vs v =
      let longer = length-append vs (v ∷ []) in
      let kept = length-take (suc m) vs in
      elim (Bool-cases (ltb 0 (suc m) && leb (suc m) (length (take (suc m) vs)))) [
        | inl e ↦
            let full : suc m ≤ length vs = ground arith in
            rw e (
              result-eq (sym (take-append_le (suc m) vs v full)) (sym longer ∙ refl)
                (over_true (suc m) _ (omega arith)))
        | inr e ↦
            let room : suc (length vs) ≤ suc m = ground arith in
            rw e (
              result-eq
                (ap (λ l. l ++ v ∷ []) (take_all (suc m) vs (omega arith))
                  ∙ sym (take_all (suc m) (vs ++ v ∷ []) (omega arith)))
                (sym longer)
                (over_false (suc m) _ (omega arith) ∙ sym (over_false (suc m) _ (omega arith))))
      ]
    where
      over_true : (a b : ℕ) → suc a ≤ b → true ≡ ltb a b
      over_true a b h = ground arith

      over_false : (a b : ℕ) → b ≤ a → ltb a b ≡ false
      over_false a b h = ground arith

  read_rows-limit_result :
      (max_rows : ℤ) (done vs : List A)
      → read_rows max_rows false (map some vs) (limit_result max_rows done)
        ≡ some (limit_result max_rows (done ++ vs))
  unfolding read_rows
  read_rows-limit_result max_rows done [] =
      ap (λ l. some (limit_result max_rows l)) (sym (append-nil done))
  read_rows-limit_result max_rows done (v ∷ vs) =
      ap (λ r. read_rows max_rows false (map some vs) r) (add_row-limit_result max_rows done v)
      ∙ read_rows-limit_result max_rows (done ++ v ∷ []) vs
      ∙ ap (λ l. some (limit_result max_rows l)) (append_assoc done (v ∷ []) vs)

  -- A query whose rows can all be read keeps the first `max_rows` of them, or all when the limit is
  -- not above 0; it counts all, and says truncated exactly when there are more than the limit.
  pub read_rows-limited :
      (max_rows : ℤ) (vs : List A)
      → read_rows max_rows false (map some vs) no_rows_yet ≡ some (limit_result max_rows vs)
  read_rows-limited max_rows vs = start max_rows ∙ read_rows-limit_result max_rows [] vs
    where
      start :
          (m : ℤ)
          → read_rows m false (map some vs) no_rows_yet
            ≡ read_rows m false (map some vs) (limit_result m [])
      start (pos zero) = refl
      start (pos (suc m)) =
          ap
            (λ b.
              read_rows (pos (suc m)) false (map some vs)
                (record { rows = []; row_count = 0; truncated = b }))
            (ground arith)
      start (negsuc m) = refl
