-- ===== src/Seed/Copy/Order.antt =====
-- internal/seed/copy.go: the reader gets the rows that were added, in order.
use duckstore.Prelude.{
  ℕ, zero, suc, ◌+◌, ◌<◌, ◌≡◌, refl, sym, ap, ◌∙◌, Bool, true, false, List, [], ◌∷◌, ◌++◌, Option,
  none, some, length, get_elem?, append_assoc, append-nil, arith, drop, ◌⊎◌, Bool-cases, inl, inr,
  if_ind, ltb, leb, ◌==◌,
}
use duckstore.Seed.Copy.{
  batch_size, Stream, new_stream, flush, add, finish, Reader, start_reader, next_batch, take_row,
  next_row, copy, add_all,
}

module _ {A : Type 0} where
  abbrev pub concat : List (List A) → List A
  concat [] = []
  concat (b ∷ bs) = b ++ concat bs

  concat-append : (bs : List (List A)) (b : List A) → concat (bs ++ b ∷ []) ≡ concat bs ++ b
  concat-append [] b = append-nil b
  concat-append (c ∷ bs) b = rw (concat-append bs b) (sym (append_assoc c (concat bs) b))

  -- All that was added.
  abbrev pub contents : Stream A → List A
  contents s = concat s.ch ++ s.buf

  length_zero : (l : List A) → (length l == 0) ≡ true → l ≡ []
  length_zero [] h = refl
  length_zero (x ∷ l) h = absurd (ground arith)

  flush-contents : (s : Stream A) → contents (flush false s).1 ≡ contents s
  unfolding flush
  flush-contents s =
      if_ind (λ (p : Bool × Stream A). contents p.1 ≡ contents s) (length s.buf == 0) (λ _. refl)
        (λ _. append-nil _ ∙ concat-append s.ch s.buf)

  add-contents : (row : A) (s : Stream A) → contents (add false row s).1 ≡ contents s ++ row ∷ []
  unfolding add
  add-contents row s =
      let s' : Stream A = record s { buf = s.buf ++ row ∷ [] } in
      let joined = sym (append_assoc (concat s.ch) s.buf (row ∷ [])) in
      if_ind (λ (p : Bool × Stream A). contents p.1 ≡ contents s ++ row ∷ [])
        (ltb (length s'.buf) batch_size) (λ _. joined) (λ _. flush-contents s' ∙ joined)

  flush-ch : (s : Stream A) → concat (flush false s).1.ch ≡ contents s
  unfolding flush
  flush-ch s =
      if_ind (λ (p : Bool × Stream A). concat p.1.ch ≡ contents s) (length s.buf == 0)
        (λ e.
          sym (append-nil (concat s.ch))
          ∙ ap (λ (b : List A). concat s.ch ++ b) (sym (length_zero s.buf e)))
        (λ _. concat-append s.ch s.buf)

  add_all-ch : (rows : List A) (s : Stream A) → concat (add_all rows s).ch ≡ contents s ++ rows
  unfolding add_all finish
  add_all-ch [] s = flush-ch s ∙ sym (append-nil (contents s))
  add_all-ch (row ∷ rows) s =
      add_all-ch rows (add false row s).1
      ∙ ap (λ (l : List A). l ++ rows) (add-contents row s)
      ∙ append_assoc (contents s) (row ∷ []) rows

  -- What the reader has not taken yet.
  abbrev pub remaining : Reader A → List A
  remaining r = drop r.i r.batch ++ concat r.ch

  drop-past : (n : ℕ) (l : List A) → leb (length l) n ≡ true → drop n l ≡ []
  drop-past zero [] h = refl
  drop-past zero (x ∷ l) h = absurd (ground arith)
  drop-past (suc n) [] h = refl
  drop-past (suc n) (x ∷ l) h = drop-past n l (ground arith)

  drop-at :
      (n : ℕ) (l : List A)
      → leb (length l) n ≡ false
      → (row : A) × (get_elem? l n ≡ some row) × (drop n l ≡ row ∷ drop (suc n) l)
  drop-at n [] h = absurd (ground arith)
  drop-at zero (x ∷ l) h = (x, refl, refl)
  drop-at (suc n) (x ∷ l) h = let (row, e, d) = drop-at n l (ground arith) in (row, e, d)

  -- A step of the reader: the end, or the first row of what remains.
  abbrev Reads : Reader A → List A → Option (A × Reader A) → Type 0
  Reads r rest o =
      ((rest ≡ []) × (o ≡ none))
      ⊎ ((row : A) × (r' : Reader A) × (rest ≡ row ∷ remaining r')
          × (o ≡ some (row, r'))
          × (r'.rows ≡ r.rows + 1))

  next_batch-Reads :
      (r : Reader A) (batch : List A) (i : ℕ) (ch : List (List A))
      → Reads r (drop i batch ++ concat ch) (take_row r (next_batch batch i ch))
  unfolding next_batch
  next_batch-Reads r batch i [] = elim (Bool-cases (leb (length batch) i)) [
    | inl e ↦ rw (drop-past i batch e, e, next_batch) (inl (refl, refl))
    | inr e ↦
        let (row, found, d) = drop-at i batch e in
        rw (e, found, d, next_batch) (inr (row, _, refl, refl, refl))
  ]
  next_batch-Reads r batch i (b ∷ ch) = elim (Bool-cases (leb (length batch) i)) [
    | inl e ↦ rw (drop-past i batch e, e, next_batch) (next_batch-Reads r b 0 ch)
    | inr e ↦
        let (row, found, d) = drop-at i batch e in
        rw (e, found, d, next_batch) (inr (row, _, refl, refl, refl))
  ]

  cong_some :
      {l l' : List A} {m n : ℕ}
      → l ≡ l'
      → m ≡ n
      → ◌≡◌ {A = Option (List A × ℕ)} (some (l, m)) (some (l', n))
  cong_some p q = λ i. some (p i, q i)

  copy-remaining :
      (fuel : ℕ) (r : Reader A)
      → length (remaining r) < fuel
      → copy fuel r ≡ some (remaining r, r.rows + length (remaining r))
  unfolding copy next_row
  copy-remaining zero r h = absurd (omega arith)
  copy-remaining (suc fuel) r h = elim (next_batch-Reads r r.batch r.i r.ch) [
    | inl (none_left, e) ↦ rw (none_left, e, copy) (ap (λ n. some ([], n)) (omega arith))
    | inr (row, r', more, e, count) ↦
        let left : length (remaining r) ≡ suc (length (remaining r')) = ap length more in
        let rest = copy-remaining fuel r' (omega arith) in
        let total : r'.rows + length (remaining r') ≡ r.rows + length (remaining r) = omega arith in
        rw (e, rest, copy) (cong_some (sym more) total)
  ]

  -- The rows that a generator adds reach COPY in order, all of them and each once, however they
  -- fall into batches, and `rows` counts them.
  pub copy-add_all :
      (rows : List A)
      → copy (suc (length rows)) (start_reader (add_all rows new_stream).ch)
        ≡ some (rows, length rows)
  copy-add_all rows =
      let sent = add_all-ch rows new_stream in
      let e =
        copy-remaining (suc (length rows)) (start_reader (add_all rows new_stream).ch)
          (omega (arith, ap length sent)) in
      e ∙ rw sent (ap (λ n. some (rows, n)) (omega arith))
