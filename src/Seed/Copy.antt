-- ===== src/Seed/Copy.antt =====
-- internal/seed/copy.go: a table is loaded by COPY while a generator makes rows. The rows go over a
-- channel in batches, which the reader takes apart again.
pub mod Order
pub mod Count
use duckstore.Prelude.{
  ℕ, zero, suc, ◌+◌, Bool, true, false, List, [], ◌∷◌, ◌++◌, Option, none, some, length, get_elem?,
  ltb, leb, ◌==◌, if◌then◌else◌,
}

abbrev pub batch_size : ℕ
batch_size = 2000

-- `type stream`: the rows not sent yet, and the channel, with the batches that went into it. How
-- far the reader is behind does not show in their order.
pub record Stream (A : Type 0) : Type 0 where
  pub buf : List A
  pub ch : List (List A)
  pub closed : Bool

-- The variables of `copy`: `batch`, `i`, what is still in the channel, and `s.rows`.
pub record Reader (A : Type 0) : Type 0 where
  pub batch : List A
  pub i : ℕ
  pub ch : List (List A)
  pub rows : ℕ

module _ {A : Type 0} where
  abbrev pub new_stream : Stream A
  new_stream = record { buf = []; ch = []; closed = false }

  -- `flush`: whether there was no error. `done` tells that the context is done and the select
  -- takes that branch.
  unfoldable pub flush : Bool → Stream A → Bool × Stream A
  flush done s =
      if length s.buf == 0
      then (true, s)
      else if done
      then (false, s)
      else (true, record s { buf = []; ch = s.ch ++ s.buf ∷ [] })

  unfoldable pub add : Bool → A → Stream A → Bool × Stream A
  add done row s =
      let s' = record s { buf = s.buf ++ row ∷ [] } in
      if ltb (length s'.buf) batch_size then (true, s') else flush done s'

  unfoldable pub finish : Bool → Stream A → Bool × Stream A
  finish done s = let (r, s') = flush done s in (r, record s' { closed = true })

  abbrev pub start_reader : List (List A) → Reader A
  start_reader ch = record { batch = []; i = 0; ch = ch; rows = 0 }

  -- The `for` of the function given to `CopyFromFunc`: the batch and the index where a row is, once
  -- the channel is closed. None when the channel is empty.
  unfoldable pub next_batch : List A → ℕ → List (List A) → Option (List A × ℕ × List (List A))
  next_batch batch i [] = if leb (length batch) i then none else some (batch, i, [])
  next_batch batch i (b ∷ ch) =
      let later = next_batch b 0 ch in
      if leb (length batch) i then later else some (batch, i, b ∷ ch)

  abbrev pub row_from : Reader A → List A → ℕ → List (List A) → Option A → Option (A × Reader A)
  row_from r batch i ch none = none
  row_from r batch i ch (some row) =
      some (row, record { batch = batch; i = suc i; ch = ch; rows = r.rows + 1 })

  abbrev pub take_row : Reader A → Option (List A × ℕ × List (List A)) → Option (A × Reader A)
  take_row r none = none
  take_row r (some (batch, i, ch)) = row_from r batch i ch (get_elem? batch i)

  -- The function given to `CopyFromFunc`: the next row.
  unfoldable pub next_row : Reader A → Option (A × Reader A)
  unfolding next_batch
  next_row r = take_row r (next_batch r.batch r.i r.ch)

  -- What COPY gets: it asks for rows until there is none. Each round takes one, so the number of
  -- rows in the channel and one round for the end are enough fuel.
  unfoldable pub copy : ℕ → Reader A → Option (List A × ℕ)
  copy zero r = none
  copy (suc fuel) r = elim (next_row r) [
    | none ↦ some ([], r.rows)
    | some (row, r') ↦ elim (copy fuel r') [ none ↦ none | some (rows, n) ↦ some (row ∷ rows, n) ]
  ]

  -- A generator that adds the rows, one after the other, and finishes, while the context lives.
  unfoldable pub add_all : List A → Stream A → Stream A
  add_all [] s = (finish false s).1
  add_all (row ∷ rows) s = add_all rows (add false row s).1

  -- The `next` of `copyN` at the counter `i`.
  unfoldable pub next_of : ℕ → (ℕ → A) → ℕ → Option A × ℕ
  next_of n row i = if leb n i then (none, i) else (some (row i), i + 1)

  abbrev pub with_next : Option A → Option (List A) → Option (List A)
  with_next none rows = some []
  with_next (some r) none = none
  with_next (some r) (some rows) = some (r ∷ rows)

  -- What COPY gets from `copyN`, by `copyIter`: it asks until there is no row. One round for each
  -- row and one for the end are enough fuel.
  unfoldable pub copy_n : ℕ → ℕ → (ℕ → A) → ℕ → Option (List A)
  copy_n zero n row i = none
  copy_n (suc fuel) n row i = with_next (next_of n row i).0 (copy_n fuel n row (next_of n row i).1)

-- `nullID`; none is NULL.
unfoldable pub null_id : ℕ → Option ℕ
null_id zero = none
null_id (suc n) = some (suc n)
