-- ===== src/Bench/Writers.antt =====
-- internal/bench/bench.go: `concurrent`. The goroutines are steps on a shared state, in any order; a
-- step is one update of one writer, with the answer that the database gives.
pub mod Counted
use duckstore.Prelude.{ℕ, zero, suc, ◌+◌, ◌*◌, List, [], ◌∷◌, Option, none, some, replicate}

-- The error of an update: none, one for which `isConflict` holds, or any other.
pub data Update : Type 0 where
  updated conflict : Update
  other_error : ℕ → Update

-- `ok`, `failed` and `fatal`, and how many updates each writer has left.
pub record Writing : Type 0 where
  pub ok : ℕ
  pub failed : ℕ
  pub fatal : Option ℕ
  pub left : List ℕ

abbrev pub writers : ℕ
writers = 8

abbrev pub ops_per_writer : ℕ
ops_per_writer = 150

-- `once.Do(func() { fatal = err })`
abbrev pub once : Option ℕ → ℕ → Option ℕ
once none e = some e
once (some f) e = some f

-- What the answer does to the counters.
unfoldable pub count_update : Update → Writing → Writing
count_update updated s = record s { ok = s.ok + 1 }
count_update conflict s = record s { failed = s.failed + 1 }
count_update (other_error e) s = record s { fatal = once s.fatal e }

-- How many updates the writer has left after it, of `n + 1`.
unfoldable pub left_after : Update → ℕ → ℕ
left_after updated n = n
left_after conflict n = n
left_after (other_error e) n = 0

-- One writer, which has an update left, makes it.
pub data Takes : Update → List ℕ → List ℕ → Type 0 where
  here : (u : Update) (n : ℕ) (ns : List ℕ) → Takes u (suc n ∷ ns) (left_after u n ∷ ns)
  there : (u : Update) (m : ℕ) (ns ns' : List ℕ) → Takes u ns ns' → Takes u (m ∷ ns) (m ∷ ns')

-- The steps that the goroutines have made, from the start on, and how many.
pub data Wrote : ℕ → Writing → Type 0 where
  begins :
      Wrote 0 (record { ok = 0; failed = 0; fatal = none; left = replicate writers ops_per_writer })
  writes :
      (k : ℕ) (s : Writing) (u : Update) (left' : List ℕ)
      → Wrote k s
      → Takes u s.left left'
      → Wrote (k + 1) (record (count_update u s) { left = left' })
