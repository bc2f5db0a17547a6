-- ===== src/Store/Tx/Commits.antt =====
-- What pgx documents of `BeginFunc`: an error of its function, or of BEGIN or COMMIT, leaves the
-- rows as they were; else what the function wrote stays.
pub mod Local
use duckstore.Prelude.{◌≡◌, ◌⊎◌}
use duckstore.Store.Tables.{Db}
use duckstore.Store.Tx.{Error, Result, ok, err, World, Tx, Begin}
use duckstore.Store.Tx.Laws.{SameClock}

-- The end of a transaction: it failed and the rows are those of before, or it kept what was
-- written.
abbrev pub Ends : {A : Type 0} → Db → Result A → World → Result A → World → Type 0
Ends {A} before r w1 r' w2 =
    ((w2.db ≡ before) × ((e : Error) × (r' ≡ err e)))
    ⊎ ((a : A) × (r ≡ ok a) × (r' ≡ ok a) × (w2.db ≡ w1.db) × SameClock w1 w2)

-- The function runs on the rows as they are after BEGIN, which changes none.
abbrev pub RunsOnce : {A : Type 0} → Begin → Tx A → World → Type 0
RunsOnce begin body w =
    (w0 : World) × (w0.db ≡ w.db)
    × SameClock w w0
    × Ends w.db (body w0).0 (body w0).1 (begin.run body w).0 (begin.run body w).1

pub record Commits (begin : Begin) : Type 1 where
  pub once : {A : Type 0} (body : Tx A) (w : World) → RunsOnce begin body w
