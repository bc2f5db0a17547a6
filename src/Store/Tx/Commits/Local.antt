-- ===== src/Store/Tx/Commits/Local.antt =====
-- A `BeginFunc` that loses the connection at BEGIN or COMMIT, as the faults have it.
use duckstore.Prelude.{inl, inr, refl, Bool-cases, if◌then◌else◌}
use duckstore.Store.Tables.{Db}
use duckstore.Store.Tx.{connection, Result, ok, err, World, Tx, head_fault, rest, Begin}
use duckstore.Store.Tx.Laws.{same_clock}
use duckstore.Store.Tx.Commits.{Ends, RunsOnce, Commits}

-- COMMIT or ROLLBACK, with the rows of before. A COMMIT that fails is a rollback.
unfoldable pub finish : {A : Type 0} → Db → Result A → World → Result A × World
finish before (err e) w = (err e, record w { db = before })
finish before (ok a) w =
    if head_fault w.faults
    then (err connection, record w { faults = rest w.faults; db = before })
    else (ok a, record w { faults = rest w.faults })

unfoldable pub run_local : {A : Type 0} → Tx A → Tx A
unfolding finish
run_local body w =
    let w0 = record w { faults = rest w.faults } in
    if head_fault w.faults then (err connection, w0) else finish w.db (body w0).0 (body w0).1

finish-Ends :
    {A : Type 0} (before : Db) (r : Result A) (w1 : World)
    → Ends before r w1 (finish before r w1).0 (finish before r w1).1
unfolding finish
finish-Ends before (err e) w1 = inl (refl, (e, refl))
finish-Ends before (ok a) w1 = elim (Bool-cases (head_fault w1.faults)) [
  | inl e ↦ rw e (inl (refl, (connection, refl)))
  | inr e ↦ rw e (inr (a, refl, refl, refl, same_clock refl refl refl))
]

abbrev pub local : Begin
local = record { run = run_local }

local-RunsOnce : {A : Type 0} (body : Tx A) (w : World) → RunsOnce local body w
unfolding run_local
local-RunsOnce body w =
    let w0 = record w { faults = rest w.faults } in
    elim (Bool-cases (head_fault w.faults)) [
      | inl e ↦ (w0, refl, same_clock refl refl refl, rw e (inl (refl, (connection, refl))))
      | inr e ↦ (w0, refl, same_clock refl refl refl, rw e (finish-Ends w.db _ _))
    ]

pub local-Commits : Commits local
local-Commits = record { once = local-RunsOnce }
