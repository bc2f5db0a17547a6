-- ===== src/Web/Console/Runs.antt =====
-- internal/web/console.go: which statements the console runs, and what it shows.
use duckstore.Prelude.{
  ℕ, ◌+◌, ◌≡◌, ◌⊎◌, inl, inr, refl, ap, ◌∙◌, Bool, true, false, not, List, [], ◌∷◌, ◌++◌, Option,
  none, some, arith, length, ltb, if◌then◌else◌,
}
use duckstore.Prelude.Int.{pos}
use duckstore.Prelude.Text.{Text}
use duckstore.Query.{QueryResult, is_full, add_row, read_rows}
use duckstore.Sqlsplit.{Statement}
use duckstore.Web.Console.{
  Answer, ConsoleResult, Outcome, answered, failed, console_max_rows, conn_rows, run_logged,
  run_all, shown, broken,
}
use duckstore.Web.QueryLog.{QueryEntry}

if_swap :
    {A : Type 0} (a b : Bool) (x y : A) → a ≡ not b → (if a then x else y) ≡ (if b then y else x)
if_swap true true x y h = absurd cc
if_swap true false x y h = refl
if_swap false true x y h = refl
if_swap false false x y h = absurd cc

below_full : (n : ℕ) → ltb n console_max_rows ≡ not (is_full (pos console_max_rows) n)
below_full n = ground arith

module _ {V : Type 0} where
  -- The results are of the first statements, in order; all but the last have a result; and where
  -- the last one has none it failed, and no statement behind it was run.
  abbrev pub StopsAtError : List Statement → List (ConsoleResult V) → Type 0
  StopsAtError [] [] = Unit {0}
  StopsAtError [] (_ ∷ _) = ⊥
  StopsAtError (_ ∷ _) [] = ⊥
  StopsAtError (st ∷ sts) (r ∷ rs) =
      (r.sql ≡ st.sql)
      × (((r.result ≡ none) × (rs ≡ []))
          ⊎ (((a : Answer V) × (r.result ≡ some a)) × StopsAtError sts rs))

  -- One row, as `Result.add` with the limit 500 reads it.
  one_row :
      (v : List V) (r : QueryResult (List V))
      → (if ltb (length r.rows) console_max_rows
          then record r { row_count = r.row_count + 1; rows = r.rows ++ v ∷ [] }
          else record r { row_count = r.row_count + 1; truncated = true })
        ≡ add_row r v (pos console_max_rows)
  unfolding add_row
  one_row v r = if_swap _ _ _ _ (below_full (length r.rows))

  -- `runOnConn` reads rows as `query.DuckDB` does with the limit of 500, where no error ends them.
  pub conn_rows-read_rows :
      (vs : List (Option (List V))) (r : QueryResult (List V))
      → conn_rows vs r ≡ read_rows (pos console_max_rows) false vs r
  unfolding conn_rows read_rows
  conn_rows-read_rows [] r = refl
  conn_rows-read_rows (none ∷ vs) r = refl
  conn_rows-read_rows (some v ∷ vs) r =
      ap (λ x. conn_rows vs x) (one_row v r)
      ∙ conn_rows-read_rows vs (add_row r v (pos console_max_rows))

module _ {V : Type 0} (format : V → Text) {C : Type 0} (run : Text → C → Outcome V × C) where
  -- The loop of `consolePostgres` shows a result for each statement up to the first that fails, for
  -- which it shows the error, and runs no other behind it.
  pub run_all-StopsAtError :
      (explain : Text) (sts : List Statement) (c : C)
      → StopsAtError sts (run_all format run explain sts c)
  unfolding run_all
  run_all-StopsAtError explain [] c = tt
  run_all-StopsAtError explain (st ∷ sts) c =
      step (run (explain ++ st.sql) c).0 _
        (run_all-StopsAtError explain sts (run (explain ++ st.sql) c).1)
    where
      step :
          (o : Outcome V) (rest : List (ConsoleResult V))
          → StopsAtError sts rest
          → StopsAtError (st ∷ sts) (elim o [
            | failed res e ↦ broken format st.sql e ∷ []
            | answered a ↦ shown format st.sql a ∷ rest
          ])
      step (failed res e) rest h = (refl, inl (refl, refl))
      step (answered a) rest h = (refl, inr ((a, refl), h))

  -- The loop of `consoleDuckDB` shows what that of `consolePostgres` shows on the same answers.
  pub run_logged-run_all :
      (explain : Text) (sts : List Statement) (c : C) (log : List QueryEntry)
      → (run_logged format run explain sts c log).0 ≡ run_all format run explain sts c
  unfolding run_logged run_all
  run_logged-run_all explain [] c log = refl
  run_logged-run_all explain (st ∷ sts) c log =
      step (run (explain ++ st.sql) c).0 _ _ _
        (λ a. run_logged-run_all explain sts (run (explain ++ st.sql) c).1 _)
    where
      step :
          (o : Outcome V) (failing : Option (Answer V) → Text → List QueryEntry)
          (later : Answer V → List (ConsoleResult V) × List QueryEntry)
          (rest : List (ConsoleResult V))
          → ((a : Answer V) → (later a).0 ≡ rest)
          → (let both : List (ConsoleResult V) × List QueryEntry = elim o [
            | failed res e ↦ (broken format st.sql e ∷ [], failing res e)
            | answered a ↦ let (out, log') = later a in (shown format st.sql a ∷ out, log')
          ] in
              both.0)
            ≡ elim o [
              | failed res e ↦ broken format st.sql e ∷ []
              | answered a ↦ shown format st.sql a ∷ rest
            ]
      step (failed res e) failing later rest h = refl
      step (answered a) failing later rest h = ap (λ l. shown format st.sql a ∷ l) (h a)
