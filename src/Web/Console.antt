-- ===== src/Web/Console.antt =====
-- internal/web/console.go: the console runs the statements of a script, one after the other, up to
-- the first that fails.
pub mod Runs
use duckstore.Prelude.{
  ℕ, ◌+◌, Bool, true, false, ◌||◌, List, [], ◌∷◌, ◌++◌, map, Option, none, some, length, ltb,
  if◌then◌else◌, get_elem?,
}
use duckstore.Prelude.Int.{pos}
use duckstore.Prelude.Text.{Text, codes, equal, is_empty}
use duckstore.Query.{QueryResult, no_rows_yet}
use duckstore.Sqlsplit.{Statement, split}
use duckstore.Web.QueryLog.{QueryEntry, add_entry}

abbrev pub console_max_rows : ℕ
console_max_rows = 500

-- `query.Result`, with the columns; the cells are the driver's values.
pub record Answer (V : Type 0) : Type 0 where
  pub columns : List Text
  pub table : QueryResult (List V)
  pub duration : ℕ

pub record ConsoleResult (V : Type 0) : Type 0 where
  pub sql : Text
  pub result : Option (Answer V)
  pub err : Text
  pub plan : Text

-- What running one statement gives: a result; or an error, with the result read before it, if any.
pub data Outcome (V : Type 0) : Type 0 where
  answered : Answer V → Outcome V
  failed : Option (Answer V) → Text → Outcome V

abbrev pub is_plan_column : Text → Bool
is_plan_column c = equal c (codes "QUERY PLAN") || equal c (codes "explain_value")

-- The loop of `planText` over the columns: the last plan column, where none is -1.
unfoldable pub plan_column : ℕ → Option ℕ → List Text → Option ℕ
plan_column i col [] = col
plan_column i col (c ∷ cs) = plan_column (i + 1) (if is_plan_column c then some i else col) cs

module _ {V : Type 0} where
  -- The loop of `runOnConn` over the rows, which keeps the first 500; a row that cannot be scanned
  -- is `none`.
  unfoldable pub conn_rows :
      List (Option (List V)) → QueryResult (List V) → Option (QueryResult (List V))
  conn_rows [] r = some r
  conn_rows (none ∷ vs) r = none
  conn_rows (some v ∷ vs) r =
      let counted = record r { row_count = r.row_count + 1 } in
      conn_rows vs (
        if ltb (length r.rows) console_max_rows
        then record counted { rows = r.rows ++ v ∷ [] }
        else record counted { truncated = true })

  abbrev pub rows_of : Option (Answer V) → ℕ
  rows_of none = 0
  rows_of (some a) = a.table.row_count

  abbrev pub duration_of : Option (Answer V) → ℕ
  duration_of none = 0
  duration_of (some a) = a.duration

module _ {V : Type 0} (format : V → Text) where
  abbrev pub cell_text : Option V → Text
  cell_text none = []
  cell_text (some v) = format v ++ codes "\n"

  unfoldable pub plan_lines : ℕ → List (List V) → Text
  plan_lines col [] = []
  plan_lines col (row ∷ rows) = cell_text (get_elem? row col) ++ plan_lines col rows

  abbrev pub lines_at : Option ℕ → List (List V) → Text
  lines_at none rows = []
  lines_at (some col) rows = plan_lines col rows

  -- `planText`; a row has a cell for each column. `format` is `query.Format`.
  unfoldable pub plan_text : Answer V → Text
  plan_text a = lines_at (plan_column 0 none a.columns) a.table.rows

  abbrev pub entry_of : Text → Option (Answer V) → Text → QueryEntry
  entry_of q res err = record {
    engine = codes "duckdb";
    title = [];
    sql = q;
    args = [];
    duration = duration_of res;
    rows = rows_of res;
    err = err;
  }

  abbrev pub shown : Text → Answer V → ConsoleResult V
  shown sql a = record { sql = sql; result = some a; err = []; plan = plan_text a }

  abbrev pub broken : Text → Text → ConsoleResult V
  broken sql e = record { sql = sql; result = none; err = e; plan = [] }

  module _ {C : Type 0} (run : Text → C → Outcome V × C) where
    -- The loop of `consoleDuckDB` on its connection, with the query log.
    unfoldable pub run_logged :
        Text → List Statement → C → List QueryEntry → List (ConsoleResult V) × List QueryEntry
    run_logged explain [] c log = ([], log)
    run_logged explain (st ∷ sts) c log =
        let q = explain ++ st.sql in
        elim (run q c).0 [
          | failed res e ↦ (broken st.sql e ∷ [], add_entry (entry_of q res e) log)
          | answered a ↦
              let (out, log') =
                run_logged explain sts (run q c).1 (add_entry (entry_of q (some a) []) log) in
              (shown st.sql a ∷ out, log')
        ]

    -- The loop of `consolePostgres`.
    unfoldable pub run_all : Text → List Statement → C → List (ConsoleResult V)
    run_all explain [] c = []
    run_all explain (st ∷ sts) c = elim (run (explain ++ st.sql) c).0 [
      | failed res e ↦ broken st.sql e ∷ []
      | answered a ↦ shown st.sql a ∷ run_all explain sts (run (explain ++ st.sql) c).1
    ]

    abbrev pub on_script : Option (List Statement) → Text → C → Option (List (ConsoleResult V))
    on_script none explain c = none
    on_script (some sts) explain c = some (run_all explain sts c)

    abbrev pub on_script_logged :
        Option (List Statement)
        → Text
        → C
        → List QueryEntry
        → Option (List (ConsoleResult V) × List QueryEntry)
    on_script_logged none explain c log = none
    on_script_logged (some sts) explain c log = some (run_logged explain sts c log)

    -- `consolePostgres`
    unfoldable pub console_postgres : Text → Bool → C → Option (List (ConsoleResult V))
    console_postgres script explain c =
        on_script (split script) (if explain then codes "EXPLAIN (ANALYZE, BUFFERS) " else []) c

    -- `consoleDuckDB` on its connection.
    unfoldable pub console_duckdb :
        Text → Bool → C → List QueryEntry → Option (List (ConsoleResult V) × List QueryEntry)
    console_duckdb script explain c log =
        on_script_logged (split script) (if explain then codes "EXPLAIN ANALYZE " else []) c log

-- `errText`; none is nil.
unfoldable pub err_text : Option Text → Text
err_text none = []
err_text (some e) = e
