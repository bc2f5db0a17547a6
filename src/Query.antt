-- ===== src/Query.antt =====
-- internal/query/query.go: the rows of a query in one shape, and the text of a decimal number.
mod Tests
pub mod Limit
pub mod Point
use duckstore.Prelude.{
  ℕ, suc, ◌+◌, ◌-◌, Bool, true, false, ◌&&◌, ◌||◌, List, [], ◌∷◌, ◌++◌, Option, none, some, length,
  take, drop, replicate, ltb, leb, if◌then◌else◌,
}
use duckstore.Prelude.Int.{ℤ, pos, negsuc}
use duckstore.Prelude.Text.Decimal.{decimal}
use duckstore.Prelude.Text.{Text, codes}

-- `Rows`, `RowCount` and `Truncated` of the type `Result`.
pub record QueryResult (A : Type 0) : Type 0 where
  pub rows : List A
  pub row_count : ℕ
  pub truncated : Bool

-- `maxRows > 0 && n >= maxRows`
abbrev pub is_full : ℤ → ℕ → Bool
is_full (pos m) n = ltb 0 m && leb m n
is_full (negsuc _) n = false

module _ {A : Type 0} where
  abbrev pub no_rows_yet : QueryResult A
  no_rows_yet = record { rows = []; row_count = 0; truncated = false }

  -- `add`
  unfoldable pub add_row : QueryResult A → A → ℤ → QueryResult A
  add_row r vals max_rows =
      let counted = record r { row_count = r.row_count + 1 } in
      if is_full max_rows (length r.rows)
      then record counted { truncated = true }
      else record counted { rows = r.rows ++ vals ∷ [] }

  -- The loop over `rows.Next()` of `DuckDB` and of `Postgres`. The driver's rows are a list, a row
  -- that cannot be scanned is `none`, and `broken` is an error that ends the rows.
  unfoldable pub read_rows : ℤ → Bool → List (Option A) → QueryResult A → Option (QueryResult A)
  read_rows max_rows broken [] r = if broken then none else some r
  read_rows max_rows broken (none ∷ vs) r = none
  read_rows max_rows broken (some v ∷ vs) r = read_rows max_rows broken vs (add_row r v max_rows)

-- The branch of `decimalString` for a scale above 0: zeros in front, and the point.
unfoldable pub with_point : ℕ → Text → Text
with_point scale s =
    let padded = if leb (length s) scale then replicate (scale - length s + 1) b'0' ++ s else s in
    take (length padded - scale) padded ++ b'.' ∷ drop (length padded - scale) padded

abbrev pub scaled : ℕ → Text → Text
scaled scale s = if ltb 0 scale then with_point scale s else s

-- `decimalString`
unfoldable pub decimal_string : Option ℤ → ℕ → Text
decimal_string none scale = codes "NULL"
decimal_string (some (pos n)) scale = scaled scale (decimal n)
decimal_string (some (negsuc n)) scale = b'-' ∷ scaled scale (decimal (suc n))
