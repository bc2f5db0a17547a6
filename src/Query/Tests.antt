-- ===== src/Query/Tests.antt =====
-- The theorems on internal/query at a small input.
use duckstore.Prelude.{ℕ, ◌≡◌, true, false, List, [], ◌∷◌, map, some}
use duckstore.Prelude.Int.{pos, negsuc}
use duckstore.Query.{no_rows_yet, read_rows, decimal_string}
use duckstore.Query.Limit.{read_rows-limited}
use duckstore.Query.Point.{IsNumeral, decimal_string-IsNumeral}

abbrev numbers : List ℕ
numbers = 7 ∷ 8 ∷ 9 ∷ []

read_rows-limited_example :
    read_rows (pos 2) false (map some numbers) no_rows_yet
    ≡ some (record { rows = 7 ∷ 8 ∷ []; row_count = 3; truncated = true })
read_rows-limited_example = read_rows-limited (pos 2) numbers

decimal_string-IsNumeral_example : IsNumeral 2 (negsuc 4) (decimal_string (some (negsuc 4)) 2)
decimal_string-IsNumeral_example = decimal_string-IsNumeral (negsuc 4) 2
