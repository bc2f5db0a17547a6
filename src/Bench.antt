-- ===== src/Bench.antt =====
-- internal/bench/bench.go: the measurements of a scenario.
mod Tests
pub mod Best
pub mod Writers
pub mod InOrder
use duckstore.Prelude.{
  ℕ, zero, suc, ◌+◌, ◌/◌, Bool, true, false, not, ◌&&◌, ◌||◌, List, [], ◌∷◌, ◌++◌, Option, none,
  some, length, get_elem?, max, ltb, leb, if◌then◌else◌,
}
use duckstore.Prelude.Text.{Text, codes, equal, is_empty}

-- `Variant`, as far as `Name` and `Engine` read it.
pub record Variant : Type 0 where
  pub key : Text
  pub label : Text

unfoldable pub engine : Variant → Text
engine v = if equal v.key (codes "postgres") then codes "postgres" else codes "duckdb"

-- Durations are in nanoseconds, and none is below 0.
pub record Measurement : Type 0 where
  pub variant : Variant
  pub median : ℕ
  pub runs : List ℕ
  pub rows : ℕ
  pub ops : ℕ
  pub errors : ℕ
  pub err : Text

-- The loop of `Fastest` at the index `i`, with the index and the measurement of `best`.
unfoldable pub fastest_from :
    ℕ → Option (ℕ × Measurement) → List Measurement → Option (ℕ × Measurement)
fastest_from i best [] = best
fastest_from i none (m ∷ ms) =
    fastest_from (suc i) (if is_empty m.err then some (i, m) else none) ms
fastest_from i (some (j, b)) (m ∷ ms) =
    fastest_from (suc i)
      (if is_empty m.err && ltb m.median b.median then some (i, m) else some (j, b)) ms

abbrev pub index_of : Option (ℕ × Measurement) → Option ℕ
index_of none = none
index_of (some (i, m)) = some i

-- `Fastest`; none is -1.
unfoldable pub fastest : List Measurement → Option ℕ
unfolding fastest_from
fastest ms = index_of (fastest_from 0 none ms)

-- `Slowest`
unfoldable pub slowest_from : ℕ → List Measurement → ℕ
slowest_from d [] = d
slowest_from d (m ∷ ms) = slowest_from (max d m.median) ms

unfoldable pub insert : ℕ → List ℕ → List ℕ
insert x [] = x ∷ []
insert x (y ∷ ys) = let others = insert x ys in if leb x y then x ∷ y ∷ ys else y ∷ others

-- `slices.Sort`
unfoldable pub sort : List ℕ → List ℕ
unfolding insert
sort [] = []
sort (x ∷ xs) = insert x (sort xs)

-- `median`; none is the panic on no runs.
unfoldable pub median : List ℕ → Option ℕ
unfolding sort
median d = get_elem? (sort d) (length d / 2)

abbrev pub new_measurement : Variant → Measurement
new_measurement v = record {
  variant = v;
  median = 0;
  runs = [];
  rows = 0;
  ops = 0;
  errors = 0;
  err = [];
}

-- What one run of a query gives: an error, or the duration and the number of rows.
pub data Once : Type 0 where
  failed : Text → Once
  timed : ℕ → ℕ → Once

-- The loop over the timed runs, and the median behind it. `later` are the runs to come; where they
-- end the sequence given was too short.
unfoldable pub timed_runs : ℕ → Measurement → List Once → Option Measurement
unfolding median
timed_runs zero m later = elim (median m.runs) [
  | none ↦ none
  | some d ↦ some (record m { median = d })
]
timed_runs (suc n) m [] = none
timed_runs (suc n) m (failed e ∷ later) = some (record m { err = e })
timed_runs (suc n) m (timed d rows ∷ later) =
    timed_runs n (record m { runs = m.runs ++ d ∷ []; rows = rows }) later

-- 2 seconds
abbrev pub slow_limit : ℕ
slow_limit = 2000000000

-- `runRead`: the warm-up and then 5 runs, or 1 run.
unfoldable pub run_read : Variant → List Once → Option Measurement
run_read v [] = none
run_read v (failed e ∷ later) = some (record (new_measurement v) { err = e })
run_read v (timed d rows ∷ later) =
    timed_runs (if ltb slow_limit d then 1 else 5) (new_measurement v) later

-- What `Exec` of a write scenario gives.
pub data Written : Type 0 where
  broken : Text → Written
  done : ℕ → ℕ → ℕ → Written

-- `runWrite`
unfoldable pub run_write : Variant → Written → Measurement
run_write v (broken e) = record (new_measurement v) { err = e }
run_write v (done elapsed ops errs) = record (new_measurement v) {
  median = elapsed;
  runs = elapsed ∷ [];
  ops = ops;
  errors = errs;
}

-- `Name`
unfoldable pub name : Variant → Text
name v =
    if not (is_empty v.label)
    then v.label
    else if equal v.key (codes "postgres")
    then codes "Postgres (store tables)"
    else if equal v.key (codes "duckdb_raw")
    then codes "DuckDB (same tables)"
    else if equal v.key (codes "duckdb_star")
    then codes "DuckDB (star schema)"
    else v.key

-- The loop of `Run` over the variants: `measure` is `runRead` or `runWrite`, and tells whether the
-- context was done afterwards.
unfoldable pub run_variants :
    (Variant → Measurement × Bool) → List Variant → List Measurement → Option (List Measurement)
run_variants measure [] measured = some measured
run_variants measure (v ∷ vs) measured =
    let rest = run_variants measure vs (measured ++ (measure v).0 ∷ []) in
    if (measure v).1 then none else rest

-- `Run`, where `args` tells whether the scenario's arguments were found; none is an error.
unfoldable pub run :
    Bool → (Variant → Measurement × Bool) → List Variant → Option (List Measurement)
unfolding run_variants
run args measure vs = if args then run_variants measure vs [] else none
