-- ===== src/Bench/Tests.antt =====
-- The theorem on internal/bench at a small input.
use duckstore.Prelude.{
  ℕ, Bool, false, ◌≡◌, refl, List, [], ◌∷◌, Option, some, none, ◌≤◌, ◌⊎◌, ◌*◌, replicate,
}
use duckstore.Prelude.Text.{codes}
use duckstore.Bench.Writers.{
  Writing, writers, ops_per_writer, Takes, Wrote, updated, other_error, begins, writes, here,
  count_update, left_after,
}
use duckstore.Bench.Writers.Counted.{total, Counted, Wrote-ends}
use duckstore.Bench.{Variant, Measurement, broken, done, run_write, index_of, fastest}
use duckstore.Bench.Best.{IsBest, fastest-IsBest}

-- An engine that fails, one that takes 9 and one that takes 4.
abbrev three_engines : List Measurement
three_engines =
    run_write (record { key = codes "postgres"; label = [] }) (broken (codes "locked"))
    ∷ run_write (record { key = codes "duckdb"; label = [] }) (done 9 1 0)
    ∷ run_write (record { key = codes "fast"; label = [] }) (done 4 1 0)
    ∷ []

fastest-three : fastest three_engines ≡ some 2
unfolding fastest run_write
fastest-three = refl

fastest-IsBest_example :
    (best : Option (ℕ × Measurement)) × (fastest three_engines ≡ index_of best)
    × IsBest three_engines best
fastest-IsBest_example = fastest-IsBest three_engines

abbrev measure_example : Variant → Measurement × Bool
measure_example v = (run_write v (done 9 1 0), false)

abbrev two_variants : List Variant
two_variants =
    record { key = codes "postgres"; label = [] } ∷ record { key = codes "duckdb"; label = [] } ∷ []

abbrev not_started : Writing
not_started = record { ok = 0; failed = 0; fatal = none; left = replicate writers ops_per_writer }

abbrev all_left : List ℕ
all_left = 150 ∷ 150 ∷ 150 ∷ 150 ∷ 150 ∷ 150 ∷ 150 ∷ []

abbrev one_ended : Writing
one_ended = record { ok = 0; failed = 0; fatal = some 5; left = 0 ∷ all_left }

-- The first writer ends at once.
abbrev one_wrote : Wrote 1 one_ended
unfolding count_update left_after
one_wrote =
    writes 0 not_started (other_error 5) (0 ∷ all_left) begins (here (other_error 5) 149 all_left)

Wrote-ends_example :
    (1 ≤ writers * ops_per_writer)
    × (((total one_ended.left ≡ 0) × Counted one_ended)
        ⊎ ((ns : List ℕ) × Takes updated one_ended.left ns))
Wrote-ends_example = Wrote-ends 1 one_ended updated one_wrote
