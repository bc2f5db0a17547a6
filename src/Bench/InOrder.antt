-- ===== src/Bench/InOrder.antt =====
-- internal/bench/bench.go: what `Run` gives of the variants.
use duckstore.Prelude.{
  ◌≡◌, sym, ap, ◌∙◌, Bool, true, false, List, [], ◌∷◌, ◌++◌, map, some, append-nil, append_assoc,
  All,
}
use duckstore.Bench.{Variant, Measurement, run_variants, run}

run_variants-map :
    (measure : Variant → Measurement × Bool) (vs : List Variant) (measured : List Measurement)
    → All (λ v. (measure v).1 ≡ false) vs
    → run_variants measure vs measured ≡ some (measured ++ map (λ v. (measure v).0) vs)
unfolding run_variants
run_variants-map measure [] measured h =
    ap (λ (l : List Measurement). some l) (sym (append-nil measured))
run_variants-map measure (v ∷ vs) measured h = rw h.0 (
    run_variants-map measure vs (measured ++ (measure v).0 ∷ []) h.1
    ∙ ap (λ (l : List Measurement). some l)
        (append_assoc measured ((measure v).0 ∷ []) (map (λ v. (measure v).0) vs)))

-- While the context lives and the arguments of the scenario are found, `Run` gives one measurement
-- for each variant, in their order, those with an error included.
pub run-map :
    (measure : Variant → Measurement × Bool) (vs : List Variant)
    → All (λ v. (measure v).1 ≡ false) vs
    → run true measure vs ≡ some (map (λ v. (measure v).0) vs)
unfolding run
run-map measure vs h = run_variants-map measure vs [] h
