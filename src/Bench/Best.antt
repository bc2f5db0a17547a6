-- ===== src/Bench/Best.antt =====
-- internal/bench/bench.go: `Fastest` finds a best measurement.
use duckstore.Prelude.{
  ℕ, zero, suc, ◌≤◌, ◌≡◌, refl, sym, subst, Bool, true, false, ◌&&◌, List, [], ◌∷◌, ◌++◌, Option,
  none, some, arith, length, get_elem?, length-append, append_assoc, append-nil, All, All-append,
  if_ind, ltb, if◌then◌else◌,
}
use duckstore.Prelude.Text.{is_empty}
use duckstore.Bench.{Measurement, fastest_from, index_of, fastest}

abbrev pub Succeeded : Measurement → Type 0
Succeeded m = is_empty m.err ≡ true

-- `best` is the place of a fastest one of the measurements without an error, or there is none.
abbrev pub IsBest : List Measurement → Option (ℕ × Measurement) → Type 0
IsBest ms none = All (λ m. is_empty m.err ≡ false) ms
IsBest ms (some (i, b)) =
    (get_elem? ms i ≡ some b) × Succeeded b × All (λ m. Succeeded m → b.median ≤ m.median) ms

get_elem?-append :
    (ms ns : List Measurement) (i : ℕ) {b : Measurement}
    → get_elem? ms i ≡ some b
    → get_elem? (ms ++ ns) i ≡ some b
get_elem?-append [] ns i h = absurd cc
get_elem?-append (m ∷ ms) ns zero h = h
get_elem?-append (m ∷ ms) ns (suc i) h = get_elem?-append ms ns i h

get_elem?-last :
    (ms : List Measurement) (m : Measurement) → get_elem? (ms ++ m ∷ []) (length ms) ≡ some m
get_elem?-last [] m = refl
get_elem?-last (x ∷ ms) m = get_elem?-last ms m

All-failed :
    (m : Measurement) (ms : List Measurement)
    → All (λ x. is_empty x.err ≡ false) ms
    → All (λ x. Succeeded x → m.median ≤ x.median) ms
All-failed m [] h = tt
All-failed m (x ∷ ms) h = ((λ e. absurd (let f = h.0 in cc)), All-failed m ms h.1)

All-slower :
    (m b : Measurement) (ms : List Measurement)
    → m.median ≤ b.median
    → All (λ x. Succeeded x → b.median ≤ x.median) ms
    → All (λ x. Succeeded x → m.median ≤ x.median) ms
All-slower m b [] h k = tt
All-slower m b (x ∷ ms) h k = ((λ e. let f = k.0 e in omega arith), All-slower m b ms h k.1)

fastest_from-IsBest :
    (i : ℕ) (done : List Measurement) (best : Option (ℕ × Measurement)) (ms : List Measurement)
    → i ≡ length done
    → IsBest done best
    → IsBest (done ++ ms) (fastest_from i best ms)
unfolding fastest_from
fastest_from-IsBest i done best [] e h =
    subst (λ (l : List Measurement). IsBest l best) (sym (append-nil done)) h
fastest_from-IsBest i done none (m ∷ ms) e h =
    let best' : Option (ℕ × Measurement) = if is_empty m.err then some (i, m) else none in
    let step =
      if_ind (IsBest (done ++ m ∷ [])) (is_empty m.err)
        (λ s. (
          rw e (get_elem?-last done m),
          s,
          All-append _ done (m ∷ []) (All-failed m done h) ((λ _. omega arith), tt),
        ))
        (λ f. All-append _ done (m ∷ []) h (f, tt)) in
    subst (λ (l : List Measurement). IsBest l (fastest_from (suc i) best' ms))
      (append_assoc done (m ∷ []) ms)
      (fastest_from-IsBest (suc i) (done ++ m ∷ []) best' ms
        (omega (arith, length-append done (m ∷ []))) step)
fastest_from-IsBest i done (some (j, b)) (m ∷ ms) e h =
    let best' : Option (ℕ × Measurement) =
      if is_empty m.err && ltb m.median b.median then some (i, m) else some (j, b) in
    let step =
      if_ind (IsBest (done ++ m ∷ [])) (is_empty m.err && ltb m.median b.median)
        (λ t.
          let (s, less) = both (is_empty m.err) m.median b.median t in
          (
            rw e (get_elem?-last done m),
            s,
            All-append _ done (m ∷ []) (All-slower m b done (omega arith) h.2)
                ((λ _. omega arith), tt),
          ))
        (λ f. (
          get_elem?-append done (m ∷ []) j h.0,
          h.1,
          All-append _ done (m ∷ []) h.2
              ((λ s. not_less (is_empty m.err) m.median b.median f s), tt),
        )) in
    subst (λ (l : List Measurement). IsBest l (fastest_from (suc i) best' ms))
      (append_assoc done (m ∷ []) ms)
      (fastest_from-IsBest (suc i) (done ++ m ∷ []) best' ms
        (omega (arith, length-append done (m ∷ []))) step)
  where
    both : (a : Bool) (x y : ℕ) → (a && ltb x y) ≡ true → (a ≡ true) × (suc x ≤ y)
    both a x y h = ground arith

    not_less : (a : Bool) (x y : ℕ) → (a && ltb x y) ≡ false → a ≡ true → y ≤ x
    not_less a x y h k = ground arith

-- `Fastest` gives the index of a measurement without an error whose median is the least of those
-- without an error, or -1, and then every measurement has an error.
pub fastest-IsBest :
    (ms : List Measurement)
    → (best : Option (ℕ × Measurement)) × (fastest ms ≡ index_of best) × IsBest ms best
unfolding fastest
fastest-IsBest ms = (fastest_from 0 none ms, refl, fastest_from-IsBest 0 [] none ms refl tt)
