-- ===== src/Seed/Prices/Dates.antt =====
-- internal/seed/generator.go: `priceAt` finds the last price that holds at a time.
use duckstore.Prelude.{
  ℕ, suc, ◌≤◌, ◌≡◌, inl, inr, refl, sym, ap, ◌∙◌, Bool, true, false, List, [], ◌∷◌, Option, some,
  arith, get_elem?, ltb, ◌==◌, if◌then◌else◌, Bool-cases, All,
}
use duckstore.Seed.Prices.{PricePoint, search, cents_of, starts_at, price_from, price_at}

-- The points are in the order of `from`, no two at once.
abbrev pub IsOrdered : List PricePoint → Type 0
IsOrdered [] = Unit {0}
IsOrdered (p ∷ ps) = All (λ (q : PricePoint). suc p.from ≤ q.from) ps × IsOrdered ps

-- The price at a time by its meaning: that of the last point not after it, where `before` is the
-- price so far.
unfoldable pub last_price : ℕ → ℕ → List PricePoint → ℕ
last_price t before [] = before
last_price t before (p ∷ ps) = last_price t (if ltb t p.from then before else p.cents) ps

later_only :
    (t before : ℕ) (ps : List PricePoint)
    → All (λ (q : PricePoint). suc t ≤ q.from) ps
    → last_price t before ps ≡ before
unfolding last_price
later_only t before [] h = refl
later_only t before (p ∷ ps) h = rw ((after t p.from h.0), last_price) (later_only t before ps h.1)
  where
    after : (t n : ℕ) → suc t ≤ n → ltb t n ≡ true
    after t n h = ground arith

-- `price_from` on the points from the one before the index on.
found : ℕ → List PricePoint → ℕ → PricePoint → Option ℕ
found t ps i before =
    if starts_at t (get_elem? ps i)
    then cents_of (get_elem? ps i)
    else cents_of (get_elem? (before ∷ ps) i)

All-after :
    (t n : ℕ) (ps : List PricePoint)
    → t ≤ n
    → All (λ (q : PricePoint). suc n ≤ q.from) ps
    → All (λ (q : PricePoint). suc t ≤ q.from) ps
All-after t n [] h k = tt
All-after t n (p ∷ ps) h k = ((let first = k.0 in omega arith), All-after t n ps h k.1)

at_least : (a t : ℕ) → ltb a t ≡ false → t ≤ a
at_least a t h = ground arith

not_before : (a t : ℕ) → ltb a t ≡ true → ltb t a ≡ false
not_before a t h = ground arith

if_true : {A : Type 0} (b : Bool) (x y : A) → b ≡ true → (if b then x else y) ≡ x
if_true b x y h = rw h refl

if_false : {A : Type 0} (b : Bool) (x y : A) → b ≡ false → (if b then x else y) ≡ y
if_false b x y h = rw h refl

not_after : (a t : ℕ) → (a == t) ≡ true → (ltb t a ≡ false) × (t ≤ a)
not_after a t h = ((ground arith), (ground arith))

is_after : (a t : ℕ) → ltb a t ≡ false → (a == t) ≡ false → (ltb t a ≡ true) × (t ≤ a)
is_after a t h k = ((ground arith), (ground arith))

found-last_price :
    (t : ℕ) (before : PricePoint) (ps : List PricePoint)
    → IsOrdered ps
    → found t ps (search t ps) before ≡ some (last_price t before.cents ps)
unfolding found search last_price
found-last_price t before [] h = refl
found-last_price t before (q ∷ qs) h = elim (Bool-cases (ltb q.from t)) [
  | inl less ↦
      ap (λ i. found t (q ∷ qs) i before) (if_true (ltb q.from t) _ _ less)
      ∙ (found-last_price t q qs h.1
          ∙ sym (
              ap (λ b. some (last_price t b qs))
                (if_false (ltb t q.from) _ _ (not_before q.from t less))))
  | inr more ↦
      ap (λ i. found t (q ∷ qs) i before) (if_false (ltb q.from t) _ _ more)
      ∙ elim (Bool-cases (q.from == t)) [
        | inl same ↦
            let (still, low) = not_after q.from t same in
            if_true (q.from == t) _ _ same
            ∙ sym (
                ap (λ b. some (last_price t b qs)) (if_false (ltb t q.from) _ _ still)
                ∙ ap (λ c. some c) (later_only t q.cents qs (All-after t q.from qs low h.0)))
        | inr differs ↦
            let (later, low) = is_after q.from t more differs in
            if_false (q.from == t) _ _ differs
            ∙ sym (
                ap (λ b. some (last_price t b qs)) (if_true (ltb t q.from) _ _ later)
                ∙ ap (λ c. some c) (later_only t before.cents qs (All-after t q.from qs low h.0)))
      ]
]

-- On price points in the order of their dates `priceAt` gives the price of the last point not after
-- the time, and the first price before any.
pub price_at-last_price :
    (t : ℕ) (p : PricePoint) (ps : List PricePoint)
    → IsOrdered (p ∷ ps)
    → price_at t (p ∷ ps) ≡ some (last_price t p.cents ps)
unfolding price_at search found
price_at-last_price t p ps h = elim (Bool-cases (ltb p.from t)) [
  | inl less ↦
      ap (λ i. price_from t (p ∷ ps) i) (if_true (ltb p.from t) _ _ less)
      ∙ found-last_price t p ps h.1
  | inr more ↦
      ap (λ i. price_from t (p ∷ ps) i) (if_false (ltb p.from t) _ _ more)
      ∙ (if_same (p.from == t)
          ∙ sym (
              ap (λ c. some c)
                (later_only t p.cents ps (All-after t p.from ps (at_least p.from t more) h.0))))
]
  where
    if_same : (b : Bool) {x : Option ℕ} → (if b then x else x) ≡ x
    if_same true = refl
    if_same false = refl
