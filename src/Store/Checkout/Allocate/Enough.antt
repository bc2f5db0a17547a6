-- ===== src/Store/Checkout/Allocate/Enough.antt =====
-- internal/web/checkout.go: the UPDATE of the stock in `placeOrder` takes what the loop has found.
use duckstore.Prelude.{
  ℕ, ◌≤◌, ◌≡◌, inl, inr, refl, sym, true, false, ◌&&◌, List, [], ◌∷◌, some, some_inj, arith, ==_iff,
  All, Bool-cases, Option-cases, ◌==◌,
}
use duckstore.Store.Tables.{Stock}
use duckstore.Store.Checkout.Reads.{Line, mem, stock_rows, stock_at}
use duckstore.Store.Checkout.Allocate.{Taken, allocated, allocate, taken_from, covers}
use duckstore.Store.Checkout.Allocate.Chosen.{IsFirst, here, later, IsChosen, allocate-Allocates}

stock_at-stock_rows_zero :
    (w p : ℕ) (ps : List ℕ) (rows : List Stock)
    → mem p ps ≡ false
    → stock_at w p (stock_rows ps rows) ≡ 0
unfolding stock_at stock_rows
stock_at-stock_rows_zero w p ps [] h = refl
stock_at-stock_rows_zero w p ps (s ∷ ss) h = elim (Bool-cases (mem s.product ps)) [
  | inl e ↦ elim (Bool-cases (s.product == p)) [
    | inl q ↦ absurd (let same = (==_iff s.product p).0 q in cc)
    | inr q ↦ rw (e, stock_rows) (let others = stock_at-stock_rows_zero w p ps ss h in ground arith)
  ]
  | inr e ↦ rw (e, stock_rows) (stock_at-stock_rows_zero w p ps ss h)
]

stock_at-stock_rows :
    (w p : ℕ) (ps : List ℕ) (rows : List Stock)
    → stock_at w p (stock_rows ps rows) ≤ stock_at w p rows
unfolding stock_at stock_rows
stock_at-stock_rows w p ps [] = omega arith
stock_at-stock_rows w p ps (s ∷ ss) =
    ground (arith, stock_at-stock_rows w p ps ss, stock_at-stock_rows_zero w p ps ss)

IsFirst-enough :
    (rows : List Stock) (l : Line) (ws : List ℕ) (w : ℕ)
    → IsFirst rows l ws w
    → l.qty ≤ stock_at w l.product rows
IsFirst-enough rows l [] w h = elim h [ ]
IsFirst-enough rows l (w ∷ ws) w' (here h) = h
IsFirst-enough rows l (v ∷ ws) w (later _ h) = IsFirst-enough rows l ws w h

both : (a b c d : ℕ) → (a == b && c == d) ≡ true → (a ≡ b) × (c ≡ d)
both a b c d h = ground arith

-- What is taken from a stock row is what some line needs, and the row has it.
taken_from-enough :
    (rows : List Stock) (w p q : ℕ) (ts : List Taken)
    → All (λ t. t.line.qty ≤ stock_at t.warehouse t.line.product rows) ts
    → taken_from w p ts ≡ some q
    → q ≤ stock_at w p rows
unfolding taken_from
taken_from-enough rows w p q [] h e = absurd cc
taken_from-enough rows w p q (t ∷ ts) h e =
    elim (Bool-cases (t.warehouse == w && t.line.product == p)) [
      | inl here' ↦
          let (a, b) = both t.warehouse w t.line.product p here' in
          let c = some_inj (rw (here', taken_from) at e) in
          let fit = h.0 in rw (sym c, sym a, sym b) fit
      | inr others ↦ taken_from-enough rows w p q ts h.1 (rw (others, taken_from) at e)
    ]

-- A row is the one that its key finds, as the primary key of the table makes it.
abbrev pub IsKeyed : List Stock → Type 0
IsKeyed rows = All (λ s. stock_at s.warehouse s.product rows ≡ s.on_hand) rows

covers-All :
    (rows : List Stock) (ts : List Taken) (ss : List Stock)
    → All (λ t. t.line.qty ≤ stock_at t.warehouse t.line.product rows) ts
    → All (λ s. stock_at s.warehouse s.product rows ≡ s.on_hand) ss
    → covers ts ss ≡ true
unfolding covers
covers-All rows ts [] h k = refl
covers-All rows ts (s ∷ ss) h k =
    let others = covers-All rows ts ss h k.1 in
    elim (Option-cases (taken_from s.warehouse s.product ts)) [
      | inl e ↦ rw (e, others)
      | inr (q, e) ↦
          let fit = taken_from-enough rows s.warehouse s.product q ts h e in
          let row = k.0 in rw (e, others) (ground arith)
    ]

chosen-enough :
    (products : List ℕ) (rows : List Stock) (warehouses : List ℕ) (ts : List Taken)
    → All (IsChosen (stock_rows products rows) warehouses) ts
    → All (λ t. t.line.qty ≤ stock_at t.warehouse t.line.product rows) ts
chosen-enough products rows warehouses [] h = tt
chosen-enough products rows warehouses (t ∷ ts) h = (
  (let a = IsFirst-enough _ t.line warehouses t.warehouse h.0 in
      let b = stock_at-stock_rows t.warehouse t.line.product products rows in omega arith),
  chosen-enough products rows warehouses ts h.1,
)

-- The CHECK that no stock is below 0 never refuses what the loop over the lines has chosen, if no
-- other statement wrote the stock since it was read.
pub allocate-covers :
    (products : List ℕ) (rows : List Stock) (warehouses : List ℕ) (lines : List Line)
    {ts : List Taken} {ships : List ℕ}
    → IsKeyed rows
    → allocate (stock_rows products rows) warehouses [] lines ≡ allocated ts ships
    → covers ts rows ≡ true
allocate-covers products rows warehouses lines {ts} k h =
    let (_, chosen, _) = allocate-Allocates _ warehouses [] lines h in
    covers-All rows ts rows (chosen-enough products rows warehouses ts chosen) k
