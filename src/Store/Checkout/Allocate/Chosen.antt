-- ===== src/Store/Checkout/Allocate/Chosen.antt =====
-- internal/web/checkout.go: what the loop of `placeOrder` over the lines chooses.
use duckstore.Prelude.{
  ℕ, ◌≤◌, ◌<◌, ◌≡◌, ◌≢◌, ◌⊎◌, inl, inr, refl, ap, subst, List, [], ◌∷◌, map, arith, leb, leb→le,
  ==_iff, All, Bool-cases, ◌==◌,
}
use duckstore.Store.Tables.{Stock}
use duckstore.Store.Tx.{UserError}
use duckstore.Store.Checkout.Reads.{Line, stock_at}
use duckstore.Store.Checkout.Allocate.{
  choose, Taken, Allocation, allocated, short, add_ship, allocate,
}

-- The most preferred warehouse with enough stock of a line: those before it have too little.
pub data IsFirst (rows : List Stock) (l : Line) : List ℕ → ℕ → Type 0 where
  here : {w : ℕ} {ws : List ℕ} → l.qty ≤ stock_at w l.product rows → IsFirst rows l (w ∷ ws) w
  later :
      {v w : ℕ} {ws : List ℕ}
      → stock_at v l.product rows < l.qty
      → IsFirst rows l ws w
      → IsFirst rows l (v ∷ ws) w

choose-IsFirst :
    (rows : List Stock) (l : Line) (ws : List ℕ)
    → choose rows l ws ≢ 0
    → IsFirst rows l ws (choose rows l ws)
unfolding choose
choose-IsFirst rows l [] h = absurd (h refl)
choose-IsFirst rows l (w ∷ ws) h = elim (Bool-cases (leb l.qty (stock_at w l.product rows))) [
  | inl e ↦ rw (e, choose) (here (leb→le _ _ e))
  | inr e ↦ rw (e, choose) (later (ground arith) (choose-IsFirst rows l ws (rw (e, choose) at h)))
]

-- Each line goes to the first warehouse that has enough of it.
abbrev pub IsChosen : List Stock → List ℕ → Taken → Type 0
IsChosen rows warehouses t = IsFirst rows t.line warehouses t.warehouse

-- The warehouses in order of first use.
abbrev pub ships_of : List ℕ → List Taken → List ℕ
ships_of ships [] = ships
ships_of ships (t ∷ ts) = ships_of (add_ship t.warehouse ships) ts

abbrev pub lines_of : List Taken → List Line
lines_of = map (λ (t : Taken). t.line)

-- What an allocation is for the lines.
abbrev pub Allocates : List Stock → List ℕ → List ℕ → List Line → List Taken → List ℕ → Type 0
Allocates rows warehouses ships lines ts out =
    (lines_of ts ≡ lines) × All (IsChosen rows warehouses) ts × (ships_of ships ts ≡ out)

Allocation-cases :
    (a : Allocation)
    → ((ts : List Taken) × (out : List ℕ) × (a ≡ allocated ts out))
      ⊎ ((e : UserError) × (a ≡ short e))
Allocation-cases (allocated ts out) = inl (ts, out, refl)
Allocation-cases (short e) = inr (e, refl)

parts : Allocation → List Taken × List ℕ
parts (allocated ts out) = (ts, out)
parts (short e) = ([], [])

-- The loop over the lines keeps them in order and sends each to the first warehouse that has
-- enough of it; `shipFrom` is the warehouses used, in order of first use.
pub allocate-Allocates :
    (rows : List Stock) (warehouses ships : List ℕ) (lines : List Line) {ts : List Taken}
    {out : List ℕ}
    → allocate rows warehouses ships lines ≡ allocated ts out
    → Allocates rows warehouses ships lines ts out
unfolding allocate parts
allocate-Allocates rows warehouses ships [] {ts} {out} h =
    let p = ap parts h in
    let e : [] ≡ ts = ap (λ x. x.0) p in
    subst (λ (us : List Taken). Allocates rows warehouses ships [] us out) e
      (refl, tt, ap (λ x. x.1) p)
allocate-Allocates rows warehouses ships (l ∷ ls) {ts} {out} h =
    elim (Bool-cases (choose rows l warehouses == 0)) [
      | inl e ↦ absurd (let h' = rw (e, allocate) at h in cc)
      | inr e ↦
          elim (Allocation-cases
            (allocate rows warehouses (add_ship (choose rows l warehouses) ships) ls)) [
              | inr (x, a) ↦ absurd (let h' = rw (e, a, allocate) at h in cc)
              | inl (us, out', a) ↦
                  let p = ap parts (rw (e, a, allocate) at h) in
                  let w = choose rows l warehouses in
                  let (same, chosen, shipped) =
                    allocate-Allocates rows warehouses (add_ship w ships) ls a in
                  let first =
                    choose-IsFirst rows l warehouses
                      (λ z. absurd (let e' = (==_iff w 0).1 z in cc)) in
                  subst
                    (λ (q : List Taken × List ℕ). Allocates rows warehouses ships (l ∷ ls) q.0 q.1)
                    p (ap (λ (ms : List Line). l ∷ ms) same, (first, chosen), shipped)
            ]
    ]
