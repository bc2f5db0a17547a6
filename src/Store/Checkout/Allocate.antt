-- ===== src/Store/Checkout/Allocate.antt =====
-- internal/web/checkout.go: `placeOrder` picks a warehouse for each line and takes the stock.
pub mod Chosen
pub mod Enough
use duckstore.Prelude.{
  ℕ, ◌+◌, ◌-◌, ◌≡◌, refl, Bool, true, false, not, ◌&&◌, ◌||◌, List, [], ◌∷◌, ◌++◌, map, Option,
  none, some, ltb, leb, ◌==◌, if◌then◌else◌,
}
use duckstore.Store.Tables.{Stock, Db}
use duckstore.Store.Tx.{UserError, no_stock, Tx, exec_check}
use duckstore.Store.Checkout.Reads.{Line, mem, stock_at}

-- The inner loop: the most preferred warehouse with enough stock, or 0.
unfoldable pub choose : List Stock → Line → List ℕ → ℕ
choose rows l [] = 0
choose rows l (w ∷ ws) = if leb l.qty (stock_at w l.product rows) then w else choose rows l ws

-- A line and the warehouse that it ships from.
pub record Taken : Type 0 where
  pub line : Line
  pub warehouse : ℕ

pub data Allocation : Type 0 where
  -- the lines with their warehouses, and `shipFrom`
  allocated : List Taken → List ℕ → Allocation
  short : UserError → Allocation

abbrev pub add_taken : Taken → Allocation → Allocation
add_taken t (allocated ts ships) = allocated (t ∷ ts) ships
add_taken t (short e) = short e

-- `if !slices.Contains(shipFrom, w) { shipFrom = append(shipFrom, w) }`
abbrev pub add_ship : ℕ → List ℕ → List ℕ
add_ship w ships = if mem w ships then ships else ships ++ w ∷ []

-- The loop over the lines.
unfoldable pub allocate : List Stock → List ℕ → List ℕ → List Line → Allocation
allocate rows warehouses ships [] = allocated [] ships
allocate rows warehouses ships (l ∷ ls) =
    let w = choose rows l warehouses in
    let others = allocate rows warehouses (add_ship w ships) ls in
    if w == 0
    then short (no_stock l.product l.qty)
    else add_taken (record { line = l; warehouse = w }) others

-- The row of `unnest` that a stock row is joined with.
unfoldable pub taken_from : ℕ → ℕ → List Taken → Option ℕ
taken_from warehouse product [] = none
taken_from warehouse product (t ∷ ts) =
    if t.warehouse == warehouse && t.line.product == product
    then some t.line.qty
    else taken_from warehouse product ts

abbrev pub take_by : ℕ → Option ℕ → Stock → Stock
take_by now none s = s
take_by now (some q) s = record s { on_hand = s.on_hand - q; updated_at = now }

abbrev pub take_row : ℕ → List Taken → Stock → Stock
take_row now ts s = take_by now (taken_from s.warehouse s.product ts) s

unfoldable pub take_rows : ℕ → List Taken → List Stock → List Stock
take_rows now ts [] = []
take_rows now ts (s ∷ ss) = take_row now ts s ∷ take_rows now ts ss

abbrev pub covers_by : Option ℕ → Stock → Bool
covers_by none s = true
covers_by (some q) s = leb q s.on_hand

abbrev pub row_covers : List Taken → Stock → Bool
row_covers ts s = covers_by (taken_from s.warehouse s.product ts) s

-- `CHECK (quantity_on_hand >= 0)` on the rows that are written.
unfoldable pub covers : List Taken → List Stock → Bool
covers ts [] = true
covers ts (s ∷ ss) = row_covers ts s && covers ts ss

-- Statement 6.
unfoldable pub take_stock : List Taken → Tx (Unit {0})
take_stock ts w =
    exec_check (λ d. covers ts d.inventory)
      (λ d. record d { inventory = take_rows w.now ts d.inventory }) w
