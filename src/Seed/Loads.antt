-- ===== src/Seed/Loads.antt =====
-- internal/seed/seed.go: the rows of the tables that `copyReference` loads with loops of its own.
pub mod Nested
pub mod Versions
pub mod Unique
use duckstore.Prelude.{
  ℕ, zero, suc, ◌+◌, ◌-◌, ◌*◌, ◌%◌, Bool, true, false, List, [], ◌∷◌, Option, none, some, get_elem?,
  length, ltb, leb, ◌==◌, if◌then◌else◌,
}
use duckstore.Prelude.Text.{Text, codes}
use duckstore.Seed.Emit.{Emit, pure, ◌>>=◌, int_n, any_int, coin}
use duckstore.Seed.Orders.{has}
use duckstore.Seed.Prices.{PricePoint}

-- The two counters of an iterator over groups of rows, the outer one with the groups from it on.
pub record Cursor (G : Type 0) : Type 0 where
  pub group : ℕ
  pub left : List G
  pub item : ℕ

module _ {G R : Type 0} (size : G → ℕ) (row : ℕ → G → ℕ → R) where
  -- The loop to the next group that has a row left.
  unfoldable pub skip : ℕ → List G → ℕ → Cursor G
  skip group [] item = record { group = group; left = []; item = item }
  skip group (g ∷ gs) item =
      let later = skip (group + 1) gs 0 in
      if leb (size g) item then later else record { group = group; left = g ∷ gs; item = item }

  abbrev pub give : ℕ → List G → ℕ → Option R × Cursor G
  give group [] item = (none, record { group = group; left = []; item = item })
  give group (g ∷ gs) item =
      (some (row group g item), record { group = group; left = g ∷ gs; item = item + 1 })

  -- The function given to `copyIter`: the next row, or none.
  unfoldable pub next_nested : Cursor G → Option R × Cursor G
  unfolding skip
  next_nested c = let c' = skip c.group c.left c.item in give c'.group c'.left c'.item

  abbrev pub with_row : Option R → Option (List R) → Option (List R)
  with_row none rows = some []
  with_row (some r) none = none
  with_row (some r) (some rows) = some (r ∷ rows)

  -- What COPY gets from it by `copyIter`. One round for each row and one for the end are enough.
  unfoldable pub copy_iter : ℕ → Cursor G → Option (List R)
  unfolding next_nested
  copy_iter zero c = none
  copy_iter (suc fuel) c = with_row (next_nested c).0 (copy_iter fuel (next_nested c).1)

-- A row of `product_prices`.
pub record PriceRow : Type 0 where
  pub product : ℕ
  pub valid_from : Option ℕ
  pub valid_to : Option ℕ
  pub cents : Option ℕ

abbrev pub from_of : Option PricePoint → Option ℕ
from_of none = none
from_of (some p) = some p.from

abbrev pub amount_of : Option PricePoint → Option ℕ
amount_of none = none
amount_of (some p) = some p.cents

-- The row of the version `vi`; no next one is no `valid_to`.
abbrev pub price_row_of : ℕ → List PricePoint → ℕ → PriceRow
price_row_of pi prices vi = record {
  product = pi + 1;
  valid_from = from_of (get_elem? prices vi);
  valid_to = from_of (get_elem? prices (vi + 1));
  cents = amount_of (get_elem? prices vi);
}

-- `current` of the row of `products`: none is the panic of a product without a price.
abbrev pub current_cents : List PricePoint → Option ℕ
current_cents prices = amount_of (get_elem? prices (length prices - 1))

-- A row of `promotion_products`, with the product by its index.
abbrev pub promotion_row : ℕ → List ℕ → ℕ → ℕ × Option ℕ
promotion_row pi products k = (pi + 1, get_elem? products k)

-- What the rows of `addresses` take from a customer; the texts are left out.
pub record Living : Type 0 where
  pub addr_id : ℕ
  pub addr_count : ℕ

pub data AddressKind : Type 0 where
  shipping billing : AddressKind

pub record AddressRow : Type 0 where
  pub id : ℕ
  pub customer : ℕ
  pub kind : AddressKind
  pub is_default : Bool

abbrev pub kind_at : ℕ → AddressKind
kind_at k = if k == 1 then billing else shipping

abbrev pub address_row : ℕ → Living → ℕ → AddressRow
address_row ci c k = record {
  id = c.addr_id + k;
  customer = ci + 1;
  kind = kind_at k;
  is_default = ltb k 2;
}

module _ {O R : Type 0} (m : ℕ) (row : ℕ → ℕ → Emit O R) where
  -- The loop over `k` that skips what was drawn before, of `m`; the rows are the newest first.
  unfoldable pub draw_new : ℕ → ℕ → List ℕ → List R → Emit O (List R)
  draw_new zero k seen rows = pure rows
  draw_new (suc n) k seen rows = int_n m >>= λ s.
      if has seen s
      then draw_new n (k + 1) seen rows
      else row s k >>= λ r. draw_new n (k + 1) (s ∷ seen) (r ∷ rows)

-- A row of `product_suppliers`; the cost is a random number.
pub record SupplierRow : Type 0 where
  pub product : ℕ
  pub supplier : ℕ
  pub cost : ℕ
  pub lead_time : ℕ
  pub is_primary : Bool

unfoldable pub supplier_row : {O : Type 0} → ℕ → ℕ → ℕ → Emit O SupplierRow
supplier_row i s k = any_int >>= λ cost. int_n 43 >>= λ days. pure (record {
  product = i + 1;
  supplier = s + 1;
  cost = cost;
  lead_time = 3 + days;
  is_primary = k == 0;
})

-- The rows of the `n` products from `i` on, of `m` suppliers.
unfoldable pub supplier_rows :
    {O : Type 0} → ℕ → ℕ → ℕ → List SupplierRow → Emit O (List SupplierRow)
unfolding draw_new supplier_row
supplier_rows m zero i rows = pure rows
supplier_rows m (suc n) i rows = int_n 3 >>= λ more.
    draw_new m (supplier_row i) (1 + more) 0 [] rows >>= λ rows'. supplier_rows m n (i + 1) rows'

-- A row of `inventory`.
pub record StockRow : Type 0 where
  pub warehouse : ℕ
  pub product : ℕ
  pub on_hand : ℕ
  pub reorder_point : ℕ
  pub updated_at : ℕ

unfoldable pub stock_row : {O : Type 0} → ℕ → Bool → ℕ → ℕ → ℕ → Emit O StockRow
stock_row end popular i w k = int_n 200 >>= λ few.
    (if popular then (int_n 750 >>= λ q. pure (50 + q)) else pure few) >>= λ qty. coin >>= λ is_out.
    int_n 46 >>= λ reorder. pure (record {
      warehouse = w + 1;
      product = i + 1;
      on_hand = if is_out then 0 else qty;
      reorder_point = 5 + reorder;
      updated_at = end;
    })

-- The rows of the products from `i` on, each with whether its rank is below 1000, of `m` warehouses.
unfoldable pub stock_rows_of :
    {O : Type 0} → ℕ → ℕ → List Bool → ℕ → List StockRow → Emit O (List StockRow)
unfolding draw_new stock_row
stock_rows_of end m [] i rows = pure rows
stock_rows_of end m (popular ∷ products) i rows = int_n 3 >>= λ more.
    draw_new m (stock_row end popular i) (2 + more) 0 [] rows >>= λ rows'.
    stock_rows_of end m products (i + 1) rows'
