-- ===== src/Store/Checkout.antt =====
-- internal/web/checkout.go: `placeOrder` and `checkout`. The children hold its parts; `place_order`
-- runs them in the order of the numbered statements.
pub mod Reads
pub mod Allocate
pub mod Money
pub mod Writes
pub mod Placed
use duckstore.Prelude.{
  ℕ, ◌+◌, ◌≡◌, refl, Bool, true, false, not, ◌&&◌, List, [], ◌∷◌, ◌++◌, map, Option, none, some,
  ◌==◌, if◌then◌else◌,
}
use duckstore.Prelude.Text.Decimal.{decimal}
use duckstore.Prelude.Text.{Text, codes, contains, trim_space}
use duckstore.Store.Carts.{View, placed, refused, find_cart}
use duckstore.Store.Float.{Float}
use duckstore.Store.Tables.{Db}
use duckstore.Store.Tx.{
  Result, ok, err, Error, user, UserError, cart_empty, World, Tx, pure, fail, ◌>>=◌, ◌>>◌, fail_if,
  query_or, query, Begin,
}
use duckstore.Store.Checkout.Reads.{
  Line, cart_lines, Promo, is_nil, read_promotion, stock_rows, preferred,
}
use duckstore.Store.Checkout.Allocate.{Taken, Allocation, allocated, short, allocate, take_stock}
use duckstore.Store.Checkout.Money.{Customer, Priced, price_lines, Amounts, amounts}
use duckstore.Store.Checkout.Writes.{
  insert_order, insert_items, insert_payment, shipment_rows, insert_shipments, empty_cart,
  ascii_upper,
}

-- `strings.ToUpper`, on the letters whose upper case is ASCII; the program compares the result
-- with codes of promotions, which are ASCII.
unfoldable pub upper : ℕ → ℕ
upper c = if c == 0x131 then b'I' else if c == 0x17f then b'S' else ascii_upper c

abbrev pub products_of : List Line → List ℕ
products_of = map (λ (l : Line). l.product)

-- Statement 1 and query 2: the cart and its lines.
unfoldable pub lock_cart : ℕ → Tx (ℕ × List Line)
lock_cart customer = do
  cart ← query_or (user cart_empty) (λ d. find_cart customer d.carts)
  lines ← query (λ d. cart_lines cart d.products d.cart_items)
  fail_if (is_nil lines) (user cart_empty)
  pure (cart, lines)

abbrev pub settled : Allocation → Tx (List Taken × List ℕ)
settled (allocated ts ships) = pure (ts, ships)
settled (short e) = fail (user e)

-- Queries 4 and 5, and the loop that picks the warehouses.
unfoldable pub allocate_lines : Text → List Line → Tx (List Taken × List ℕ)
allocate_lines country lines = do
  stock ← query (λ d. stock_rows (products_of lines) d.inventory)
  warehouses ← query (λ d. preferred country d.countries d.warehouses)
  settled (allocate stock warehouses [] lines)

-- Statements 7 to 10: the order and what hangs on it.
unfoldable pub write_order : ℕ → Text → Text → Text → Promo → Amounts → List Priced → List ℕ → Tx ℕ
write_order customer country currency method promo a ps ships = do
  order ← insert_order customer currency promo a
  insert_items order ps
  insert_payment order method a.total
  rows ← shipment_rows order country ships
  insert_shipments rows
  pure order

abbrev pub methods : List Text
methods =
    codes "card" ∷ codes "paypal" ∷ codes "bank_transfer" ∷ codes "gift_card" ∷ codes "pix" ∷ []

-- The payment method of the form, or else a card.
unfoldable pub method_of : Text → Text
method_of value = if contains methods value then value else codes "card"

abbrev pub answer : Result ℕ → World → Result View × World
answer (ok id) w = (ok (record { redirect = codes "/orders/" ++ decimal id; flash = placed id }), w)
answer (err (user e)) w = (ok (record { redirect = codes "/cart"; flash = refused e }), w)
answer (err e) w = (err e, w)

module _ (fl : Float) where
  -- Statements 6 to 11.
  unfoldable pub write_all : Customer (fl.F) → Text → ℕ → Promo → List Taken → List ℕ → Tx ℕ
  write_all c method cart promo ts ships = do
    take_stock ts
    let ps = price_lines fl c promo ts
    order ← write_order c.id c.country c.currency method promo (amounts fl c ps) ps ships
    empty_cart cart
    pure order

  unfoldable pub place_order : Customer (fl.F) → Text → Text → Tx ℕ
  place_order c method code = do
    (cart, lines) ← lock_cart c.id
    promo ← read_promotion code (products_of lines)
    (ts, ships) ← allocate_lines c.country lines
    write_all c method cart promo ts ships

  -- The form values are `method` and `promo`.
  unfoldable pub checkout : Begin → Customer (fl.F) → Text → Text → Tx View
  checkout begin c method_value promo_value w =
      let code = map upper (trim_space promo_value) in
      let (r, w') = begin.run (place_order c (method_of method_value) code) w in answer r w'
