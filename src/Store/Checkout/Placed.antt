-- ===== src/Store/Checkout/Placed.antt =====
-- internal/web/checkout.go: the order that `checkout` places, in a description of its own: the
-- rows before and after.
pub mod Stages
pub mod Written
pub mod Outcomes
use duckstore.Prelude.{
  ℕ, ◌+◌, ◌≡◌, ◌⊎◌, inl, inr, refl, sym, ap, ◌∙◌, subst, Bool, true, false, List, [], ◌∷◌, ◌++◌,
  map, Option, none, some, if_ind, if◌then◌else◌,
}
use duckstore.Prelude.Text.Decimal.{decimal}
use duckstore.Prelude.Text.{Text, codes, trim_space, is_empty}
use duckstore.Store.Carts.{View, placed, refused, find_cart}
use duckstore.Store.Float.{Float}
use duckstore.Store.Tables.{
  Address, Order, OrderStatus, Payment, PaymentStatus, Promotion, Shipment, ShipmentStatus, Db,
}
use duckstore.Store.Tx.{
  Result, ok, err, Error, user, no_rows, not_found, violation, connection, UserError, World, Tx,
}
use duckstore.Store.Tx.Laws.{
  SameClock, SameClock-trans, Pair-eq, bind-eq-ok, fail_if-eq-ok, statement-eq-ok, exec-eq-ok,
  exec_check-eq-ok, query-eq-ok,
}
use duckstore.Store.Checkout.Reads.{
  Line, cart_lines, Promo, no_promo, find_promotion, covered, is_nil, read_promotion, stock_rows,
  preferred,
}
use duckstore.Store.Checkout.Allocate.{Taken, allocated, allocate, covers, take_rows, take_stock}
use duckstore.Store.Checkout.Money.{Customer, Priced, price_lines, Amounts, amounts}
use duckstore.Store.Checkout.Writes.{
  shipping_address, totals_allowed, insert_order, order_rows, rows_allowed, insert_items,
  insert_payment, shipment_rows, insert_shipments, without_cart, empty_cart,
}
use duckstore.Store.Checkout.{
  products_of, lock_cart, allocate_lines, write_order, method_of, answer, upper, place_order,
  checkout,
}

-- The row of `orders`.
abbrev pub order_row : ℕ → ℕ → ℕ → Text → Promo → Amounts → ℕ → Order
order_row id customer address currency promo a now = record {
  id = id;
  customer = customer;
  address = address;
  promotion = promo.id;
  status = OrderStatus.paid;
  currency = currency;
  subtotal = a.subtotal;
  discount = a.discount;
  shipping_fee = a.shipping;
  tax = a.tax;
  total = a.total;
  placed_at = now;
  updated_at = now;
}

abbrev pub payment_row : ℕ → Text → Amounts → ℕ → Payment
payment_row id method a now = record {
  order = id;
  method = method;
  status = PaymentStatus.captured;
  amount = a.total;
  paid_at = now;
}

-- A parcel of the order leaves each warehouse; it is not under way yet.
abbrev pub AreParcels : ℕ → List ℕ → List Shipment → Type 0
AreParcels id [] [] = Unit {0}
AreParcels id (w ∷ ws) (s ∷ ss) =
    (s.order ≡ id) × (s.warehouse ≡ w) × (s.status ≡ ShipmentStatus.preparing) × AreParcels id ws ss
AreParcels id _ _ = ⊥

-- The promotion of a code: none for the empty code, or else the active one with this code, for the
-- products of the cart that it covers.
abbrev pub IsPromo : Text → List ℕ → ℕ → Db → Promo → Type 0
IsPromo code products now d promo =
    ((is_empty code ≡ true) × (promo ≡ no_promo))
    ⊎ ((p : Promotion) × (find_promotion code now d.promotions ≡ some p)
        × (is_nil (covered p.id products d.promotion_products) ≡ false)
        × (promo ≡ record {
          id = some p.id;
          pct = p.pct;
          products = covered p.id products d.promotion_products;
        }))

-- The choices of a checkout that succeeded: what it read, and what it decided from that.
pub record Choices : Type 0 where
  pub cart : ℕ
  pub lines : List Line
  pub promo : Promo
  pub taken : List Taken
  pub ships : List ℕ
  pub address : ℕ
  pub shipments : List Shipment

module _ (fl : Float) where
  abbrev pub prices : Customer (fl.F) → Choices → List Priced
  prices c ch = price_lines fl c ch.promo ch.taken

  -- The rows after the checkout, all that it writes.
  abbrev pub after : Customer (fl.F) → Text → Choices → ℕ → ℕ → Db → Db
  after c method ch id now d =
      let a = amounts fl c (prices c ch) in
      record d {
        inventory = take_rows now ch.taken d.inventory;
        orders = d.orders ++ order_row id c.id ch.address c.currency ch.promo a now ∷ [];
        order_items = d.order_items ++ order_rows id 0 (prices c ch);
        payments = d.payments ++ payment_row id method a now ∷ [];
        shipments = d.shipments ++ ch.shipments;
        cart_items = without_cart ch.cart d.cart_items;
      }

  -- The order `id` was placed at the time `now`.
  pub record Placed (c : Customer (fl.F)) (method code : Text) (id now : ℕ) (d d' : Db)
      : Type 0 where
    pub choices : Choices
    pub of_customer : find_cart c.id d.carts ≡ some choices.cart
    pub of_cart : choices.lines ≡ cart_lines choices.cart d.products d.cart_items
    pub not_empty : is_nil choices.lines ≡ false
    pub by_code : IsPromo code (products_of choices.lines) now d choices.promo
    pub in_stock :
        allocate
          (stock_rows (products_of choices.lines) d.inventory)
          (preferred c.country d.countries d.warehouses)
          []
          choices.lines
        ≡ allocated choices.taken choices.ships
    pub enough : covers choices.taken d.inventory ≡ true
    pub lives :
        (a : Address) × (shipping_address c.id d.addresses ≡ some a) × (choices.address ≡ a.id)
    pub totals : totals_allowed (amounts fl c (prices c choices)) ≡ true
    pub lines_fit : rows_allowed (prices c choices) ≡ true
    pub parcels : AreParcels id choices.ships choices.shipments
    pub written : d' ≡ after c method choices id now d
