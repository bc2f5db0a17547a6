-- ===== src/Store/Tests.antt =====
-- The theorems on the store at a small state: one customer with two lines in the cart, two
-- warehouses, a paid order, a delivered one.
use duckstore.Prelude.{
  ℕ, ◌+◌, ◌*◌, ◌/◌, ◌%◌, ◌≡◌, refl, true, List, [], ◌∷◌, ◌++◌, map, none, some, arith, ltb, leb,
}
use duckstore.Prelude.Int.{pos, ◌-ℤ◌, ◌+ℤ◌, ◌*ℤ◌, pos_part, int64}
use duckstore.Prelude.Text.Decimal.{parse_int}
use duckstore.Prelude.Text.{codes, trim_space, equal}
use duckstore.Store.Pricing.{PriceText, change_price}
use duckstore.Store.Pricing.Current.{PricesCurrent, change_price-PricesCurrent}
use duckstore.Store.Float.{Float}
use duckstore.Store.Tables.{Stock, Order, OrderStatus, OrderItem, Db}
use duckstore.Store.Tx.{World}
use duckstore.Store.Carts.{cart_add, cart_update}
use duckstore.Store.Carts.Quantities.{LinesFit, cart_add-LinesFit, cart_update-LinesFit}
use duckstore.Store.Checkout.Reads.{Line, mem, stock_rows, stock_at}
use duckstore.Store.Checkout.Allocate.{allocated, allocate, choose, taken_from, covers, take_rows}
use duckstore.Store.Checkout.Allocate.Chosen.{Allocates, allocate-Allocates}
use duckstore.Store.Checkout.Allocate.Enough.{IsKeyed, allocate-covers}
use duckstore.Store.Checkout.Money.{
  Customer, Priced, Amounts, amounts, subtotal_from, discount_from, shipping_cents, tax_cents,
}
use duckstore.Store.Checkout.Money.Totals.{amounts-sums}
use duckstore.Store.Checkout.Writes.{order_rows}
use duckstore.Store.Checkout.{method_of, upper, checkout}
use duckstore.Store.Checkout.Placed.Outcomes.{checkout-Outcome}
use duckstore.Store.Checkout.Placed.Outcomes
use duckstore.Store.Orders.{
  status_of, set_row, ship_row, restock_rows, find_item, returned, refund_of, order_action,
}
use duckstore.Store.Orders.Steps
use duckstore.Store.Orders.Steps.{Step, ships, returns, return_row, order_action-Outcome}
use duckstore.Store.Orders.Lifecycle.{Moved, Step-Moved}
use duckstore.Store.Orders.Returned.{ReturnsFit, Step-ReturnsFit}
use duckstore.Store.Orders.Restock.{taken_of, on_hands, cancel_restores}
use duckstore.Store.Orders.Refund.{refund_of_units}
use duckstore.Store.Tx.Commits.Local.{local, local-Commits}

abbrev stock_example : List Stock
stock_example =
    record { warehouse = 1; product = 7; on_hand = 1; updated_at = 0 }
    ∷ record { warehouse = 2; product = 7; on_hand = 5; updated_at = 0 }
    ∷ record { warehouse = 2; product = 8; on_hand = 9; updated_at = 0 }
    ∷ []

abbrev order_example : ℕ → OrderStatus → Order
order_example id status = record {
  id = id;
  customer = 3;
  address = 4;
  promotion = none;
  status = status;
  currency = codes "USD";
  subtotal = pos 300;
  discount = pos 10;
  shipping_fee = pos 0;
  tax = pos 0;
  total = pos 290;
  placed_at = 0;
  updated_at = 0;
}

abbrev item_example : OrderItem
item_example = record {
  order = 21;
  line_no = 1;
  product = 7;
  warehouse = 2;
  quantity = 3;
  unit_price = pos 100;
  discount = pos 10;
}

abbrev db_example : Db
db_example = record {
  carts = record { id = 5; customer = 3; updated_at = 0 } ∷ [];
  cart_items =
      record { cart = 5; product = 8; quantity = 1 }
      ∷ record { cart = 5; product = 7; quantity = 2 }
      ∷ [];
  products = record { id = 7; price = 1000 } ∷ record { id = 8; price = 250 } ∷ [];
  prices = [];
  inventory = stock_example;
  warehouses =
      record { id = 1; country = codes "US" } ∷ record { id = 2; country = codes "DE" } ∷ [];
  countries =
      record { code = codes "US"; region = codes "NA" }
      ∷ record { code = codes "DE"; region = codes "EU" }
      ∷ [];
  addresses = record { id = 4; customer = 3; kind = codes "shipping"; is_default = 1 } ∷ [];
  promotions =
      record { id = 1; code = codes "TEN"; pct = 1000; starts_at = 0; ends_at = 1000 } ∷ [];
  promotion_products = record { promotion = 1; product = 7 } ∷ [];
  orders = order_example 20 OrderStatus.paid ∷ order_example 21 OrderStatus.delivered ∷ [];
  order_items = item_example ∷ [];
  payments = [];
  shipments = [];
  returns = [];
}

abbrev world_example : World
world_example = record {
  db = db_example;
  now = 500;
  next_cart = 6;
  next_order = 30;
  faults = [];
  draws = 3 ∷ 42 ∷ [];
}

-- Money in whole numbers: exact products, and quotients that round down.
abbrev float_example : Float
float_example = record {
  F = ℕ;
  of_int = λ x. pos_part x;
  mul = λ a b. a * b;
  div = λ a b. a / b;
  less = λ a b. ltb a b;
  round = λ a. pos a;
}

abbrev customer_example : Customer ℕ
customer_example = record {
  id = 3;
  segment = codes "vip";
  country = codes "DE";
  currency = codes "USD";
  tax_rate = 0;
  fx = 1;
}

checkout-Outcome_example :
    Outcomes.Outcome float_example customer_example
      (method_of (codes "paypal"))
      (map upper (trim_space (codes " ten ")))
      30
      500
      db_example
      (checkout float_example local customer_example
        (codes "paypal")
        (codes " ten ")
        world_example).0
      (checkout float_example local customer_example
        (codes "paypal")
        (codes " ten ")
        world_example).1.db
checkout-Outcome_example =
    checkout-Outcome float_example local local-Commits customer_example (codes "paypal")
      (codes " ten ") world_example

order_action-Outcome_example :
    Steps.Outcome
      (parse_int (codes "20")).value
      500
      db_example
      (order_action local (codes "20") (codes "cancel") [] [] world_example).0
      (order_action local (codes "20") (codes "cancel") [] [] world_example).1.db
order_action-Outcome_example =
    order_action-Outcome local local-Commits (codes "20") (codes "cancel") [] [] world_example

-- The order 20 ships.
ships_example : Step (pos 20) 500 db_example (record db_example {
  shipments = map (ship_row (pos 20) 500) db_example.shipments;
  orders = map (set_row (pos 20) 500 OrderStatus.shipped) db_example.orders;
})
unfolding status_of
ships_example = ships refl

Step-Moved_example : Moved (pos 20) db_example (record db_example {
  shipments = map (ship_row (pos 20) 500) db_example.shipments;
  orders = map (set_row (pos 20) 500 OrderStatus.shipped) db_example.orders;
})
Step-Moved_example = Step-Moved (pos 20) 500 db_example _ ships_example

-- A unit of the order 21 comes back.
returns_example :
    Step
      (pos 21)
      500
      db_example
      (record db_example { returns = [] ++ return_row item_example (codes "damaged") 500 ∷ [] })
unfolding status_of find_item returned
returns_example = returns (pos 1) (codes "damaged") refl refl (omega arith)

ReturnsFit_example : ReturnsFit db_example
unfolding returned
ReturnsFit_example id line i h = omega arith

Step-ReturnsFit_example :
    ReturnsFit
      (record db_example { returns = [] ++ return_row item_example (codes "damaged") 500 ∷ [] })
Step-ReturnsFit_example =
    Step-ReturnsFit (pos 21) 500 db_example _ returns_example ReturnsFit_example

abbrev priced_example : List Priced
priced_example =
    record {
      taken = record { line = record { product = 7; qty = 2; price = 1000 }; warehouse = 2 };
      unit = pos 1000;
      disc = pos 200;
    }
    ∷ record {
      taken = record { line = record { product = 8; qty = 1; price = 250 }; warehouse = 2 };
      unit = pos 250;
      disc = pos 0;
    }
    ∷ []

covers_example : covers (taken_of priced_example) stock_example ≡ true
unfolding covers taken_from
covers_example = refl

cancel_restores_example :
    on_hands (
      restock_rows
        (pos 30)
        600
        ((item_example ∷ []) ++ (order_rows 30 0 priced_example ++ []))
        (take_rows 500 (taken_of priced_example) stock_example))
    ≡ 1 ∷ 5 ∷ 9 ∷ []
cancel_restores_example =
    cancel_restores 30 500 600 (item_example ∷ []) [] priced_example stock_example (refl, tt) tt
      covers_example

abbrev lines_example : List Line
lines_example =
    record { product = 7; qty = 2; price = 1000 }
    ∷ record { product = 8; qty = 1; price = 250 }
    ∷ []

allocated_example :
    allocate (stock_rows (7 ∷ 8 ∷ []) stock_example) (1 ∷ 2 ∷ []) [] lines_example
    ≡ allocated (taken_of priced_example) (2 ∷ [])
unfolding allocate choose stock_rows stock_at mem
allocated_example = refl

allocate-Allocates_example :
    Allocates
      (stock_rows (7 ∷ 8 ∷ []) stock_example)
      (1 ∷ 2 ∷ [])
      []
      lines_example
      (taken_of priced_example)
      (2 ∷ [])
allocate-Allocates_example =
    allocate-Allocates (stock_rows (7 ∷ 8 ∷ []) stock_example) (1 ∷ 2 ∷ []) [] lines_example
      allocated_example

IsKeyed_example : IsKeyed stock_example
unfolding stock_at
IsKeyed_example = (refl, (refl, (refl, tt)))

allocate-covers_example : covers (taken_of priced_example) stock_example ≡ true
allocate-covers_example =
    allocate-covers (7 ∷ 8 ∷ []) stock_example (1 ∷ 2 ∷ []) lines_example IsKeyed_example
      allocated_example

amounts-sums_example :
    ((amounts float_example customer_example priced_example).subtotal ≡ pos 2250)
    × ((amounts float_example customer_example priced_example).discount ≡ pos 200)
amounts-sums_example =
    amounts-sums float_example customer_example priced_example ((refl, refl), ((refl, refl), tt))
      (omega arith) (omega arith)

-- What the amounts of the example are.
amounting : Amounts → Amounts
unfolding amounts subtotal_from discount_from shipping_cents tax_cents int64 ◌+ℤ◌ ◌-ℤ◌ ◌*ℤ◌ equal
amounting a = a

amounts_example : amounts float_example customer_example priced_example ≡ record {
  subtotal = pos 2250;
  discount = pos 200;
  shipping = pos 0;
  tax = pos 0;
  total = pos 2050;
}
unfolding amounting
amounts_example = refl

fit_example : LinesFit db_example
fit_example = ((omega arith, omega arith), ((omega arith, omega arith), tt))

cart_add-LinesFit_example : LinesFit (cart_add local 3 (codes "7") (codes "500") world_example).1.db
cart_add-LinesFit_example =
    cart_add-LinesFit local local-Commits 3 (codes "7") (codes "500") world_example fit_example

cart_update-LinesFit_example : LinesFit (cart_update 3 (codes "8") (codes "12") world_example).1.db
cart_update-LinesFit_example =
    cart_update-LinesFit 3 (codes "8") (codes "12") world_example fit_example

-- Three units at 100 less 10: 290 paid, 291 paid back.
refund_of_units_example :
    (r : ℕ) × (refund_of item_example ≡ pos r) × (3 * r + 10 ≡ 3 * 100 + 10 % 3)
refund_of_units_example = refund_of_units item_example 100 10 refl refl (omega arith) (omega arith)

-- Dollars in whole numbers, from one text.
abbrev price_text_example : PriceText ℕ
price_text_example = record {
  parse_float = λ t. some 12;
  at_most = λ a b. leb a b;
  two_places = λ a. codes "12.00";
}

abbrev priced_db : Db
priced_db = record db_example {
  prices =
      record { product = 7; valid_from = 100; valid_to = some 300; price = 900 }
      ∷ record { product = 7; valid_from = 300; valid_to = none; price = 1000 }
      ∷ record { product = 8; valid_from = 100; valid_to = none; price = 250 }
      ∷ [];
}

abbrev priced_world : World
priced_world = record world_example { db = priced_db }

priced_db-PricesCurrent : PricesCurrent priced_db
priced_db-PricesCurrent = (
  ((λ _ e. absurd cc), ((λ _ _. refl), ((λ e _. absurd (omega arith)), tt))),
  (((λ _ e. absurd cc), ((λ e _. absurd (omega arith)), ((λ _ _. refl), tt))), tt),
)

change_price-PricesCurrent_example :
    PricesCurrent
      (change_price float_example price_text_example local
        (codes "7")
        (codes "12")
        priced_world).1.db
change_price-PricesCurrent_example =
    change_price-PricesCurrent float_example price_text_example local local-Commits (codes "7")
      (codes "12") priced_world priced_db-PricesCurrent
