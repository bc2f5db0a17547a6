-- ===== src/Store/Orders.antt =====
-- internal/web/checkout.go: `orderAction` moves an order through its lifecycle.
pub mod Steps
pub mod Lifecycle
pub mod Returned
pub mod Restock
pub mod Refund
use duckstore.Prelude.{
  ℕ, ◌+◌, ◌≤◌, ◌≡◌, refl, Bool, true, false, not, ◌&&◌, ◌||◌, List, [], ◌∷◌, ◌++◌, map, Option,
  none, some, ltb, leb, ◌==◌, if◌then◌else◌,
}
use duckstore.Prelude.Int.{ℤ, pos, ◌-ℤ◌, div_ℕ, int64}
use duckstore.Prelude.Text.Decimal.{Parsed, decimal_ℤ, parse_int}
use duckstore.Prelude.Text.{Text, codes, contains, equal}
use duckstore.Store.Carts.{View, Flash, note, refused, atoi, is_id, int_max}
use duckstore.Store.Checkout.Writes.{fits_numeric, numeric_12}
use duckstore.Store.Tables.{
  Stock, Order, OrderItem, Payment, Shipment, Return, OrderStatus, PaymentStatus, ShipmentStatus,
  Db,
}
use duckstore.Store.Tx.{
  Result, ok, err, Error, user, not_found, UserError, only_paid, only_shipped, only_unshipped,
  only_delivered, all_returned, World, Tx, pure, fail, ◌>>=◌, ◌>>◌, fail_if, query_row, exec,
  exec_check, Begin,
}

abbrev pub is_status : OrderStatus → OrderStatus → Bool
is_status OrderStatus.pending OrderStatus.pending = true
is_status OrderStatus.paid OrderStatus.paid = true
is_status OrderStatus.shipped OrderStatus.shipped = true
is_status OrderStatus.delivered OrderStatus.delivered = true
is_status OrderStatus.cancelled OrderStatus.cancelled = true
is_status _ _ = false

-- `SELECT status FROM orders WHERE id = $1 FOR UPDATE`
unfoldable pub status_of : ℤ → List Order → Option OrderStatus
status_of id [] = none
status_of id (o ∷ os) = if is_id id o.id then some o.status else status_of id os

-- `setOrderStatus`
abbrev pub set_row : ℤ → ℕ → OrderStatus → Order → Order
set_row id now status o =
    if is_id id o.id then record o { status = status; updated_at = now } else o

unfoldable pub set_order_status : ℤ → OrderStatus → Tx (Unit {0})
set_order_status id status w =
    exec (λ d. record d { orders = map (set_row id w.now status) d.orders }) w

abbrev pub ship_row : ℤ → ℕ → Shipment → Shipment
ship_row id now s = elim s.status [
  | ShipmentStatus.preparing ↦
      if is_id id s.order
      then record s { status = ShipmentStatus.in_transit; shipped_at = some now }
      else s
  | _ ↦ s
]

-- `case "ship"`
unfoldable pub ship : ℤ → OrderStatus → Tx Text
ship id status = do
  fail_if (not (is_status status OrderStatus.paid)) (user only_paid)
  λ w. exec (λ d. record d { shipments = map (ship_row id w.now) d.shipments }) w
  set_order_status id OrderStatus.shipped
  pure (codes "Order shipped.")

abbrev pub deliver_row : ℤ → ℕ → Shipment → Shipment
deliver_row id now s = elim s.status [
  | ShipmentStatus.in_transit ↦
      if is_id id s.order
      then record s { status = ShipmentStatus.delivered; delivered_at = some now }
      else s
  | _ ↦ s
]

-- `case "deliver"`
unfoldable pub deliver : ℤ → OrderStatus → Tx Text
deliver id status = do
  fail_if (not (is_status status OrderStatus.shipped)) (user only_shipped)
  λ w. exec (λ d. record d { shipments = map (deliver_row id w.now) d.shipments }) w
  set_order_status id OrderStatus.delivered
  pure (codes "Order delivered.")

-- The row of `order_items` that a stock row is joined with.
unfoldable pub item_from : ℤ → ℕ → ℕ → List OrderItem → Option ℕ
item_from id warehouse product [] = none
item_from id warehouse product (i ∷ is) =
    if is_id id i.order && i.warehouse == warehouse && i.product == product
    then some i.quantity
    else item_from id warehouse product is

abbrev pub restock_by : ℕ → Option ℕ → Stock → Stock
restock_by now none s = s
restock_by now (some q) s = record s { on_hand = s.on_hand + q; updated_at = now }

abbrev pub restock_row : ℤ → ℕ → List OrderItem → Stock → Stock
restock_row id now items s = restock_by now (item_from id s.warehouse s.product items) s

unfoldable pub restock_rows : ℤ → ℕ → List OrderItem → List Stock → List Stock
restock_rows id now items [] = []
restock_rows id now items (s ∷ ss) = restock_row id now items s ∷ restock_rows id now items ss

-- The range of `quantity_on_hand` for the rows that are written.
unfoldable pub restock_allowed : ℤ → List OrderItem → List Stock → Bool
restock_allowed id items [] = true
restock_allowed id items (s ∷ ss) =
    leb (restock_row id 0 items s).on_hand int_max && restock_allowed id items ss

unfoldable pub without_shipments : ℤ → List Shipment → List Shipment
without_shipments id [] = []
without_shipments id (s ∷ ss) =
    let others = without_shipments id ss in if is_id id s.order then others else s ∷ others

abbrev pub refund_row : ℤ → Payment → Payment
refund_row id p = elim p.status [
  | PaymentStatus.captured ↦
      if is_id id p.order then record p { status = PaymentStatus.refunded } else p
  | PaymentStatus.authorized ↦
      if is_id id p.order then record p { status = PaymentStatus.refunded } else p
  | _ ↦ p
]

-- `case "cancel"`
unfoldable pub cancel : ℤ → OrderStatus → Tx Text
cancel id status = do
  fail_if (not (is_status status OrderStatus.pending) && not (is_status status OrderStatus.paid))
      (user only_unshipped)
  λ w.
      exec_check (λ d. restock_allowed id d.order_items d.inventory)
        (λ d. record d { inventory = restock_rows id w.now d.order_items d.inventory }) w
  exec (λ d. record d { shipments = without_shipments id d.shipments })
  exec (λ d. record d { payments = map (refund_row id) d.payments })
  set_order_status id OrderStatus.cancelled
  pure (codes "Order cancelled, stock returned and payment refunded.")

abbrev pub is_item : ℤ → ℤ → OrderItem → Bool
is_item id line i = is_id id i.order && is_id line i.line_no

-- The line that a return is about.
unfoldable pub find_item : ℤ → ℤ → List OrderItem → Option OrderItem
find_item id line [] = none
find_item id line (i ∷ is) = if is_item id line i then some i else find_item id line is

-- `coalesce(sum(r.quantity), 0)` of the returns of one line.
unfoldable pub returned : ℕ → ℕ → List Return → ℕ
returned order line [] = 0
returned order line (r ∷ rs) =
    (if r.order == order && r.line_no == line then r.quantity else 0) + returned order line rs

abbrev pub reasons : List Text
reasons =
    codes "damaged"
    ∷ codes "wrong_item"
    ∷ codes "wrong_size"
    ∷ codes "not_as_described"
    ∷ codes "changed_mind"
    ∷ codes "late_delivery"
    ∷ []

unfoldable pub reason_of : Text → Text
reason_of value = if contains reasons value then value else codes "changed_mind"

-- `unitCents - discCents/int64(qty)`: what one unit gives back.
unfoldable pub refund_of : OrderItem → ℤ
refund_of i = int64 (i.unit_price -ℤ div_ℕ i.discount i.quantity)

unfoldable pub insert_return : OrderItem → Text → Tx (Unit {0})
insert_return i reason w =
    let row : Return = record {
      order = i.order;
      line_no = i.line_no;
      quantity = 1;
      reason = reason;
      refund = refund_of i;
      requested_at = w.now;
    } in
    exec_check (λ _. fits_numeric numeric_12 (refund_of i))
      (λ d. record d { returns = d.returns ++ row ∷ [] }) w

-- `case "return"`, with the form values `line_no` and `reason`.
unfoldable pub give_back : ℤ → OrderStatus → Text → Text → Tx Text
give_back id status line_value reason_value = do
  fail_if (not (is_status status OrderStatus.delivered)) (user only_delivered)
  i ← query_row (λ d. find_item id (atoi line_value) d.order_items)
  λ w. fail_if (leb i.quantity (returned i.order i.line_no w.db.returns)) (user all_returned) w
  insert_return i (reason_of reason_value)
  pure (codes "Return registered and refunded.")

-- The `switch action`.
unfoldable pub run_action : ℤ → Text → Text → Text → OrderStatus → Tx Text
run_action id action line_value reason_value status =
    if equal action (codes "ship")
    then ship id status
    else if equal action (codes "deliver")
    then deliver id status
    else if equal action (codes "cancel")
    then cancel id status
    else if equal action (codes "return")
    then give_back id status line_value reason_value
    else fail (not_found (codes "action"))

-- The function that `orderAction` gives to `pgx.BeginFunc`.
unfoldable pub action_tx : ℤ → Text → Text → Text → Tx Text
action_tx id action line_value reason_value = do
  status ← query_row (λ d. status_of id d.orders)
  run_action id action line_value reason_value status

abbrev pub order_page : ℤ → Text
order_page id = codes "/orders/" ++ decimal_ℤ id

abbrev pub action_answer : ℤ → Result Text → World → Result View × World
action_answer id (ok msg) w = (ok (record { redirect = order_page id; flash = note msg }), w)
action_answer id (err (user e)) w = (ok (record { redirect = order_page id; flash = refused e }), w)
action_answer id (err e) w = (err e, w)

-- The path values are `id` and `action`.
unfoldable pub order_action : Begin → Text → Text → Text → Text → Tx View
order_action begin id_value action line_value reason_value w =
    let parsed = parse_int id_value in
    let (r, w') = begin.run (action_tx parsed.value action line_value reason_value) w in
    if parsed.valid then action_answer parsed.value r w' else (err (not_found (codes "order")), w)
