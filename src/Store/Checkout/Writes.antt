-- ===== src/Store/Checkout/Writes.antt =====
-- internal/web/checkout.go: the rows that `placeOrder` writes, statements 7 to 11.
use duckstore.Prelude.{
  ℕ, suc, ◌+◌, ◌-◌, ◌%◌, ◌^◌, Bool, true, ◌&&◌, ◌||◌, List, [], ◌∷◌, ◌++◌, map, Option, none, some,
  length, take, ltb, leb, ◌==◌, if◌then◌else◌,
}
use duckstore.Prelude.Int.{ℤ, ◌+ℤ◌, ◌-ℤ◌, pos_part, neg_part}
use duckstore.Prelude.Text.Decimal.{decimal, pad_zeros}
use duckstore.Prelude.Text.{Text, codes, equal, within}
use duckstore.Store.Tables.{
  Address, Order, OrderItem, Payment, Shipment, OrderStatus, PaymentStatus, ShipmentStatus,
  CartItem,
}
use duckstore.Store.Tx.{
  ok, err, violation, Tx, pure, ◌>>=◌, statement, exec, exec_check, rand_int_n,
}
use duckstore.Store.Checkout.Reads.{Promo}
use duckstore.Store.Checkout.Money.{Priced, Amounts}

-- `x = y` on integers.
abbrev pub eq_ℤ : ℤ → ℤ → Bool
eq_ℤ x y = pos_part x + neg_part y == pos_part y + neg_part x

-- `numeric(n + 2, 2)` holds an amount below `10 ^ n` units of the currency.
abbrev pub fits_numeric : ℕ → ℤ → Bool
fits_numeric limit x = ltb (pos_part x + neg_part x) limit

abbrev pub numeric_14 : ℕ
numeric_14 = 100000000000000

abbrev pub numeric_12 : ℕ
numeric_12 = 1000000000000

-- `ORDER BY is_default DESC, id LIMIT 1`, against the best of the rows behind.
unfoldable pub better_address : Address → Option Address → Option Address
better_address a none = some a
better_address a (some b) =
    if ltb b.is_default a.is_default || a.is_default == b.is_default && leb a.id b.id
    then some a
    else some b

unfoldable pub shipping_address : ℕ → List Address → Option Address
shipping_address customer [] = none
shipping_address customer (a ∷ as') =
    let others = shipping_address customer as' in
    if a.customer == customer && equal a.kind (codes "shipping")
    then better_address a others
    else others

-- The CHECK on the order header, and the range of its columns.
unfoldable pub totals_allowed : Amounts → Bool
totals_allowed a =
    eq_ℤ a.total (a.subtotal -ℤ a.discount +ℤ a.shipping +ℤ a.tax)
    && fits_numeric numeric_14 a.subtotal
    && fits_numeric numeric_14 a.discount
    && fits_numeric numeric_14 a.shipping
    && fits_numeric numeric_14 a.tax
    && fits_numeric numeric_14 a.total

-- Statement 7. The address must be there: `shipping_address_id` is NOT NULL.
unfoldable pub insert_order : ℕ → Text → Promo → Amounts → Tx ℕ
unfolding shipping_address better_address
insert_order customer currency promo a w =
    let id = w.next_order in
    let w' = record w { next_order = id + 1 } in
    statement
      (λ d. elim (shipping_address customer d.addresses) [
        | none ↦ err violation
        | some address ↦
            let row : Order = record {
              id = id;
              customer = customer;
              address = address.id;
              promotion = promo.id;
              status = OrderStatus.paid;
              currency = currency;
              subtotal = a.subtotal;
              discount = a.discount;
              shipping_fee = a.shipping;
              tax = a.tax;
              total = a.total;
              placed_at = w.now;
              updated_at = w.now;
            } in
            if totals_allowed a
            then ok (id, record d { orders = d.orders ++ row ∷ [] })
            else err violation
      ])
      w'

-- `lineNos[i] = int16(i + 1)`. The 2^16 values of an int16 stand here as 0 to 2^16 - 1, one below 0
-- by what it is above -2^16; it takes a cart of 2^15 lines to reach one.
unfoldable pub order_rows : ℕ → ℕ → List Priced → List OrderItem
order_rows order i [] = []
order_rows order i (p ∷ ps) =
    record {
      order = order;
      line_no = (i + 1) % 2 ^ 16;
      product = p.taken.line.product;
      warehouse = p.taken.warehouse;
      quantity = p.taken.line.qty;
      unit_price = p.unit;
      discount = p.disc;
    }
    ∷ order_rows order (suc i) ps

-- The ranges of the columns, and `CHECK (quantity > 0)`.
unfoldable pub rows_allowed : List Priced → Bool
rows_allowed [] = true
rows_allowed (p ∷ ps) =
    ltb 0 p.taken.line.qty
    && fits_numeric numeric_12 p.unit
    && fits_numeric numeric_12 p.disc
    && rows_allowed ps

-- Statement 8.
unfoldable pub insert_items : ℕ → List Priced → Tx (Unit {0})
insert_items order ps =
    exec_check (λ _. rows_allowed ps)
      (λ d. record d { order_items = d.order_items ++ order_rows order 0 ps })

-- Statement 9.
unfoldable pub insert_payment : ℕ → Text → ℤ → Tx (Unit {0})
insert_payment order method total w =
    let row : Payment = record {
      order = order;
      method = method;
      status = PaymentStatus.captured;
      amount = total;
      paid_at = w.now;
    } in
    exec (λ d. record d { payments = d.payments ++ row ∷ [] }) w

abbrev pub carriers_by_country : List (Text × List Text)
carriers_by_country =
    (codes "US", codes "UPS" ∷ codes "FedEx" ∷ codes "USPS" ∷ [])
    ∷ (codes "CA", codes "Canada Post" ∷ codes "UPS" ∷ [])
    ∷ (codes "MX", codes "Estafeta" ∷ codes "DHL" ∷ [])
    ∷ (codes "BR", codes "Correios" ∷ codes "DHL" ∷ [])
    ∷ (codes "CL", codes "Chilexpress" ∷ codes "DHL" ∷ [])
    ∷ (codes "GB", codes "Royal Mail" ∷ codes "DPD" ∷ [])
    ∷ (codes "DE", codes "DHL" ∷ codes "DPD" ∷ codes "GLS" ∷ [])
    ∷ (codes "FR", codes "DPD" ∷ codes "GLS" ∷ [])
    ∷ (codes "ES", codes "GLS" ∷ codes "DHL" ∷ [])
    ∷ (codes "IT", codes "GLS" ∷ codes "DHL" ∷ [])
    ∷ (codes "NL", codes "DPD" ∷ codes "DHL" ∷ [])
    ∷ (codes "PT", codes "GLS" ∷ codes "DHL" ∷ [])
    ∷ (codes "SE", codes "DHL" ∷ codes "DPD" ∷ [])
    ∷ (codes "JP", codes "Yamato" ∷ codes "DHL" ∷ [])
    ∷ (codes "AU", codes "Australia Post" ∷ codes "DHL" ∷ [])
    ∷ (codes "IN", codes "Blue Dart" ∷ codes "DHL" ∷ [])
    ∷ (codes "SG", codes "Ninja Van" ∷ codes "DHL" ∷ [])
    ∷ []

unfoldable pub carriers_of : Text → List (Text × List Text) → Option (List Text)
carriers_of country [] = none
carriers_of country ((c, l) ∷ m) = if equal c country then some l else carriers_of country m

-- An index of a list that is known to be in range.
unfoldable pub pick : List Text → ℕ → Text
pick [] i = []
pick (x ∷ xs) i = elim i [ ℕ.zero ↦ x | ℕ.suc j ↦ pick xs j ]

abbrev pub carrier_from : Option (List Text) → Tx Text
carrier_from none = pure (codes "DHL")
carrier_from (some l) = rand_int_n (length l) >>= λ i. pure (pick l i)

-- `carrierFor`
unfoldable pub carrier_for : Text → Tx Text
carrier_for country = carrier_from (carriers_of country carriers_by_country)

-- `strings.ToUpper` of an ASCII text.
unfoldable pub ascii_upper : ℕ → ℕ
ascii_upper c = if within b'a' b'z' c then c - 32 else c

-- `strings.ReplaceAll(s, " ", "")`
unfoldable pub without_spaces : Text → Text
without_spaces [] = []
without_spaces (c ∷ s) = let others = without_spaces s in if c == b' ' then others else c ∷ others

unfoldable pub tracking_number : Text → ℕ → Text
unfolding ascii_upper without_spaces
tracking_number carrier n =
    map ascii_upper (take 2 (without_spaces carrier)) ++ pad_zeros 10 (decimal n)

-- The loop over `shipFrom`.
unfoldable pub shipment_rows : ℕ → Text → List ℕ → Tx (List Shipment)
unfolding carrier_for tracking_number
shipment_rows order country [] = pure []
shipment_rows order country (wh ∷ whs) = do
  carrier ← carrier_for country
  n ← rand_int_n 10000000000
  others ← shipment_rows order country whs
  pure (
      record {
        order = order;
        warehouse = wh;
        carrier = carrier;
        tracking = tracking_number carrier n;
        status = ShipmentStatus.preparing;
        shipped_at = none;
        delivered_at = none;
      }
      ∷ others)

-- Statement 10.
unfoldable pub insert_shipments : List Shipment → Tx (Unit {0})
insert_shipments rows = exec (λ d. record d { shipments = d.shipments ++ rows })

unfoldable pub without_cart : ℕ → List CartItem → List CartItem
without_cart cart [] = []
without_cart cart (i ∷ is) =
    let others = without_cart cart is in if i.cart == cart then others else i ∷ others

-- Statement 11.
unfoldable pub empty_cart : ℕ → Tx (Unit {0})
empty_cart cart = exec (λ d. record d { cart_items = without_cart cart d.cart_items })
