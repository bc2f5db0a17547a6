-- ===== src/Seed/Orders/Rows.antt =====
-- internal/seed/orders.go: the rows of an order.
use duckstore.Prelude.{
  ℕ, ◌+◌, ◌-◌, ◌*◌, ◌^◌, Bool, true, false, not, List, [], ◌∷◌, ◌++◌, Option, none, some, length,
  ltb, take, replicate, map, if◌then◌else◌,
}
use duckstore.Prelude.Int.{ℤ, pos, ◌-ℤ◌, ◌*ℤ◌, div_ℕ, int64}
use duckstore.Prelude.Text.Decimal.{decimal}
use duckstore.Prelude.Text.{Text, codes, equal}
use duckstore.Seed.Emit.{Emit, pure, ◌>>=◌, ◌>>◌, int_n, coin, add_row, normal, pick}
use duckstore.Seed.Orders.{OrderLine, ReturnStatus, ReturnRow, ReviewRow, Out, has, review_key}
use duckstore.Seed.Orders.Journey.{Journey, day}
use duckstore.Seed.Slug.{slugify}
use duckstore.Store.Carts.{clamp}
use duckstore.Store.Checkout.{upper}
use duckstore.Store.Tables.{
  Order, OrderStatus, OrderItem, Payment, PaymentStatus, Shipment, ShipmentStatus,
}

-- `s.orders.add`
unfoldable pub add_order : Order → Emit Out (Unit {0})
add_order r = add_row (λ o. o) (λ o. record o { orders = r ∷ o.orders })

abbrev pub item_of : ℕ → ℕ → ℕ → OrderLine → OrderItem
item_of order warehouse line_no l = record {
  order = order;
  line_no = line_no;
  product = l.product + 1;
  warehouse = warehouse;
  quantity = l.qty;
  unit_price = l.unit;
  discount = l.disc;
}

unfoldable pub add_item : OrderItem → Emit Out (Unit {0})
add_item r = add_row (λ o. o) (λ o. record o { items = r ∷ o.items })

-- The loop over the lines, `line_no` being `i+1`.
unfoldable pub add_items : ℕ → ℕ → ℕ → List OrderLine → Emit Out (Unit {0})
unfolding add_item
add_items order warehouse line_no [] = pure tt
add_items order warehouse line_no (l ∷ ls) =
    add_item (item_of order warehouse line_no l) >> add_items order warehouse (line_no + 1) ls

abbrev pub payment_of : ℕ → Text → PaymentStatus → ℤ → ℕ → Payment
payment_of order method status amount at = record {
  order = order;
  method = method;
  status = status;
  amount = amount;
  paid_at = at;
}

-- `addPayment`
unfoldable pub add_payment : Payment → Emit Out (Unit {0})
add_payment r =
    add_row (λ o. record o { payment = o.payment + 1 })
      (λ o. record o { payment = o.payment + 1; payments = (o.payment + 1, r) ∷ o.payments })

abbrev pub methods : List Text
methods = codes "card" ∷ codes "paypal" ∷ codes "bank_transfer" ∷ codes "gift_card" ∷ []

unfoldable pub method_of : Text → Emit Out Text
method_of country = (if equal country (codes "BR") then coin else pure false) >>= λ pix.
    if pix then pure (codes "pix") else pick methods

-- The default case of the switch over the payments.
unfoldable pub captured : ℕ → ℕ → Text → ℤ → ℕ → Emit Out (Unit {0})
captured order placed method total paid_at = coin >>= λ again.
    (if again
      then add_payment (payment_of order method PaymentStatus.failed total (placed + 60))
      else pure tt)
    >> add_payment (payment_of order method PaymentStatus.captured total paid_at)

-- The switch over the payments of an order.
unfoldable pub pay : ℕ → ℕ → Text → ℤ → ℕ → OrderStatus → Emit Out (Unit {0})
unfolding add_payment
pay order placed method total paid_at OrderStatus.pending =
    add_payment (payment_of order method PaymentStatus.authorized total (placed + 5))
pay order placed method total paid_at OrderStatus.cancelled = coin >>= λ broken. add_payment (
    payment_of order method (if broken then PaymentStatus.failed else PaymentStatus.refunded) total
      (placed + 60))
pay order placed method total paid_at OrderStatus.paid = captured order placed method total paid_at
pay order placed method total paid_at OrderStatus.shipped =
    captured order placed method total paid_at
pay order placed method total paid_at OrderStatus.delivered =
    captured order placed method total paid_at

-- `"%s%010d"` of the carrier and a number.
unfoldable pub tracking_of : Text → ℕ → Text
unfolding slugify upper decimal
tracking_of carrier n =
    let digits = decimal n in
    map upper (take 2 (slugify carrier)) ++ (replicate (10 - length digits) b'0' ++ digits)

abbrev pub shipment_of : ℕ → Journey → Text → ShipmentStatus → Option ℕ → Option ℕ → Shipment
shipment_of order j tracking status shipped_at delivered_at = record {
  order = order;
  warehouse = j.warehouse;
  carrier = j.carrier;
  tracking = tracking;
  status = status;
  shipped_at = shipped_at;
  delivered_at = delivered_at;
}

unfoldable pub add_shipment : Shipment → Emit Out (Unit {0})
add_shipment r =
    add_row (λ o. record o { shipment = o.shipment + 1 })
      (λ o. record o { shipment = o.shipment + 1; shipments = (o.shipment + 1, r) ∷ o.shipments })

-- The row of `shipments` at each status.
abbrev pub shipment_at : ℕ → Journey → Text → OrderStatus → Shipment
shipment_at order j tracking OrderStatus.paid =
    shipment_of order j tracking ShipmentStatus.preparing none none
shipment_at order j tracking OrderStatus.shipped =
    shipment_of order j tracking ShipmentStatus.in_transit (some j.shipped_at) none
shipment_at order j tracking _ =
    shipment_of order j tracking ShipmentStatus.delivered (some j.shipped_at) (some j.delivered_at)

unfoldable pub ship : ℕ → Journey → OrderStatus → Emit Out (Unit {0})
unfolding add_shipment
ship order j status =
    int_n (10 ^ 10) >>= λ n. add_shipment (shipment_at order j (tracking_of j.carrier n) status)

abbrev pub reasons : List Text
reasons =
    codes "damaged"
    ∷ codes "wrong_item"
    ∷ codes "wrong_size"
    ∷ codes "not_as_described"
    ∷ codes "changed_mind"
    ∷ codes "late_delivery"
    ∷ []

-- `qty*l.unitCents - l.discCents*qty/l.qty`
unfoldable pub refund_of : OrderLine → ℕ → ℤ
refund_of l qty =
    int64 (int64 (pos qty *ℤ l.unit) -ℤ int64 (div_ℕ (int64 (l.disc *ℤ pos qty)) l.qty))

abbrev pub pays_back : ReturnStatus → Bool
pays_back ReturnStatus.refunded = true
pays_back ReturnStatus.approved = true
pays_back _ = false

abbrev pub settled : List ReturnStatus
settled = ReturnStatus.refunded ∷ ReturnStatus.approved ∷ ReturnStatus.rejected ∷ []

unfoldable pub add_return : (ℕ → ReturnRow) → Emit Out (Unit {0})
add_return r =
    add_row (λ o. record o { ret = o.ret + 1 })
      (λ o. record o { ret = o.ret + 1; returns = r (o.ret + 1) ∷ o.returns })

-- The row of a return that is asked for at `asked`.
unfoldable pub return_line : ℕ → ℕ → ℕ → OrderLine → ℕ → Emit Out (Unit {0})
unfolding refund_of add_return
return_line end order line_no l asked = int_n l.qty >>= λ k.
    (if ltb (3 * day) (end - asked) then pick settled else pure ReturnStatus.requested)
    >>= λ status. pick reasons >>= λ reason. add_return (λ id. record {
      id = id;
      order = order;
      line_no = line_no;
      quantity = 1 + k;
      reason = reason;
      status = status;
      refund = if pays_back status then refund_of l (1 + k) else pos 0;
      requested_at = asked;
    })

-- One round of the loop over the returns: whether the line comes back.
unfoldable pub maybe_return : ℕ → ℕ → ℕ → ℕ → OrderLine → Emit Out Bool
unfolding return_line
maybe_return end order delivered_at line_no l = coin >>= λ keeps.
    if keeps
    then pure false
    else int_n (29 * day) >>= λ k.
        let asked = delivered_at + (day + k) in
        if not (ltb asked end)
        then pure false
        else return_line end order line_no l asked >> pure true

-- The loop over the returns, with the lines that it leaves.
unfoldable pub return_lines : ℕ → ℕ → ℕ → ℕ → List OrderLine → Emit Out (List OrderLine)
unfolding maybe_return
return_lines end order delivered_at line_no [] = pure []
return_lines end order delivered_at line_no (l ∷ ls) =
    maybe_return end order delivered_at line_no l >>= λ returned.
    return_lines end order delivered_at (line_no + 1) ls >>= λ ls'.
    pure (record l { returned = returned } ∷ ls')

-- `n.reviewed[key]`, `n.review` and the row.
unfoldable pub add_review : ℕ → (ℕ → ReviewRow) → Emit Out (Unit {0})
add_review key r =
    add_row (λ o. record o { reviewed = key ∷ o.reviewed; review = o.review + 1 })
      (λ o. record o {
        reviewed = key ∷ o.reviewed;
        review = o.review + 1;
        reviews = r (o.review + 1) ∷ o.reviews;
      })

abbrev pub lowered : Bool → ℤ → ℤ
lowered returned r = if returned then r -ℤ pos 2 else r

abbrev pub is_reviewed : ℕ → Emit Out Bool
is_reviewed key s = (some (has (s.out).reviewed key), s)

-- One round of the loop over the reviews.
unfoldable pub maybe_review : ℕ → ℕ → ℕ → OrderLine → Emit Out (Unit {0})
unfolding add_review
maybe_review end customer delivered_at l =
    let key = review_key l.product customer in
    coin >>= λ silent.
    if silent
    then pure tt
    else is_reviewed key >>= λ again.
        if again
        then pure tt
        else int_n (19 * day) >>= λ k.
            let created = delivered_at + (day + k) in
            if not (ltb created end)
            then pure tt
            else normal >>= λ r. add_review key (λ id. record {
              id = id;
              product = l.product + 1;
              customer = customer;
              rating = clamp 1 5 (lowered l.returned r);
              created_at = created;
            })

unfoldable pub review_lines : ℕ → ℕ → ℕ → List OrderLine → Emit Out (Unit {0})
unfolding maybe_review
review_lines end customer delivered_at [] = pure tt
review_lines end customer delivered_at (l ∷ ls) =
    maybe_review end customer delivered_at l >> review_lines end customer delivered_at ls
