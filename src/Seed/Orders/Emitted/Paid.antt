-- ===== src/Seed/Orders/Emitted/Paid.antt =====
-- internal/seed/orders.go: the payments and the shipment of an order keep what the tables want.
use duckstore.Prelude.{ℕ, ◌≤◌, ◌≡◌, refl, true, List, arith, leb}
use duckstore.Prelude.Int.{ℤ}
use duckstore.Prelude.Text.{Text}
use duckstore.Seed.Emit.Reads.{IsIn, draws, int_reads, coin_reads}
use duckstore.Seed.Emit.Triple.{Triple, bind, returns, adds, branches}
use duckstore.Seed.Emit.{Emit}
use duckstore.Seed.Orders.Checks.{
  allowed_methods, IsOrder, IsDue, IsWarehouse, PaymentFits, ShipmentFits, Sound, shipment_allowed,
}
use duckstore.Seed.Orders.Checks.Steps.{skip_payment, next_payment, skip_shipment, next_shipment}
use duckstore.Seed.Orders.Journey.{Journey}
use duckstore.Seed.Orders.Rows.{
  add_payment, payment_of, captured, pay, tracking_of, shipment_at, ship,
}
use duckstore.Seed.Orders.{Gen, Out}
use duckstore.Store.Tables.{Order, OrderItem, OrderStatus, Payment, PaymentStatus}

not_after : (a b : ℕ) → a ≤ b → leb a b ≡ true
not_after a b h = ground arith

-- The three CHECKs hold of the row at each status.
allowed :
    (order : ℕ) (j : Journey) (tracking : Text) (status : OrderStatus)
    → j.shipped_at ≤ j.delivered_at
    → shipment_allowed (shipment_at order j tracking status) ≡ true
allowed order j tracking OrderStatus.pending h = not_after j.shipped_at j.delivered_at h
allowed order j tracking OrderStatus.cancelled h = not_after j.shipped_at j.delivered_at h
allowed order j tracking OrderStatus.paid h = refl
allowed order j tracking OrderStatus.shipped h = refl
allowed order j tracking OrderStatus.delivered h = not_after j.shipped_at j.delivered_at h

module _ {F : Type 0} (g : Gen F) where
  -- The rows are sound up to some order: what is left where it stops.
  pub record Kept (o : Out) : Type 0 where
    pub last : ℕ
    pub sound : Sound g last o

  abbrev pub Holding : {A : Type 0} → (Out → Type 0) → Emit Out A → (A → Out → Type 0) → Type 0
  Holding P m Q = Triple Kept P m Q

  pub kept : {last : ℕ} (o : Out) → Sound g last o → Kept o
  kept {last} o s = record { last = last; sound = s }

  -- What holds of the orders and the items stays.
  abbrev pub With : (List Order → List OrderItem → Type 0) → ℕ → Out → Type 0
  With C last o = Sound g last o × C o.orders o.items

  add_payment-Sound :
      (C : List Order → List OrderItem → Type 0) (last : ℕ) (p : Payment)
      → ((rs : List Order) (is : List OrderItem) → C rs is → PaymentFits rs p)
      → Holding (With C last) (add_payment p) (λ _. With C last)
  unfolding add_payment
  add_payment-Sound C last p fits =
      adds Kept _ _ (λ o s. kept _ (skip_payment g last o s.0))
        (λ o s. (next_payment g last o s.0 p (fits o.orders o.items s.1), s.1))

  -- A payment is made by a method of the table, and it is of the total of its order.
  module _ (C : List Order → List OrderItem → Type 0) (last order placed : ℕ) (method : Text)
      (total : ℤ) (paid_at : ℕ) (known : IsIn allowed_methods method)
      (due : (rs : List Order) (is : List OrderItem) → C rs is → IsDue rs order total) where
    pays-Sound :
        (status : PaymentStatus) (at : ℕ)
        → Holding
            (With C last)
            (add_payment (payment_of order method status total at))
            (λ _. With C last)
    pays-Sound status at = add_payment-Sound C last _ (λ rs is c. (known, due rs is c))

    captured-Sound :
        Holding (With C last) (captured order placed method total paid_at) (λ _. With C last)
    unfolding captured
    captured-Sound =
        draws (λ o p. kept o p.0) coin_reads
          (λ again u.
            bind Kept (branches Kept again (λ e. pays-Sound _ _) (λ e. returns Kept tt (λ o p. p)))
              (λ u. pays-Sound _ _))

    pub pay-Sound :
        (status : OrderStatus)
        → Holding (With C last) (pay order placed method total paid_at status) (λ _. With C last)
    unfolding pay
    pay-Sound OrderStatus.pending = pays-Sound _ _
    pay-Sound OrderStatus.cancelled =
        draws (λ o p. kept o p.0) coin_reads (λ broken u. pays-Sound _ _)
    pay-Sound OrderStatus.paid = captured-Sound
    pay-Sound OrderStatus.shipped = captured-Sound
    pay-Sound OrderStatus.delivered = captured-Sound

  ShipmentFits-at :
      (rs : List Order) (order : ℕ) (j : Journey) (tracking : Text) (status : OrderStatus)
      → j.shipped_at ≤ j.delivered_at
      → IsWarehouse g j.warehouse
      → IsOrder rs order
      → ShipmentFits g rs (shipment_at order j tracking status)
  ShipmentFits-at rs order j tracking OrderStatus.pending le w h =
      (allowed order j tracking OrderStatus.pending le, h, w)
  ShipmentFits-at rs order j tracking OrderStatus.cancelled le w h =
      (allowed order j tracking OrderStatus.cancelled le, h, w)
  ShipmentFits-at rs order j tracking OrderStatus.paid le w h = (refl, h, w)
  ShipmentFits-at rs order j tracking OrderStatus.shipped le w h = (refl, h, w)
  ShipmentFits-at rs order j tracking OrderStatus.delivered le w h =
      (allowed order j tracking OrderStatus.delivered le, h, w)

  pub ship-Sound :
      (C : List Order → List OrderItem → Type 0) (last order : ℕ) (j : Journey)
      (status : OrderStatus)
      → j.shipped_at ≤ j.delivered_at
      → IsWarehouse g j.warehouse
      → ((rs : List Order) (is : List OrderItem) → C rs is → IsOrder rs order)
      → Holding (With C last) (ship order j status) (λ _. With C last)
  unfolding ship
  ship-Sound C last order j status le warehouse placed =
      draws (λ o p. kept o p.0) (int_reads _)
        (λ n u.
          adds Kept _ _ (λ o p. kept _ (skip_shipment g last o p.0))
            (λ o p. (
              next_shipment g last o p.0 _ (
                  ShipmentFits-at o.orders order j (tracking_of j.carrier n) status le warehouse
                    (placed o.orders o.items p.1)),
              p.1,
            )))
