-- ===== src/Store/Checkout/Placed/Written.antt =====
-- internal/web/checkout.go: statements 7 to 10 of `placeOrder`, as the rows that they add when all
-- of them succeeded.
use duckstore.Prelude.{
  ℕ, ◌≡◌, refl, sym, ap, ◌∙◌, subst, true, List, [], ◌∷◌, ◌++◌, Option, none, some, inl, inr,
  Bool-cases, Option-cases,
}
use duckstore.Prelude.Text.{Text}
use duckstore.Store.Tables.{Address, Shipment, Db}
use duckstore.Store.Tx.{ok, World, rand_int_n}
use duckstore.Store.Tx.Laws.{
  ok-injective, bind-eq-ok, statement-eq-ok, exec-eq-ok, exec_check-eq-ok,
}
use duckstore.Store.Checkout.Reads.{Promo}
use duckstore.Store.Checkout.Money.{Priced, Amounts}
use duckstore.Store.Checkout.Writes.{
  shipping_address, totals_allowed, insert_order, order_rows, rows_allowed, insert_items,
  insert_payment, carrier_for, carrier_from, shipment_rows, insert_shipments,
}
use duckstore.Store.Checkout.{write_order}
use duckstore.Store.Checkout.Placed.{order_row, payment_row, AreParcels}
use duckstore.Store.Checkout.Placed.Stages.{Same, Same-trans, pure_Same, pure_eq}

rand_int_n-Same : (n : ℕ) (w : World) {k : ℕ} {w' : World} → rand_int_n n w ≡ (ok k, w') → Same w w'
unfolding rand_int_n
rand_int_n-Same n w h = record {
  db = ap (λ p. p.1.db) (sym h);
  now = ap (λ p. p.1.now) (sym h);
  next_order = ap (λ p. p.1.next_order) (sym h);
}

carrier_from-Same :
    (o : Option (List Text)) (w : World) {r : Text} {w' : World}
    → carrier_from o w ≡ (ok r, w')
    → Same w w'
carrier_from-Same none w h = pure_Same h
carrier_from-Same (some l) w h =
    let (i, w1, a, h1) = bind-eq-ok _ _ w h in Same-trans (rand_int_n-Same _ w a) (pure_Same h1)

-- A row for each warehouse, in the same order.
shipment_rows-eq-ok :
    (order : ℕ) (country : Text) (ships : List ℕ) (w : World) {rows : List Shipment} {w' : World}
    → shipment_rows order country ships w ≡ (ok rows, w')
    → AreParcels order ships rows × Same w w'
unfolding shipment_rows carrier_for
shipment_rows-eq-ok order country [] w {rows} h =
    (subst (AreParcels order []) (pure_eq h) tt, pure_Same h)
shipment_rows-eq-ok order country (wh ∷ whs) w {rows} h =
    let (carrier, w1, a, h1) = bind-eq-ok _ _ w h in
    let (n, w2, b, h2) = bind-eq-ok _ _ w1 h1 in
    let (others, w3, c, h3) = bind-eq-ok _ _ w2 h2 in
    let (parcels, same) = shipment_rows-eq-ok order country whs w2 c in
    (
      subst (AreParcels order (wh ∷ whs)) (pure_eq h3) (refl, refl, refl, parcels),
      Same-trans (carrier_from-Same _ w a)
          (Same-trans (rand_int_n-Same _ w1 b) (Same-trans same (pure_Same h3))),
    )

-- The row of the order, with the customer's address and the next number.
insert_order-eq-ok :
    (customer : ℕ) (currency : Text) (promo : Promo) (a : Amounts) (w : World) {id : ℕ} {w' : World}
    → insert_order customer currency promo a w ≡ (ok id, w')
    → (id ≡ w.next_order)
      × (totals_allowed a ≡ true)
      × ((address : Address) × (shipping_address customer w.db.addresses ≡ some address)
          × (w'.db ≡ record w.db {
            orders = w.db.orders ++ order_row id customer address.id currency promo a w.now ∷ [];
          }))
      × (w'.now ≡ w.now)
unfolding insert_order
insert_order-eq-ok customer currency promo a w {id} {w'} h =
    let (found, clock) = statement-eq-ok _ _ h in
    elim (Option-cases (shipping_address customer w.db.addresses)) [
      | inl e ↦ absurd (let f = rw e at found in cc)
      | inr (address, e) ↦ elim (Bool-cases (totals_allowed a)) [
        | inl t ↦
            let f = ok-injective (rw (e, t) at found) in
            (
              ap (λ p. p.0) (sym f),
              t,
              (address, e, subst (Row address.id) (ap (λ p. p.0) f) (ap (λ p. p.1) (sym f))),
              clock.now,
            )
        | inr t ↦ absurd (let f = rw (e, t) at found in cc)
      ]
    ]
  where
    Row : ℕ → ℕ → Type 0
    Row address n = w'.db ≡ record w.db {
      orders = w.db.orders ++ order_row n customer address currency promo a w.now ∷ [];
    }

compose :
    (f g h k : Db → Db) {d d1 d2 d3 d4 d5 : Db}
    → d1 ≡ f d
    → d2 ≡ g d1
    → d3 ≡ h d2
    → d4 ≡ d3
    → d5 ≡ k d4
    → d5 ≡ k (h (g (f d)))
compose f g h k e1 e2 e3 e4 e5 = rw (e5, e4, e3, e2, e1)

-- The rows that an order of the lines `ps` adds.
abbrev pub Writes :
    ℕ → Text → Text → Promo → Amounts → List Priced → List ℕ → ℕ → Db → Db → ℕ → Type 0
Writes customer currency method promo a ps ships now d d' id =
    (address : Address) × (rows : List Shipment) × (shipping_address customer d.addresses
      ≡ some address)
    × AreParcels id ships rows
    × (d' ≡ record d {
      orders = d.orders ++ order_row id customer address.id currency promo a now ∷ [];
      order_items = d.order_items ++ order_rows id 0 ps;
      payments = d.payments ++ payment_row id method a now ∷ [];
      shipments = d.shipments ++ rows;
    })

pub write_order-eq-ok :
    (customer : ℕ) (country currency method : Text) (promo : Promo) (a : Amounts) (ps : List Priced)
    (ships : List ℕ) (w : World) {id : ℕ} {w' : World}
    → write_order customer country currency method promo a ps ships w ≡ (ok id, w')
    → (id ≡ w.next_order)
      × (totals_allowed a ≡ true)
      × (rows_allowed ps ≡ true)
      × Writes customer currency method promo a ps ships w.now w.db w'.db id
unfolding write_order insert_items insert_payment insert_shipments
write_order-eq-ok customer country currency method promo a ps ships w {id} {w'} h =
    let (order, w1, m1, h1) = bind-eq-ok _ _ w h in
    let (_, w2, m2, h2) = bind-eq-ok _ _ w1 h1 in
    let (_, w3, m3, h3) = bind-eq-ok _ _ w2 h2 in
    let (rows, w4, m4, h4) = bind-eq-ok _ _ w3 h3 in
    let (_, w5, m5, h5) = bind-eq-ok _ _ w4 h4 in
    let (fresh, totals, (address, lives, e1), now1) =
      insert_order-eq-ok customer currency promo a w m1 in
    let (allowed, e2, c2) = exec_check-eq-ok _ _ w1 m2 in
    let (e3, c3) = exec-eq-ok _ w2 m3 in
    let (parcels, same) = shipment_rows-eq-ok order country ships w3 m4 in
    let (e5, c5) = exec-eq-ok _ w4 m5 in
    let pay : ℕ → Db → Db =
      λ n d. record d { payments = d.payments ++ payment_row order method a n ∷ [] } in
    let e3' = e3 ∙ ap (λ n. pay n w2.db) (c2.now ∙ now1) in
    let e5' = ap (λ p. p.1.db) (sym h5) ∙ e5 in
    let is_id = pure_eq h5 in
    (
      sym is_id ∙ fresh,
      totals,
      allowed,
      subst (Writes customer currency method promo a ps ships w.now w.db w'.db) is_id (
        address,
        rows,
        lives,
        parcels,
        compose
            (λ d. record d {
              orders = d.orders ++ order_row order customer address.id currency promo a w.now ∷ [];
            })
            (λ d. record d { order_items = d.order_items ++ order_rows order 0 ps }) (pay w.now)
            (λ d. record d { shipments = d.shipments ++ rows }) e1 e2 e3' same.db e5',
      ),
    )
