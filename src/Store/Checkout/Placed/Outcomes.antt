-- ===== src/Store/Checkout/Placed/Outcomes.antt =====
-- internal/web/checkout.go: `placeOrder` and `checkout` place the order as described, or change
-- nothing.
use duckstore.Prelude.{
  ℕ, ◌≡◌, inl, inr, refl, sym, ap, ◌∙◌, subst, true, List, [], ◌∷◌, ◌++◌, map, some,
}
use duckstore.Prelude.Text.Decimal.{decimal}
use duckstore.Prelude.Text.{Text, codes, trim_space}
use duckstore.Store.Carts.{View, placed, refused}
use duckstore.Store.Float.{Float}
use duckstore.Store.Tables.{Address, Shipment, Db}
use duckstore.Store.Tx.{
  Result, ok, err, Error, user, no_rows, not_found, violation, connection, UserError, World, Begin,
}
use duckstore.Store.Tx.Laws.{Pair-eq, bind-eq-ok, exec-eq-ok, exec_check-eq-ok}
use duckstore.Store.Tx.Commits.{Commits}
use duckstore.Store.Checkout.Reads.{Promo, stock_rows, preferred}
use duckstore.Store.Checkout.Allocate.{Taken, allocated, allocate, covers, take_rows, take_stock}
use duckstore.Store.Checkout.Money.{Customer, Priced, price_lines, Amounts, amounts}
use duckstore.Store.Checkout.Writes.{
  shipping_address, totals_allowed, rows_allowed, order_rows, without_cart, empty_cart,
}
use duckstore.Store.Checkout.{
  products_of, method_of, answer, upper, write_all, place_order, checkout,
}
use duckstore.Store.Checkout.Placed.{order_row, payment_row, AreParcels, IsPromo, after, Placed}
use duckstore.Store.Checkout.Placed.Stages.{
  Same, Same-trans, clock_Same, pure_eq, lock_cart-eq-ok, read_promotion-eq-ok,
  allocate_lines-eq-ok,
}
use duckstore.Store.Checkout.Placed.Written.{Writes, write_order-eq-ok}

module _ (customer : ℕ) (currency method : Text) (promo : Promo) (a : Amounts) (ps : List Priced)
    (ships : List ℕ) where
  -- The stock is taken, the order is written, and the cart is emptied.
  all_written :
      (cart : ℕ) (ts : List Taken) (now id : ℕ) (d d4 d5 d6 : Db)
      → d4 ≡ record d { inventory = take_rows now ts d.inventory }
      → Writes customer currency method promo a ps ships now d4 d5 id
      → d6 ≡ record d5 { cart_items = without_cart cart d5.cart_items }
      → (address : Address) × (rows : List Shipment) × (shipping_address customer d.addresses
          ≡ some address)
        × AreParcels id ships rows
        × (d6 ≡ record d {
          inventory = take_rows now ts d.inventory;
          orders = d.orders ++ order_row id customer address.id currency promo a now ∷ [];
          order_items = d.order_items ++ order_rows id 0 ps;
          payments = d.payments ++ payment_row id method a now ∷ [];
          shipments = d.shipments ++ rows;
          cart_items = without_cart cart d.cart_items;
        })
  all_written cart ts now id d d4 d5 d6 e4 written e6 =
      let (address, rows, lives, parcels, e5) =
        subst (λ (x : Db). Writes customer currency method promo a ps ships now x d5 id) e4
          written in
      (
        address,
        rows,
        lives,
        parcels,
        e6 ∙ ap (λ (x : Db). record x { cart_items = without_cart cart x.cart_items }) e5,
      )

-- A fact of a state that is the same is a fact of the state before.
back : {w w1 : World} (P : ℕ → Db → Type 0) → Same w w1 → P w1.now w1.db → P w.now w.db
back {w} {w1} P s h = subst (λ (n : ℕ). P n w.db) s.now (subst (λ (d : Db). P w1.now d) s.db h)

module _ (fl : Float) where
  -- What the statements 6 to 11 did.
  abbrev WritesAll :
      Customer (fl.F) → Text → ℕ → Promo → List Taken → List ℕ → ℕ → Db → Db → ℕ → Type 0
  WritesAll c method cart promo ts ships now d d' id =
      (covers ts d.inventory ≡ true)
      × (totals_allowed (amounts fl c (price_lines fl c promo ts)) ≡ true)
      × (rows_allowed (price_lines fl c promo ts) ≡ true)
      × ((address : Address) × (rows : List Shipment) × (shipping_address c.id d.addresses
            ≡ some address)
          × AreParcels id ships rows
          × (d'
              ≡ after fl c method
                  (record {
                    cart = cart;
                    lines = [];
                    promo = promo;
                    taken = ts;
                    ships = ships;
                    address = address.id;
                    shipments = rows;
                  })
                  id now d))

  write_all-eq-ok :
      (c : Customer (fl.F)) (method : Text) (cart : ℕ) (promo : Promo) (ts : List Taken)
      (ships : List ℕ) (w : World) {id : ℕ} {w' : World}
      → write_all fl c method cart promo ts ships w ≡ (ok id, w')
      → (id ≡ w.next_order) × WritesAll c method cart promo ts ships w.now w.db w'.db id
  unfolding write_all take_stock empty_cart
  write_all-eq-ok c method cart promo ts ships w {id} {w'} h =
      let (_, w4, m4, h4) = bind-eq-ok _ _ w h in
      let (order, w5, m5, h5) = bind-eq-ok _ _ w4 h4 in
      let (_, w6, m6, h6) = bind-eq-ok _ _ w5 h5 in
      let (enough, e4, c4) = exec_check-eq-ok _ _ w m4 in
      let ps = price_lines fl c promo ts in
      let (fresh, totals, fit, written) =
        write_order-eq-ok c.id c.country c.currency method promo (amounts fl c ps) ps ships w4 m5 in
      let (e6, c6) = exec-eq-ok _ w5 m6 in
      let written' =
        subst
          (λ (n : ℕ).
            Writes c.id c.currency method promo (amounts fl c ps) ps ships n w4.db w5.db order)
          c4.now written in
      let (address, rows, lives, parcels, e) =
        all_written c.id c.currency method promo (amounts fl c ps) ps ships cart ts w.now order w.db
          w4.db w5.db w6.db e4 written' e6 in
      let is_id = pure_eq h6 in
      (
        sym is_id ∙ fresh ∙ c4.next_order,
        subst (WritesAll c method cart promo ts ships w.now w.db w'.db) is_id
            (enough, totals, fit, (address, rows, lives, parcels, ap (λ p. p.1.db) (sym h6) ∙ e)),
      )

  -- When the function of the transaction succeeds, it has placed the order, under the next number.
  place_order-Placed :
      (c : Customer (fl.F)) (method code : Text) (w : World) {id : ℕ} {w' : World}
      → place_order fl c method code w ≡ (ok id, w')
      → (id ≡ w.next_order) × Placed fl c method code id w.now w.db w'.db
  unfolding place_order
  place_order-Placed c method code w {id} {w'} h =
      let (r, w1, m1, h1) = bind-eq-ok _ _ w h in
      let (promo, w2, m2, h2) = bind-eq-ok _ _ w1 h1 in
      let (q, w3, m3, h3) = bind-eq-ok _ _ w2 h2 in
      let (found, lines, nonempty, s1) = lock_cart-eq-ok c.id w m1 in
      let (promotion, s2) = read_promotion-eq-ok code (products_of r.1) w1 m2 in
      let (in_stock, s3) = allocate_lines-eq-ok c.country r.1 w2 m3 in
      let (fresh, all) = write_all-eq-ok c method r.0 promo q.0 q.1 w3 h3 in
      let s12 = Same-trans s1 s2 in
      let s123 = Same-trans s12 s3 in
      let (enough, totals, fit, (address, rows, lives, parcels, e)) =
        back (λ n d. WritesAll c method r.0 promo q.0 q.1 n d w'.db id) s123 all in
      (
        fresh ∙ s123.next_order,
        record {
          choices = record {
            cart = r.0;
            lines = r.1;
            promo = promo;
            taken = q.0;
            ships = q.1;
            address = address.id;
            shipments = rows;
          };
          of_customer = found;
          of_cart = lines;
          not_empty = nonempty;
          by_code = back (λ n d. IsPromo code (products_of r.1) n d promo) s1 promotion;
          in_stock =
              back
                (λ n d.
                  allocate (stock_rows (products_of r.1) d.inventory)
                    (preferred c.country d.countries d.warehouses) [] r.1
                  ≡ allocated q.0 q.1)
                s12 in_stock;
          enough = enough;
          lives = (address, lives, refl);
          totals = totals;
          lines_fit = fit;
          parcels = parcels;
          written = e;
        },
      )

  -- What `checkout` may answer, and the rows that go with the answer.
  pub data Outcome (c : Customer (fl.F)) (method code : Text) (id now : ℕ) (d : Db)
      : Result View → Db → Type 0 where
    failed : (e : Error) → Outcome c method code id now d (err e) d
    declined :
        (e : UserError)
        → Outcome c method code id now d
            (ok (record { redirect = codes "/cart"; flash = refused e }))
            d
    done :
        {d' : Db}
        → Placed fl c method code id now d d'
        → Outcome c method code id now d
            (ok (record { redirect = codes "/orders/" ++ decimal id; flash = placed id }))
            d'

  abbrev Answers : Customer (fl.F) → Text → Text → World → Result View × World → Type 0
  Answers c method code w p = Outcome c method code w.next_order w.now w.db p.0 p.1.db

  err-Answers :
      (c : Customer (fl.F)) (method code : Text) (w : World) (e : Error) (w' : World)
      → w'.db ≡ w.db
      → Answers c method code w (answer (err e) w')
  err-Answers c method code w (user e) w' same =
      subst (Outcome c method code _ _ w.db _) (sym same) (declined e)
  err-Answers c method code w no_rows w' same =
      subst (Outcome c method code _ _ w.db _) (sym same) (failed no_rows)
  err-Answers c method code w (not_found t) w' same =
      subst (Outcome c method code _ _ w.db _) (sym same) (failed (not_found t))
  err-Answers c method code w violation w' same =
      subst (Outcome c method code _ _ w.db _) (sym same) (failed violation)
  err-Answers c method code w connection w' same =
      subst (Outcome c method code _ _ w.db _) (sym same) (failed connection)

  -- Whatever the cart, the form values and the statements that fail, `checkout` either answers an
  -- error or a refusal and the rows are those of before, or it answers the page of a new order,
  -- and has placed this order and written nothing else.
  pub checkout-Outcome :
      (begin : Begin)
      → Commits begin
      → (c : Customer (fl.F)) (method_value promo_value : Text) (w : World)
      → Outcome c
          (method_of method_value)
          (map upper (trim_space promo_value))
          w.next_order
          w.now
          w.db
          (checkout fl begin c method_value promo_value w).0
          (checkout fl begin c method_value promo_value w).1.db
  unfolding checkout
  checkout-Outcome begin commits c method_value promo_value w =
      let method = method_of method_value in
      let code = map upper (trim_space promo_value) in
      let body = place_order fl c method code in
      let end = (begin.run body w).1 in
      let (w0, rows, clock, ends) = commits.once body w in
      elim ends [
        | inl (same, (e, failed')) ↦
            subst (λ (r : Result ℕ). Answers c method code w (answer r end)) (sym failed')
              (err-Answers c method code w e end same)
        | inr (id, ran, kept, same, _) ↦
            let (fresh, placed') = place_order-Placed c method code w0 (Pair-eq _ _ _ ran refl) in
            let placed'' =
              back (λ n d. Placed fl c method code id n d (body w0).1.db) (clock_Same rows clock)
                placed' in
            let first = fresh ∙ clock.next_order in
            subst (λ (r : Result ℕ). Answers c method code w (answer r end)) (sym kept)
              (subst (λ (n : ℕ). Answers c method code w (answer (ok n) end)) (sym first)
                (done (
                  subst (Placed fl c method code w.next_order w.now w.db) (sym same) (
                    subst (λ (n : ℕ). Placed fl c method code n w.now w.db (body w0).1.db) first
                      placed''))))
      ]
