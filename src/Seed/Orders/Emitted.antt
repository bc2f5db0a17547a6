-- ===== src/Seed/Orders/Emitted.antt =====
-- internal/seed/orders.go: `emitOrder`, and `generateOrders` without the float arithmetic that gives
-- the number of orders of a day and their seconds.
pub mod Paid
pub mod Lines
pub mod Reviews
pub mod Written
pub mod Valid
use duckstore.Prelude.{
  ℕ, ◌+◌, Bool, true, false, List, [], ◌∷◌, map, Option, none, some, if◌then◌else◌,
}
use duckstore.Prelude.Text.{Text}
use duckstore.Seed.Emit.{Emit, pure, ◌>>=◌, ◌>>◌, int_n}
use duckstore.Seed.Orders.{Buyer, Gen, Promotion, OrderLine, Out}
use duckstore.Seed.Orders.Journey.{Journey, Stage, journey, stage}
use duckstore.Seed.Orders.Lines.{
  Code, Basket, Totals, choose_code, add_lines, no_lines, totals, promotion_of,
}
use duckstore.Seed.Orders.Picks.{pick_customer}
use duckstore.Seed.Orders.Rows.{
  add_order, add_items, method_of, pay, ship, return_lines, review_lines,
}
use duckstore.Seed.Prices.{active_promotions}
use duckstore.Store.Float.{Float}
use duckstore.Store.Tables.{Order, OrderStatus}

-- The returns and the reviews.
unfoldable pub after_delivery : ℕ → ℕ → ℕ → ℕ → List OrderLine → Emit Out (Unit {0})
after_delivery end order customer delivered_at lines =
    return_lines end order delivered_at 1 lines >>= λ lines'.
    review_lines end customer delivered_at lines'

-- What follows the payments, by the status.
unfoldable pub fulfil : ℕ → ℕ → ℕ → Journey → List OrderLine → OrderStatus → Emit Out (Unit {0})
unfolding after_delivery
fulfil end order customer j lines OrderStatus.pending = pure tt
fulfil end order customer j lines OrderStatus.cancelled = pure tt
fulfil end order customer j lines OrderStatus.paid = ship order j OrderStatus.paid
fulfil end order customer j lines OrderStatus.shipped = ship order j OrderStatus.shipped
fulfil end order customer j lines OrderStatus.delivered =
    ship order j OrderStatus.delivered >> after_delivery end order customer j.delivered_at lines

module _ (fl : Float) (g : Gen (fl.F)) where
  abbrev pub order_of : ℕ → ℕ → Buyer (fl.F) → Code (fl.F) → ℕ → Totals → Stage → Order
  order_of id customer c code placed t st = record {
    id = id;
    customer = customer;
    address = c.addr_id;
    promotion = promotion_of code t.discount;
    status = st.status;
    currency = c.country.currency;
    subtotal = t.subtotal;
    discount = t.discount;
    shipping_fee = t.shipping;
    tax = t.tax;
    total = t.total;
    placed_at = placed;
    updated_at = st.updated;
  }

  -- All rows of an order whose content and journey are known.
  unfoldable pub write_order :
      ℕ
      → ℕ
      → Buyer (fl.F)
      → Code (fl.F)
      → ℕ
      → Basket
      → Totals
      → Journey
      → Stage
      → Emit Out (Unit {0})
  unfolding fulfil
  write_order id customer c code placed b t j st =
      add_order (order_of id customer c code placed t st) >>= λ _.
      add_items id j.warehouse 1 b.lines >>= λ _. method_of c.country.code >>= λ method.
      pay id placed method t.total j.paid_at st.status >>= λ _.
      fulfil g.end id customer j b.lines st.status

  -- `emitOrder`
  unfoldable pub emit_order : ℕ → ℕ → ℕ → List ℕ → Emit Out (Unit {0})
  unfolding write_order
  emit_order id d placed active = pick_customer g d placed >>= λ customer.
      let c = g.customer customer in
      let rate = g.rate_at c.country.currency placed in
      choose_code fl g active >>= λ code. int_n 6 >>= λ k.
      add_lines fl g code rate placed (1 + k) 0 no_lines >>= λ b.
      journey g c.country placed >>= λ j. stage g.end placed j >>= λ st.
      write_order id customer c code placed b (totals fl g c rate b) j st

  -- The loop over the orders of the day `d`, which starts at `start`.
  unfoldable pub emit_day : ℕ → ℕ → List ℕ → List ℕ → ℕ → Emit Out ℕ
  unfolding emit_order
  emit_day d start active [] id = pure id
  emit_day d start active (sec ∷ secs) id =
      emit_order (id + 1) d (start + sec) active >>= λ _. emit_day d start active secs (id + 1)

  -- The loop over the days, each with its number, its start and the seconds of its orders.
  unfoldable pub emit_days : List (ℕ × ℕ × List ℕ) → ℕ → Emit Out ℕ
  unfolding emit_day
  emit_days [] id = pure id
  emit_days ((d, start, secs) ∷ days) id =
      emit_day d start
        (active_promotions start (map (λ (p : Promotion (fl.F)). p.dates) g.promotions)) secs id
      >>= λ id'. emit_days days id'
