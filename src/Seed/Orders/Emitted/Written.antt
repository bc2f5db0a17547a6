-- ===== src/Seed/Orders/Emitted/Written.antt =====
-- internal/seed/orders.go: the rows of one order keep what the tables want of them.
use duckstore.Prelude.{
  ℕ, ◌+◌, ◌≤◌, ◌≡◌, refl, sym, ap, ◌∙◌, ◌==◌, false, List, [], ◌∷◌, All, ◌-◌, inl, inr, Option,
  none, some, get_elem?, subst, true, arith,
}
use duckstore.Prelude.Int.{ℤ, pos, ◌+ℤ◌, ◌-ℤ◌, int64}
use duckstore.Prelude.Text.{Text}
use duckstore.Seed.Emit.Reads.{
  Reads, Any, IsIn, draws, then_reads, pure_reads, coin_reads, pick_member, if_reads, weaken_reads,
}
use duckstore.Seed.Emit.Triple.{bind, returns, adds, weaken, strengthen}
use duckstore.Seed.Orders.Checks.{
  allowed_methods, IsDue, IsProduct, IsWarehouse, spent, rebated, OlderAddUp, AllAddUp,
}
use duckstore.Seed.Orders.Checks.Items.{
  Filling, IsNewest, IsNewest-IsDue, IsDue-IsOrder, next_order, All-imp,
}
use duckstore.Seed.Orders.Emitted.{after_delivery, fulfil, order_of, write_order}
use duckstore.Seed.Orders.Emitted.Lines.{IsSold, Carries, add_items-Carries, return_lines-Sound}
use duckstore.Seed.Orders.Emitted.Paid.{Kept, Holding, With, kept, pay-Sound, ship-Sound}
use duckstore.Seed.Orders.Emitted.Reviews.{review_lines-Sound}
use duckstore.Seed.Orders.Journey.Times.{IsOrdered, IsWithin}
use duckstore.Seed.Orders.Journey.{Journey, Stage}
use duckstore.Seed.Orders.Lines.{Code, Basket, Totals, totals}
use duckstore.Seed.Orders.Lines.Fit.{LineFits, Fits}
use duckstore.Seed.Orders.Lines.Sums.{IsSummed}
use duckstore.Seed.Orders.Picks.Launched.{is_on_sale, IsOnSale}
use duckstore.Seed.Orders.Rows.{add_order, add_items, methods, method_of, ship}
use duckstore.Seed.Orders.{Buyer, Product, Gen, OrderLine, Out}
use duckstore.Store.Float.{Float}
use duckstore.Store.Tables.{Order, OrderItem, OrderStatus}

method_reads : (country : Text) → Reads (method_of country) (IsIn allowed_methods)
unfolding method_of
method_reads country =
    then_reads {F = Any} (if_reads _ (λ e. coin_reads) (λ e. pure_reads false tt)) (λ pix u.
      if_reads pix (λ e. pure_reads _ (inr (inr (inr (inr (inl refl))))))
        (λ e. weaken_reads listed (pick_member methods)))
  where
    listed : (m : Text) → IsIn methods m → IsIn allowed_methods m
    listed m (inl e) = inl e
    listed m (inr (inl e)) = inr (inl e)
    listed m (inr (inr (inl e))) = inr (inr (inl e))
    listed m (inr (inr (inr (inl e)))) = inr (inr (inr (inl e)))
    listed m (inr (inr (inr (inr h)))) = absurd h

module _ {F : Type 0} (g : Gen F) where
  sold : (placed pi : ℕ) → IsOnSale g placed pi → IsProduct g (pi + 1)
  sold placed pi h =
      let on_sale =
        subst (λ i. is_on_sale g placed (get_elem? g.products i) ≡ true) (one_more pi) h in
      let (p, e) = exists (get_elem? g.products (pi + 1 - 1)) on_sale in (omega arith, p, e)
    where
      one_more : (n : ℕ) → n ≡ n + 1 - 1
      one_more n = omega arith

      exists : (r : Option Product) → is_on_sale g placed r ≡ true → (p : Product) × (r ≡ some p)
      exists none h = absurd cc
      exists (some p) h = (p, refl)

  -- What holds of the orders and the items stays while the rest of the order is written.
  module _ (C : List Order → List OrderItem → Type 0) (order : ℕ) (total : ℤ)
      (lines : List OrderLine)
      (due : (rs : List Order) (is : List OrderItem) → C rs is → IsDue rs order total)
      (has_items : (rs : List Order) (is : List OrderItem) → C rs is → Carries order 1 lines is)
      (j : Journey) (le : j.shipped_at ≤ j.delivered_at) (known : IsWarehouse g j.warehouse)
      (fits : All (IsSold g) lines) where
    ships :
        (status : OrderStatus)
        → Holding g (With g C order) (ship order j status) (λ _. With g C order)
    ships status =
        ship-Sound g C order order j status le known
          (λ rs is c. IsDue-IsOrder rs order total (due rs is c))

    fulfil-Sound :
        (customer : ℕ) (status : OrderStatus)
        → Holding g
            (With g C order)
            (fulfil g.end order customer j lines status)
            (λ _. With g C order)
    unfolding fulfil after_delivery
    fulfil-Sound customer OrderStatus.pending = returns (Kept g) tt (λ o p. p)
    fulfil-Sound customer OrderStatus.cancelled = returns (Kept g) tt (λ o p. p)
    fulfil-Sound customer OrderStatus.paid = ships OrderStatus.paid
    fulfil-Sound customer OrderStatus.shipped = ships OrderStatus.shipped
    fulfil-Sound customer OrderStatus.delivered = bind (Kept g) (ships OrderStatus.delivered) (λ u.
        bind (Kept g)
          (weaken (Kept g) (λ o p. (p.0, (has_items o.orders o.items p.1, p.1)))
            (return_lines-Sound g C order j.delivered_at 1 lines fits))
          (λ ls. record {
            run = λ s p. (review_lines-Sound g C order customer j.delivered_at ls p.0).run s p.1;
          }))

spent-none :
    (last : ℕ) (is : List OrderItem)
    → All (λ (i : OrderItem). i.order ≤ last) is
    → (spent is (last + 1) ≡ pos 0) × (rebated is (last + 1) ≡ pos 0)
spent-none last [] h = (refl, refl)
spent-none last (i ∷ is) h =
    let e : (i.order == last + 1) ≡ false = ground arith in
    let none_yet = spent-none last is h.1 in (rw e none_yet.0, rw e none_yet.1)

-- When all items of the newest order are written, it adds up too.
settle :
    (id : ℕ) (t : Totals) (rs : List Order) (is : List OrderItem)
    → IsNewest id t rs
    → (spent is id ≡ t.subtotal) × (rebated is id ≡ t.discount)
    → OlderAddUp is rs
    → AllAddUp rs is
settle id t [] is new sums older = tt
settle id t (r ∷ rs) is new sums older = (
  (
    new.2 ∙ sym sums.0 ∙ ap (spent is) (sym new.0),
    new.3 ∙ sym sums.1 ∙ ap (rebated is) (sym new.0),
  ),
  older,
)

-- `CHECK (total = subtotal - discount + shipping_fee + tax)`, in int64, with the sums of the basket.
abbrev IsSum : Basket → Totals → Type 0
IsSum b t =
    (t.total ≡ int64 (int64 (int64 (t.subtotal -ℤ t.discount) +ℤ t.shipping) +ℤ t.tax))
    × (b.subtotal ≡ t.subtotal)
    × (b.discount ≡ t.discount)

module _ (fl : Float) (g : Gen (fl.F)) where
  pub totals-IsSum : (c : Buyer (fl.F)) (rate : fl.F) (b : Basket) → IsSum b (totals fl g c rate b)
  unfolding totals
  totals-IsSum c rate b = (refl, refl, refl)

  -- What the rest of the order needs of the orders and the items.
  abbrev Written : ℕ → Totals → List OrderLine → List Order → List OrderItem → Type 0
  Written id t lines rs is = IsDue rs id t.total × Carries id 1 lines is × AllAddUp rs is

  -- The order has its row and no item yet.
  abbrev Opened : ℕ → Totals → Out → Type 0
  Opened id t o = Filling g id t 1 o × (spent o.items id ≡ pos 0) × (rebated o.items id ≡ pos 0)

  add_items-Written :
      (id : ℕ) (b : Basket) (t : Totals) (warehouse : ℕ)
      → IsSummed b
      → IsSum b t
      → IsWarehouse g warehouse
      → All (IsSold g) b.lines
      → Holding g
          (Opened id t)
          (add_items id warehouse 1 b.lines)
          (λ _. With g (Written id t b.lines) id)
  add_items-Written id b t warehouse summed sum known left =
      strengthen (Kept g)
        (λ u o p. (
          p.0,
          (
            IsNewest-IsDue id t o.orders p.1.0,
            p.1.2,
            settle id t o.orders o.items p.1.0
                (p.1.3.0 ∙ sym summed.0 ∙ sum.1, p.1.3.1 ∙ sym summed.1 ∙ sum.2) p.0.older,
          ),
        ))
        (weaken (Kept g) (λ o p. (p.0, tt, (p.1, p.2)))
          (add_items-Carries g id t warehouse 1 b.lines (pos 0) (pos 0) Any (λ is i le r. tt) known
            left))

  -- The rows of an order keep all sound, and it adds up.
  pub write_order-Sound :
      (last customer : ℕ) (c : Buyer (fl.F)) (code : Code (fl.F)) (placed : ℕ) (b : Basket)
      (t : Totals) (j : Journey) (st : Stage)
      → Fits fl g placed b × IsSummed b
      → IsSum b t
      → IsOrdered placed j × IsWarehouse g j.warehouse
      → IsWithin placed g.end st
      → Holding g
          (With g AllAddUp last)
          (write_order fl g (last + 1) customer c code placed b t j st)
          (λ _. With g AllAddUp (last + 1))
  unfolding write_order add_order
  write_order-Sound last customer c code placed b t j st (fits, summed) sum (ordered, known)
        within =
      let id = last + 1 in
      let left =
        All-imp (LineFits fl g placed) (IsSold g) b.lines
          (λ l h. (h.0, sold g placed l.product h.1)) fits.lines in
      let C = Written id t b.lines in
      bind (Kept g) {Q = λ u. Opened id t}
        (adds (Kept g) _ _ (λ o p. kept g o p.0)
          (λ o p. (
            next_order g last o (order_of fl g id customer c code placed t st) t
                (sum.0, within.0, within.1) (refl, refl, refl, refl) p.1 p.0,
            (spent-none last o.items p.0.items.1).0,
            (spent-none last o.items p.0.items.1).1,
          )))
        (λ u. bind (Kept g) (add_items-Written id b t j.warehouse summed sum known left) (λ u.
          draws (λ o p. kept g o p.0) (method_reads c.country.code)
            (λ method listed.
              bind (Kept g)
                (pay-Sound g C id id placed method t.total j.paid_at listed (λ rs is w. w.0)
                  st.status)
                (λ u.
                  strengthen (Kept g) (λ u o p. (p.0, p.1.2))
                    (fulfil-Sound g C id t.total b.lines (λ rs is w. w.0) (λ rs is w. w.1) j
                      ordered.1 known left customer st.status)))))
