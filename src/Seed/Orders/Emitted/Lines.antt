-- ===== src/Seed/Orders/Emitted/Lines.antt =====
-- internal/seed/orders.go: the items, the returns and the reviews of an order keep what the tables
-- want.
use duckstore.Prelude.{
  ℕ, ◌+◌, ◌-◌, ◌*◌, ◌==◌, ◌&&◌, ◌≤◌, ◌<◌, ◌≡◌, refl, subst, sym, ap, ◌∙◌, Bool, true, false, not,
  List, [], ◌∷◌, arith, All, ltb, if◌then◌else◌,
}
use duckstore.Prelude.Int.{ℤ, pos, ◌+ℤ◌, ◌*ℤ◌, int64}
use duckstore.Seed.Orders.Lines.{Totals}
use duckstore.Seed.Orders.Lines.Sums.{cost_of, rebate_of}
use duckstore.Seed.Emit.Reads.{
  draws, Any, pure_reads, int_reads, coin_reads, pick_reads, pick_member, if_reads,
}
use duckstore.Seed.Emit.Triple.{bind, returns, adds, branches, weaken, strengthen}
use duckstore.Seed.Orders.Checks.{IsProduct, IsWarehouse, bought, spent, rebated}
use duckstore.Seed.Orders.Checks.Items.{IsNewest, Filling, next_item}
use duckstore.Seed.Orders.Checks.Steps.{skip_return, next_return}
use duckstore.Seed.Orders.Journey.{day}
use duckstore.Seed.Orders.Rows.{
  item_of, add_items, reasons, settled, return_line, maybe_return, return_lines, add_return,
}
use duckstore.Seed.Orders.{Gen, OrderLine, ReturnStatus}
use duckstore.Store.Tables.{Order, OrderItem}
use duckstore.Seed.Orders.Emitted.Paid.{Kept, Holding, With, kept}

-- Each line from `line_no` on has its item.
abbrev pub Carries : ℕ → ℕ → List OrderLine → List OrderItem → Type 0
Carries order line_no [] is = Unit {0}
Carries order line_no (l ∷ ls) is =
    (bought is order line_no ≡ l.qty) × Carries order (line_no + 1) ls is

-- It stays when items of lines from `line_no` on are added.
abbrev IsStable : ℕ → (List OrderItem → Type 0) → Type 0
IsStable line_no R = (is : List OrderItem) (i : OrderItem) → line_no ≤ i.line_no → R is → R (i ∷ is)

self_item : (is : List OrderItem) (i : OrderItem) → bought (i ∷ is) i.order i.line_no ≡ i.quantity
self_item is i =
    ap (λ b. if b then i.quantity else bought is i.order i.line_no) (equal i.order i.line_no)
  where
    equal : (a b : ℕ) → (a == a && b == b) ≡ true
    equal a b = ground arith

other_line :
    (is : List OrderItem) (i : OrderItem) (order n : ℕ)
    → n < i.line_no
    → bought (i ∷ is) order n ≡ bought is order n
other_line is i order n h =
    ap (λ b. if b then i.quantity else bought is order n) (differ (i.order == order) i.line_no n h)
  where
    differ : (c : Bool) (a b : ℕ) → b < a → (c && a == b) ≡ false
    differ c a b h = ground arith

module _ {F : Type 0} (g : Gen F) where
  -- Some of a product.
  abbrev pub IsSold : OrderLine → Type 0
  IsSold l = (0 < l.qty) × IsProduct g (l.product + 1)

  -- What the items of the order `id` add up to.
  abbrev Sums : ℕ → ℤ → ℤ → List OrderItem → Type 0
  Sums id cost rebate is = (spent is id ≡ cost) × (rebated is id ≡ rebate)

  Sums-item :
      (is : List OrderItem) (i : OrderItem) (cost rebate : ℤ)
      → Sums i.order cost rebate is
      → Sums i.order
          (int64 (cost +ℤ int64 (pos i.quantity *ℤ i.unit_price)))
          (int64 (rebate +ℤ i.discount))
          (i ∷ is)
  Sums-item is i cost rebate h =
      let e : (i.order == i.order) ≡ true = ground arith in
      (
        ap
              (λ b.
                if b
                then int64 (spent is i.order +ℤ int64 (pos i.quantity *ℤ i.unit_price))
                else spent is i.order)
              e
            ∙ ap (λ x. int64 (x +ℤ int64 (pos i.quantity *ℤ i.unit_price))) h.0,
        ap (λ b. if b then int64 (rebated is i.order +ℤ i.discount) else rebated is i.order) e
            ∙ ap (λ x. int64 (x +ℤ i.discount)) h.1,
      )

  -- All items from the line `n` on are written.
  abbrev pub Filled :
      ℕ
      → Totals
      → ℕ
      → List OrderLine
      → ℤ
      → ℤ
      → (List OrderItem → Type 0)
      → List Order
      → List OrderItem
      → Type 0
  Filled id t n ls cost rebate R rs is =
      IsNewest id t rs
      × R is
      × Carries id n ls is
      × Sums id (cost_of cost ls) (rebate_of rebate ls) is

  pub add_items-Carries :
      (id : ℕ) (t : Totals) (warehouse n : ℕ) (ls : List OrderLine) (cost rebate : ℤ)
      (R : List OrderItem → Type 0)
      → IsStable n R
      → IsWarehouse g warehouse
      → All IsSold ls
      → Holding g
          (λ o. Filling g id t n o × R o.items × Sums id cost rebate o.items)
          (add_items id warehouse n ls)
          (λ _. With g (Filled id t n ls cost rebate R) id)
  unfolding add_items
  add_items-Carries id t warehouse n [] cost rebate R st known fits =
      returns (Kept g) tt (λ o p. (p.0.sound, (p.0.newest, p.1, tt, p.2)))
  add_items-Carries id t warehouse n (l ∷ ls) cost rebate R st known fits =
      let i = item_of id warehouse n l in
      bind (Kept g)
        {Q = λ _ o.
          Filling g id t (n + 1) o
          × (R o.items × (bought o.items id n ≡ l.qty))
          × Sums id (int64 (cost +ℤ int64 (pos l.qty *ℤ l.unit))) (int64 (rebate +ℤ l.disc))
              o.items}
        (adds (Kept g) _ _ (λ o p. kept g o p.0.sound)
          (λ o p. (
            next_item g t o i fits.0.0 fits.0.1 known p.0,
            (st o.items i (omega arith) p.1, self_item o.items i),
            Sums-item o.items i cost rebate p.2,
          )))
        (λ u.
          strengthen (Kept g) (λ u o q. (q.0, (q.1.0, q.1.1.0, (q.1.1.1, q.1.2), q.1.3)))
            (add_items-Carries id t warehouse (n + 1) ls _ _ (λ is. R is × (bought is id n ≡ l.qty))
              (λ is i le r. (st is i (omega arith) r.0, other_line is i id n (omega arith) ∙ r.1))
              known fits.1))

  return_line-Sound :
      (order line_no : ℕ) (l : OrderLine) (asked : ℕ) (C : List Order → List OrderItem → Type 0)
      → ((rs : List Order) (is : List OrderItem) → C rs is → bought is order line_no ≡ l.qty)
      → 0 < l.qty
      → asked < g.end
      → Holding g (With g C order) (return_line g.end order line_no l asked) (λ _. With g C order)
  unfolding return_line add_return
  return_line-Sound order line_no l asked C has_item some_left early =
      draws (λ o p. kept g o p.0) (int_reads l.qty)
        (λ k fewer_left.
          draws {F = Any} (λ o p. kept g o p.0)
            (if_reads (ltb (3 * day) (g.end - asked)) (λ e. pick_reads settled)
              (λ e. pure_reads ReturnStatus.requested tt))
            (λ status u.
              draws (λ o p. kept g o p.0) (pick_member reasons)
                (λ reason listed.
                  adds (Kept g) _ _ (λ o p. kept g _ (skip_return g order o p.0))
                    (λ o p. (
                      next_return g order o p.0 _ refl refl (
                        omega arith,
                        subst (λ n. 1 + k ≤ n) (sym (has_item o.orders o.items p.1))
                            (fewer k l.qty (fewer_left some_left)),
                        early,
                        listed,
                      ),
                      p.1,
                    )))))
    where
      fewer : (k n : ℕ) → k < n → 1 + k ≤ n
      fewer k n h = omega arith

  maybe_return-Sound :
      (order delivered_at line_no : ℕ) (l : OrderLine) (C : List Order → List OrderItem → Type 0)
      → ((rs : List Order) (is : List OrderItem) → C rs is → bought is order line_no ≡ l.qty)
      → 0 < l.qty
      → Holding g
          (With g C order)
          (maybe_return g.end order delivered_at line_no l)
          (λ _. With g C order)
  unfolding maybe_return
  maybe_return-Sound order delivered_at line_no l C has_item some_left =
      draws (λ o p. kept g o p.0) coin_reads
        (λ keeps u.
          branches (Kept g) keeps (λ e. returns (Kept g) false (λ o p. p))
            (λ e.
              draws (λ o p. kept g o p.0) (int_reads (29 * day))
                (λ k u.
                  branches (Kept g) (not (ltb (delivered_at + (day + k)) g.end))
                    (λ e. returns (Kept g) false (λ o p. p))
                    (λ e.
                      bind (Kept g)
                        (return_line-Sound order line_no l (delivered_at + (day + k)) C has_item
                          some_left (before (delivered_at + (day + k)) g.end e))
                        (λ u. returns (Kept g) true (λ o p. p))))))
    where
      before : (a b : ℕ) → not (ltb a b) ≡ false → a < b
      before a b h = ground arith

  -- The lines that it leaves are of the same products and quantities.
  pub return_lines-Sound :
      (C : List Order → List OrderItem → Type 0) (order delivered_at line_no : ℕ)
      (ls : List OrderLine)
      → All IsSold ls
      → Holding g
          (With g (λ rs is. Carries order line_no ls is × C rs is) order)
          (return_lines g.end order delivered_at line_no ls)
          (λ ls' o. All IsSold ls' × With g C order o)
  unfolding return_lines
  return_lines-Sound C order delivered_at line_no [] fits =
      returns (Kept g) [] (λ o p. (tt, (p.0, p.1.1)))
  return_lines-Sound C order delivered_at line_no (l ∷ ls) fits =
      bind (Kept g)
        (maybe_return-Sound order delivered_at line_no l
          (λ rs is. Carries order line_no (l ∷ ls) is × C rs is) (λ rs is c. c.0.0) fits.0.0)
        (λ returned.
          bind (Kept g)
            (weaken (Kept g) (λ o p. (p.0, (p.1.0.1, p.1.1)))
              (return_lines-Sound C order delivered_at (line_no + 1) ls fits.1))
            (λ ls'. returns (Kept g) _ (λ o p. ((fits.0, p.0), p.1))))
