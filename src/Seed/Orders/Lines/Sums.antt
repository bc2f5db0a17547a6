-- ===== src/Seed/Orders/Lines/Sums.antt =====
-- internal/seed/orders.go: the subtotal and the discount of an order, and its lines.
use duckstore.Prelude.{
  ℕ, zero, suc, ◌+◌, ◌≡◌, refl, sym, ap, ◌∙◌, List, [], ◌∷◌, ◌++◌, get_elem?, false,
}
use duckstore.Prelude.Int.{ℤ, pos, ◌+ℤ◌, ◌*ℤ◌, int64}
use duckstore.Seed.Emit.Reads.{
  Reads, Any, then_reads, pure_reads, must_reads, int_reads, if_reads, weaken_reads,
}
use duckstore.Seed.Orders.Lines.Fit.{line_product-IsOnSale}
use duckstore.Seed.Orders.Lines.{
  Code, Basket, is_grocery, products_of, disc_of, with_line, add_line, add_lines,
}
use duckstore.Seed.Orders.{Gen, OrderLine, has}
use duckstore.Seed.Prices.{price_at}
use duckstore.Store.Float.{Float}

-- What the lines cost, on top of the sum of those before, in int64.
abbrev pub cost_of : ℤ → List OrderLine → ℤ
cost_of sum [] = sum
cost_of sum (l ∷ ls) = cost_of (int64 (sum +ℤ int64 (pos l.qty *ℤ l.unit))) ls

-- What is taken off the lines.
abbrev pub rebate_of : ℤ → List OrderLine → ℤ
rebate_of sum [] = sum
rebate_of sum (l ∷ ls) = rebate_of (int64 (sum +ℤ l.disc)) ls

abbrev pub IsSummed : Basket → Type 0
IsSummed b = (b.subtotal ≡ cost_of (pos 0) b.lines) × (b.discount ≡ rebate_of (pos 0) b.lines)

cost_of-snoc :
    (ls : List OrderLine) (sum : ℤ) (l : OrderLine)
    → cost_of sum (ls ++ l ∷ []) ≡ int64 (cost_of sum ls +ℤ int64 (pos l.qty *ℤ l.unit))
cost_of-snoc [] sum l = refl
cost_of-snoc (x ∷ ls) sum l = cost_of-snoc ls (int64 (sum +ℤ int64 (pos x.qty *ℤ x.unit))) l

rebate_of-snoc :
    (ls : List OrderLine) (sum : ℤ) (l : OrderLine)
    → rebate_of sum (ls ++ l ∷ []) ≡ int64 (rebate_of sum ls +ℤ l.disc)
rebate_of-snoc [] sum l = refl
rebate_of-snoc (x ∷ ls) sum l = rebate_of-snoc ls (int64 (sum +ℤ x.disc)) l

IsSummed-snoc :
    (b : Basket) (l : OrderLine)
    → IsSummed b
    → IsSummed (record {
      lines = b.lines ++ l ∷ [];
      subtotal = int64 (b.subtotal +ℤ int64 (pos l.qty *ℤ l.unit));
      discount = int64 (b.discount +ℤ l.disc);
    })
IsSummed-snoc b l h = (
  ap (λ s. int64 (s +ℤ int64 (pos l.qty *ℤ l.unit))) h.0 ∙ sym (cost_of-snoc b.lines (pos 0) l),
  ap (λ s. int64 (s +ℤ l.disc)) h.1 ∙ sym (rebate_of-snoc b.lines (pos 0) l),
)

module _ (fl : Float) (g : Gen (fl.F)) where
  with_line-IsSummed :
      (code : Code (fl.F)) (rate : fl.F) (pi qty cents : ℕ) (b : Basket)
      → IsSummed b
      → IsSummed (with_line fl g code rate pi qty cents b)
  with_line-IsSummed code rate pi qty cents b h =
      let unit = fl.round (fl.mul (fl.of_int (pos cents)) rate) in
      let disc = disc_of fl g code pi (int64 (pos qty *ℤ unit)) in
      IsSummed-snoc b
        (record { product = pi; qty = qty; unit = unit; disc = disc; returned = false }) h

  add_line-IsSummed :
      (code : Code (fl.F)) (rate : fl.F) (placed l : ℕ) (b : Basket)
      → IsSummed b
      → Reads (add_line fl g code rate placed l b) IsSummed
  unfolding add_line
  add_line-IsSummed code rate placed l b h =
      then_reads (line_product-IsOnSale fl g l code placed) (λ pi sale.
        if_reads (has (products_of b.lines) pi) (λ e. pure_reads b h)
          (λ new. then_reads (must_reads (get_elem? g.products pi)) (λ p e.
            then_reads (int_reads 5) (λ k u.
              then_reads {F = Any}
                (if_reads (is_grocery p) (λ e. weaken_reads (λ a h. tt) (int_reads 3))
                  (λ e. pure_reads 0 tt))
                (λ more u. then_reads (must_reads (price_at placed p.prices)) (λ cents e.
                  pure_reads _ (with_line-IsSummed code rate pi (1 + k + more) cents b h)))))))

  -- The loop over the lines keeps its two sums.
  pub add_lines-IsSummed :
      (code : Code (fl.F)) (rate : fl.F) (placed n l : ℕ) (b : Basket)
      → IsSummed b
      → Reads (add_lines fl g code rate placed n l b) IsSummed
  unfolding add_lines
  add_lines-IsSummed code rate placed zero l b h = pure_reads b h
  add_lines-IsSummed code rate placed (suc n) l b h =
      then_reads (add_line-IsSummed code rate placed l b h)
        (λ b' h'. add_lines-IsSummed code rate placed n (l + 1) b' h')
