-- ===== src/Seed/Orders/Emitted/Reviews.antt =====
-- internal/seed/orders.go: the reviews of an order keep what the table wants.
use duckstore.Prelude.{
  ℕ, ◌+◌, ◌-◌, ◌*◌, ◌<◌, ◌≡◌, refl, ap, ◌∙◌, false, not, List, [], ◌∷◌, arith, ltb, All,
}
use duckstore.Seed.Emit.Reads.{draws, int_reads, coin_reads, normal_reads}
use duckstore.Seed.Emit.Triple.{bind, returns, adds, branches}
use duckstore.Seed.Orders.Checks.{IsProduct}
use duckstore.Seed.Orders.Checks.Steps.{skip_review, next_review}
use duckstore.Seed.Orders.Emitted.Lines.{IsSold}
use duckstore.Seed.Orders.Emitted.Paid.{Kept, Holding, With, kept}
use duckstore.Seed.Orders.Journey.{day}
use duckstore.Seed.Orders.Rows.{add_review, maybe_review, is_reviewed, review_lines, lowered}
use duckstore.Seed.Orders.{Gen, OrderLine, has, review_key}
use duckstore.Store.Tables.{Order, OrderItem}
use duckstore.Store.Carts.Quantities.{clamp_bounds}

module _ {F : Type 0} (g : Gen F) (C : List Order → List OrderItem → Type 0) where
  is_reviewed-Sound :
      (last key : ℕ)
      → Holding g
          (With g C last)
          (is_reviewed key)
          (λ again o. (has o.reviewed key ≡ again) × With g C last o)
  is_reviewed-Sound last key = record { run = λ s p. (refl, p) }

  maybe_review-Sound :
      (last customer delivered_at : ℕ) (l : OrderLine)
      → IsProduct g (l.product + 1)
      → Holding g (With g C last) (maybe_review g.end customer delivered_at l) (λ _. With g C last)
  unfolding maybe_review add_review
  maybe_review-Sound last customer delivered_at l product =
      draws (λ o p. kept g o p.0) coin_reads
        (λ silent u.
          branches (Kept g) silent (λ e. returns (Kept g) tt (λ o p. p))
            (λ e. bind (Kept g) (is_reviewed-Sound last (review_key l.product customer)) (λ again.
              branches (Kept g) again (λ e. returns (Kept g) tt (λ o p. p.1))
                (λ new.
                  draws (λ o p. kept g o p.1.0) (int_reads (19 * day))
                    (λ k u.
                      branches (Kept g) (not (ltb (delivered_at + (day + k)) g.end))
                        (λ e. returns (Kept g) tt (λ o p. p.1))
                        (λ early.
                          draws (λ o p. kept g o p.1.0) normal_reads
                            (λ r u.
                              adds (Kept g) _ _
                                (λ o p.
                                  kept g _
                                    (skip_review g last o p.1.0 (review_key l.product customer)))
                                (λ o p. (
                                  next_review g last o p.1.0 (review_key l.product customer) _ refl
                                      (ap (λ i. review_key i customer) (one_less l.product))
                                      (p.0 ∙ new)
                                      (
                                        (clamp_bounds 1 5 (lowered l.returned r) (omega arith)).0,
                                        (clamp_bounds 1 5 (lowered l.returned r) (omega arith)).1,
                                        before (delivered_at + (day + k)) g.end early,
                                        product,
                                      ),
                                  p.1.1,
                                )))))))))
    where
      before : (a b : ℕ) → not (ltb a b) ≡ false → a < b
      before a b h = ground arith

      one_less : (a : ℕ) → a + 1 - 1 ≡ a
      one_less a = omega arith

  pub review_lines-Sound :
      (last customer delivered_at : ℕ) (ls : List OrderLine)
      → All (IsSold g) ls
      → Holding g (With g C last) (review_lines g.end customer delivered_at ls) (λ _. With g C last)
  unfolding review_lines
  review_lines-Sound last customer delivered_at [] fits = returns (Kept g) tt (λ o p. p)
  review_lines-Sound last customer delivered_at (l ∷ ls) fits =
      bind (Kept g) (maybe_review-Sound last customer delivered_at l fits.0.1)
        (λ u. review_lines-Sound last customer delivered_at ls fits.1)
