-- ===== src/Seed/Orders/Lines/Fit.antt =====
-- internal/seed/orders.go: the lines of an order.
use duckstore.Prelude.{
  ℕ, zero, suc, ◌+◌, ◌<◌, ◌≡◌, refl, Bool, false, ◌||◌, List, [], ◌∷◌, ◌++◌, Option, none, some,
  get_elem?, arith, All, ◌==◌,
}
use duckstore.Seed.Emit.Reads.{
  Reads, Holds, Any, then_reads, pure_reads, must_reads, int_reads, coin_reads, pick_reads,
  if_reads, weaken_reads,
}
use duckstore.Seed.Orders.Lines.{
  Code, Basket, is_grocery, products_of, choose_code, try_promoted, or_product, promoted,
  line_product, with_line, add_line, add_lines,
}
use duckstore.Seed.Orders.Picks.Launched.{IsOnSale, pick_product-IsOnSale}
use duckstore.Seed.Orders.{Gen, OrderLine, has}
use duckstore.Seed.Prices.{price_at}
use duckstore.Store.Float.{Float}

module _ (fl : Float) (g : Gen (fl.F)) where
  -- A line has something of a product on sale.
  abbrev pub LineFits : ℕ → OrderLine → Type 0
  LineFits placed l = (0 < l.qty) × IsOnSale g placed l.product

  -- No product comes in two lines: the last line's is not in those before it.
  abbrev pub IsNewLast : List ℕ → List ℕ → Type 0
  IsNewLast before [] = Unit {0}
  IsNewLast before (p ∷ ps) = (has before p ≡ false) × IsNewLast (p ∷ before) ps

  pub record Fits (placed : ℕ) (b : Basket) : Type 0 where
    pub lines : All (LineFits placed) b.lines
    pub new : IsNewLast [] (products_of b.lines)

  pub code_reads : (active : List ℕ) → Reads (choose_code fl g active) Any
  unfolding choose_code
  code_reads [] = pure_reads none tt
  code_reads (a ∷ active) = then_reads (pick_reads (a ∷ active)) (λ i u.
      then_reads (must_reads (get_elem? g.promotions i))
        (λ p e. then_reads coin_reads (λ uses u. pure_reads _ tt)))

  tried :
      (set : List ℕ) (placed n : ℕ)
      → Reads (try_promoted fl g n set placed) (Holds (IsOnSale g placed))
  unfolding try_promoted
  tried set placed zero = pure_reads none tt
  tried set placed (suc n) =
      then_reads (pick_product-IsOnSale g placed) (λ cand h.
        if_reads (has set cand) (λ e. pure_reads (some cand) h) (λ e. tried set placed n))

  pub line_product-IsOnSale :
      (l : ℕ) (code : Code (fl.F)) (placed : ℕ)
      → Reads (line_product fl g l code placed) (IsOnSale g placed)
  unfolding line_product
  line_product-IsOnSale l code placed = then_reads (first l code) last
    where
      first :
          (l : ℕ) (code : Code (fl.F))
          → Reads (promoted fl g l code placed) (Holds (IsOnSale g placed))
      first zero none = pure_reads none tt
      first zero (some (p, id)) = tried p.set placed 20
      first (suc l) code = pure_reads none tt

      last :
          (r : Option ℕ)
          → Holds (IsOnSale g placed) r
          → Reads (or_product fl g placed r) (IsOnSale g placed)
      last none h = pick_product-IsOnSale g placed
      last (some pi) h = pure_reads pi h

  All-snoc :
      {A : Type 0} (P : A → Type 0) (l : List A) (a : A) → All P l → P a → All P (l ++ a ∷ [])
  All-snoc P [] a h p = (p, tt)
  All-snoc P (x ∷ l) a h p = (h.0, All-snoc P l a h.1 p)

  new-snoc :
      (before : List ℕ) (ls : List OrderLine) (l : OrderLine)
      → IsNewLast before (products_of ls)
      → has before l.product ≡ false
      → has (products_of ls) l.product ≡ false
      → IsNewLast before (products_of (ls ++ l ∷ []))
  new-snoc before [] l h a b = (a, tt)
  new-snoc before (x ∷ ls) l h a b = (
    h.0,
    new-snoc (x.product ∷ before) ls l h.1
        (both (x.product == l.product) (has before l.product) (has (products_of ls) l.product) a b)
        (right (x.product == l.product) _ b),
  )
    where
      both : (x a b : Bool) → a ≡ false → (x || b) ≡ false → (x || a) ≡ false
      both x a b e f = ground arith

      right : (x b : Bool) → (x || b) ≡ false → b ≡ false
      right x b f = ground arith

  add_line-Fits :
      (code : Code (fl.F)) (rate : fl.F) (placed l : ℕ) (b : Basket)
      → Fits placed b
      → Reads (add_line fl g code rate placed l b) (Fits placed)
  unfolding add_line
  add_line-Fits code rate placed l b f =
      then_reads (line_product-IsOnSale l code placed) (λ pi sale.
        if_reads (has (products_of b.lines) pi) (λ e. pure_reads b f)
          (λ new. then_reads (must_reads (get_elem? g.products pi)) (λ p e.
            then_reads (int_reads 5) (λ k u.
              then_reads {F = Any}
                (if_reads (is_grocery p) (λ e. weaken_reads (λ a h. tt) (int_reads 3))
                  (λ e. pure_reads 0 tt))
                (λ more u. then_reads (must_reads (price_at placed p.prices)) (λ cents e.
                  pure_reads (with_line fl g code rate pi (1 + k + more) cents b) (record {
                    lines = All-snoc (LineFits placed) b.lines _ f.lines (omega arith, sale);
                    new = new-snoc [] b.lines _ f.new refl new;
                  })))))))

  -- The loop over the lines keeps this: each line has a positive quantity of a product that is on
  -- sale when the order is placed, and no product comes in two lines. It writes nothing.
  pub add_lines-Fits :
      (code : Code (fl.F)) (rate : fl.F) (placed n l : ℕ) (b : Basket)
      → Fits placed b
      → Reads (add_lines fl g code rate placed n l b) (Fits placed)
  unfolding add_lines
  add_lines-Fits code rate placed zero l b f = pure_reads b f
  add_lines-Fits code rate placed (suc n) l b f =
      then_reads (add_line-Fits code rate placed l b f)
        (λ b' f'. add_lines-Fits code rate placed n (l + 1) b' f')
