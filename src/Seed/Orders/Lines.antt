-- ===== src/Seed/Orders/Lines.antt =====
-- internal/seed/orders.go: what is in an order and what it costs.
pub mod Fit
pub mod Sums
use duckstore.Prelude.{
  ℕ, zero, suc, ◌+◌, ◌-◌, Bool, true, false, not, ◌&&◌, ◌||◌, List, [], ◌∷◌, ◌++◌, Option, none,
  some, get_elem?, length, ltb, leb, ◌==◌, if◌then◌else◌,
}
use duckstore.Prelude.Int.{ℤ, pos, ◌+ℤ◌, ◌-ℤ◌, ◌*ℤ◌, int64}
use duckstore.Prelude.Text.{Text, codes, equal}
use duckstore.Seed.Emit.{Emit, pure, stop, must, ◌>>=◌, ◌>>◌, int_n, any_int, coin, pick}
use duckstore.Seed.Orders.{Buyer, Product, Promotion, Gen, OrderLine, has, Out}
use duckstore.Seed.Prices.{price_at}
use duckstore.Seed.Orders.Picks.{pick_product}
use duckstore.Store.Float.{Float}

-- The order's promotion, with its id.
abbrev pub Code : Type 0 → Type 0
Code F = Option (Promotion F × ℕ)

-- The lines, and the sums over them.
pub record Basket : Type 0 where
  pub lines : List OrderLine
  pub subtotal : ℤ
  pub discount : ℤ

pub record Totals : Type 0 where
  pub subtotal : ℤ
  pub discount : ℤ
  pub shipping : ℤ
  pub tax : ℤ
  pub total : ℤ

abbrev pub is_grocery : Product → Bool
is_grocery p = equal p.top (codes "Grocery")

abbrev pub products_of : List OrderLine → List ℕ
products_of [] = []
products_of (l ∷ ls) = l.product ∷ products_of ls

abbrev pub no_lines : Basket
no_lines = record { lines = []; subtotal = pos 0; discount = pos 0 }

abbrev pub is_zero_cents : ℤ → Bool
is_zero_cents (pos n) = n == 0
is_zero_cents _ = false

-- `promoArg`
abbrev pub promotion_of : {F : Type 0} → Code F → ℤ → Option ℕ
promotion_of none discount = none
promotion_of (some (p, id)) discount = if is_zero_cents discount then none else some id

module _ (fl : Float) (g : Gen (fl.F)) where
  open fl use {F, of_int, mul, div, less, round}

  -- The customer uses a code that is active today, or none.
  unfoldable pub choose_code : List ℕ → Emit Out (Code F)
  choose_code [] = pure none
  choose_code (a ∷ active) = pick (a ∷ active) >>= λ i. must (get_elem? g.promotions i) >>= λ p.
      coin >>= λ uses. pure (if uses then some (p, i + 1) else none)

  -- The 20 tries for a product on promotion.
  unfoldable pub try_promoted : ℕ → List ℕ → ℕ → Emit Out (Option ℕ)
  try_promoted zero set placed = pure none
  try_promoted (suc tries) set placed = pick_product g placed >>= λ cand.
      if has set cand then pure (some cand) else try_promoted tries set placed

  abbrev pub or_product : ℕ → Option ℕ → Emit Out ℕ
  or_product placed none = pick_product g placed
  or_product placed (some pi) = pure pi

  abbrev pub promoted : ℕ → Code F → ℕ → Emit Out (Option ℕ)
  promoted zero (some (p, id)) placed = try_promoted 20 p.set placed
  promoted l code placed = pure none

  -- The product of the line `l`.
  unfoldable pub line_product : ℕ → Code F → ℕ → Emit Out ℕ
  line_product l code placed = promoted l code placed >>= or_product placed

  abbrev pub disc_of : Code F → ℕ → ℤ → ℤ
  disc_of none pi amount = pos 0
  disc_of (some (p, id)) pi amount =
      if has p.set pi then round (div (mul (of_int amount) p.pct) (of_int (pos 100))) else pos 0

  -- The line of a product, and the sums with it.
  abbrev pub with_line : Code F → F → ℕ → ℕ → ℕ → Basket → Basket
  with_line code rate pi qty cents b =
      let unit = round (mul (of_int (pos cents)) rate) in
      let amount = int64 (pos qty *ℤ unit) in
      let disc = disc_of code pi amount in
      record {
        lines =
            b.lines
            ++ record { product = pi; qty = qty; unit = unit; disc = disc; returned = false } ∷ [];
        subtotal = int64 (b.subtotal +ℤ amount);
        discount = int64 (b.discount +ℤ disc);
      }

  -- One round of the loop over the lines.
  unfoldable pub add_line : Code F → F → ℕ → ℕ → Basket → Emit Out Basket
  add_line code rate placed l b = line_product l code placed >>= λ pi.
      if has (products_of b.lines) pi
      then pure b
      else must (get_elem? g.products pi) >>= λ p. int_n 5 >>= λ k.
          (if is_grocery p then int_n 3 else pure 0) >>= λ more.
          must (price_at placed p.prices) >>= λ cents.
          pure (with_line code rate pi (1 + k + more) cents b)

  -- The loop over the lines, from the line `l` on.
  unfoldable pub add_lines : Code F → F → ℕ → ℕ → ℕ → Basket → Emit Out Basket
  add_lines code rate placed zero l b = pure b
  add_lines code rate placed (suc n) l b =
      add_line code rate placed l b >>= λ b'. add_lines code rate placed n (l + 1) b'

  abbrev pub shipping_of : Buyer F → F → ℤ → ℤ
  shipping_of c rate net =
      if not c.is_vip && less (div (of_int net) rate) (of_int (pos 5000))
      then round (mul (of_int (pos 599)) rate)
      else pos 0

  -- `shipping`, `tax` and `total`.
  unfoldable pub totals : Buyer F → F → Basket → Totals
  totals c rate b =
      let net = int64 (b.subtotal -ℤ b.discount) in
      let shipping = shipping_of c rate net in
      let tax = round (mul (of_int net) c.country.tax_rate) in
      record {
        subtotal = b.subtotal;
        discount = b.discount;
        shipping = shipping;
        tax = tax;
        total = int64 (int64 (net +ℤ shipping) +ℤ tax);
      }
