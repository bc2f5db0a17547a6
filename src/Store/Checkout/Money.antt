-- ===== src/Store/Checkout/Money.antt =====
-- internal/web/checkout.go: the amounts of an order, in cents of the customer's currency. Products
-- and sums are those of int64.
pub mod Totals
use duckstore.Prelude.{ℕ, ◌+◌, ◌≡◌, Bool, true, false, not, ◌&&◌, List, [], ◌∷◌, ltb, if◌then◌else◌}
use duckstore.Prelude.Int.{ℤ, pos, ◌+ℤ◌, ◌-ℤ◌, ◌*ℤ◌, int64}
use duckstore.Prelude.Text.{Text, codes, equal}
use duckstore.Store.Float.{Float}
use duckstore.Store.Checkout.Reads.{Promo, mem}
use duckstore.Store.Checkout.Allocate.{Taken}

-- `type Customer`, as far as the checkout reads it.
pub record Customer (F : Type 0) : Type 0 where
  pub id : ℕ
  pub segment : Text
  pub country : Text
  pub currency : Text
  pub tax_rate : F
  pub fx : F

-- A line with its price and discount: an element of `units` and of `discounts`.
pub record Priced : Type 0 where
  pub taken : Taken
  pub unit : ℤ
  pub disc : ℤ

module _ (fl : Float) where
  open fl use {F, of_int, mul, div, less, round}

  -- `unit := int64(math.Round(float64(l.priceCents) * c.FX))`
  unfoldable pub unit_cents : Customer F → Taken → ℤ
  unit_cents c t = round (mul (of_int (pos t.line.price)) c.fx)

  -- `discount_pct::float8`
  unfoldable pub pct_float : ℕ → F
  pct_float pct = div (of_int (pos pct)) (of_int (pos 100))

  unfoldable pub disc_cents : Promo → ℤ → Taken → ℤ
  unfolding pct_float
  disc_cents promo unit t =
      if mem t.line.product promo.products
      then round (
          div (mul (of_int (int64 (unit *ℤ pos t.line.qty))) (pct_float promo.pct))
            (of_int (pos 100)))
      else pos 0

  unfoldable pub price_line : Customer F → Promo → Taken → Priced
  unfolding unit_cents disc_cents
  price_line c promo t =
      let unit = unit_cents c t in record { taken = t; unit = unit; disc = disc_cents promo unit t }

  unfoldable pub price_lines : Customer F → Promo → List Taken → List Priced
  unfolding price_line
  price_lines c promo [] = []
  price_lines c promo (t ∷ ts) = price_line c promo t ∷ price_lines c promo ts

  -- 5.99 USD in the customer's currency, unless the segment is vip or the order is large.
  unfoldable pub shipping_cents : Customer F → ℤ → ℤ
  shipping_cents c net =
      if not (equal c.segment (codes "vip")) && less (div (of_int net) c.fx) (of_int (pos 5000))
      then round (mul (of_int (pos 599)) c.fx)
      else pos 0

  unfoldable pub tax_cents : Customer F → ℤ → ℤ
  tax_cents c net = round (mul (of_int net) c.tax_rate)

-- `subtotal += unit * int64(l.qty)`
unfoldable pub subtotal_from : ℤ → List Priced → ℤ
subtotal_from acc [] = acc
subtotal_from acc (p ∷ ps) =
    subtotal_from (int64 (acc +ℤ int64 (p.unit *ℤ pos p.taken.line.qty))) ps

-- `discount += disc`
unfoldable pub discount_from : ℤ → List Priced → ℤ
discount_from acc [] = acc
discount_from acc (p ∷ ps) = discount_from (int64 (acc +ℤ p.disc)) ps

pub record Amounts : Type 0 where
  pub subtotal : ℤ
  pub discount : ℤ
  pub shipping : ℤ
  pub tax : ℤ
  pub total : ℤ

unfoldable pub amounts : (fl : Float) → Customer (fl.F) → List Priced → Amounts
unfolding subtotal_from discount_from
amounts fl c ps =
    let subtotal = subtotal_from (pos 0) ps in
    let discount = discount_from (pos 0) ps in
    let net = int64 (subtotal -ℤ discount) in
    let shipping = shipping_cents fl c net in
    let tax = tax_cents fl c net in
    record {
      subtotal = subtotal;
      discount = discount;
      shipping = shipping;
      tax = tax;
      total = int64 (int64 (net +ℤ shipping) +ℤ tax);
    }
