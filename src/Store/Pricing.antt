-- ===== src/Store/Pricing.antt =====
-- internal/web/store.go: `changePrice`, which closes the current price version and opens a new one.
pub mod Current
use duckstore.Prelude.{
  ℕ, suc, ◌+◌, Bool, true, false, not, ◌&&◌, ◌||◌, List, [], ◌∷◌, ◌++◌, map, Option, none, some,
  ltb, ◌==◌, if◌then◌else◌,
}
use duckstore.Prelude.Int.{ℤ, pos, pos_part}
use duckstore.Prelude.Text.Decimal.{decimal_ℤ, parse_int}
use duckstore.Prelude.Text.{Text, codes}
use duckstore.Store.Carts.{note, View, is_id, has_product}
use duckstore.Store.Float.{Float}
use duckstore.Store.Tables.{Price, Product, Db}
use duckstore.Store.Tx.{
  Result, ok, err, not_found, violation, World, Tx, pure, fail, ◌>>=◌, ◌>>◌, fail_if, statement,
  exec_check, Begin,
}

abbrev pub is_open : Price → Bool
is_open p = elim p.valid_to [ none ↦ true | some _ ↦ false ]

abbrev pub is_current : ℤ → Price → Bool
is_current id p = is_id id p.product && is_open p

abbrev pub close_row : ℤ → ℕ → Price → Price
close_row id now p = if is_current id p then record p { valid_to = some now } else p

unfoldable pub count_current : ℤ → List Price → ℕ
count_current id [] = 0
count_current id (p ∷ ps) = (if is_current id p then 1 else 0) + count_current id ps

-- `valid_to > valid_from` for the rows that are closed.
unfoldable pub may_close : ℤ → ℕ → List Price → Bool
may_close id now [] = true
may_close id now (p ∷ ps) = (not (is_current id p) || ltb p.valid_from now) && may_close id now ps

-- The first UPDATE, with the number of its rows.
unfoldable pub close_current : ℤ → Tx ℕ
close_current id w =
    statement
      (λ d.
        if may_close id w.now d.prices
        then ok (count_current id d.prices, record d { prices = map (close_row id w.now) d.prices })
        else err violation)
      w

-- The primary key and the index on the open rows.
unfoldable pub is_free : ℤ → ℕ → List Price → Bool
is_free id now [] = true
is_free id now (p ∷ ps) =
    not (is_current id p || (is_id id p.product && p.valid_from == now)) && is_free id now ps

abbrev pub may_open : ℤ → ℤ → ℕ → Db → Bool
may_open id price now d =
    ltb 0 (pos_part price) && has_product id d.products && is_free id now d.prices

-- The INSERT.
unfoldable pub open_price : ℤ → ℤ → Tx (Unit {0})
open_price id price w =
    exec_check (may_open id price w.now)
      (λ d. record d {
        prices =
            d.prices
            ++ record {
              product = pos_part id;
              valid_from = w.now;
              valid_to = none;
              price = pos_part price;
            }
              ∷ [];
      })
      w

abbrev pub price_row : ℤ → ℤ → Product → Product
price_row id price p = if is_id id p.id then record p { price = pos_part price } else p

-- The second UPDATE.
unfoldable pub set_price : ℤ → ℤ → Tx (Unit {0})
set_price id price =
    exec_check (λ d. ltb 0 (pos_part price))
      (λ d. record d { products = map (price_row id price) d.products })

-- The function given to `pgx.BeginFunc`.
unfoldable pub change_price_tx : ℤ → ℤ → Tx (Unit {0})
change_price_tx id price = do
  count ← close_current id
  fail_if (not (count == 1)) (not_found (codes "current price"))
  open_price id price
  set_price id price

-- `strconv.ParseFloat`, `<=` and `%.2f`
pub record PriceText (F : Type 0) : Type 0 where
  pub parse_float : Text → Option F
  pub at_most : F → F → Bool
  pub two_places : F → Text

module _ (fl : Float) (pt : PriceText (fl.F)) where
  abbrev pub is_outside : fl.F → Bool
  is_outside price = pt.at_most price (fl.of_int (pos 0)) || fl.less (fl.of_int (pos 100000)) price

  abbrev pub product_page : ℤ → Text
  product_page id = codes "/p/" ++ decimal_ℤ id

  abbrev pub refuse_price : ℤ → Tx View
  refuse_price id = pure (record {
    redirect = product_page id;
    flash = note (codes "Enter a price between 0.01 and 100000 USD.");
  })

  abbrev pub accept_price : Begin → ℤ → fl.F → Tx View
  accept_price begin id price =
      begin.run (change_price_tx id (fl.round (fl.mul price (fl.of_int (pos 100)))))
      >> pure (record {
        redirect = product_page id;
        flash = note (
            codes "Price changed to $"
            ++ pt.two_places price
            ++ codes
                ". Postgres now has a new price version; run the ETL to see it in dw.dim_product.");
      })

  abbrev pub change_to : Begin → ℤ → Option fl.F → Tx View
  change_to begin id none = refuse_price id
  change_to begin id (some price) =
      if is_outside price then refuse_price id else accept_price begin id price

  -- `changePrice`; the texts are the id in the path and the form value `price_usd`.
  unfoldable pub change_price : Begin → Text → Text → Tx View
  change_price begin id_value price_value =
      let id = parse_int id_value in
      if id.valid
      then change_to begin id.value (pt.parse_float price_value)
      else fail (not_found (codes "product"))
