-- ===== src/Store/Checkout/Reads.antt =====
-- internal/web/checkout.go: what `placeOrder` reads, queries 2 to 5 of its transaction.
use duckstore.Prelude.{
  ℕ, Bool, true, false, ◌&&◌, ◌||◌, List, [], ◌∷◌, map, Option, none, some, ltb, leb, ◌==◌,
  if◌then◌else◌,
}
use duckstore.Prelude.Text.{Text, equal, is_empty}
use duckstore.Store.Tables.{
  CartItem, Product, Stock, Warehouse, Country, Promotion, PromotionProduct,
}
use duckstore.Store.Tx.{
  user, promotion_inactive, promotion_elsewhere, Tx, pure, ◌>>=◌, ◌>>◌, fail_if, query_or, query,
}

-- `type line`
pub record Line : Type 0 where
  pub product : ℕ
  pub qty : ℕ
  pub price : ℕ

unfoldable pub mem : ℕ → List ℕ → Bool
mem a [] = false
mem a (x ∷ xs) = a == x || mem a xs

find_price : ℕ → List Product → Option ℕ
find_price id [] = none
find_price id (p ∷ ps) = if p.id == id then some p.price else find_price id ps

-- `ORDER BY ci.product_id`
insert_line : Line → List Line → List Line
insert_line l [] = l ∷ []
insert_line l (m ∷ ms) = if leb l.product m.product then l ∷ m ∷ ms else m ∷ insert_line l ms

add_line : CartItem → Option ℕ → List Line → List Line
add_line i none ls = ls
add_line i (some price) ls =
    insert_line (record { product = i.product; qty = i.quantity; price = price }) ls

-- Query 2: the lines of a cart with the prices of their products.
unfoldable pub cart_lines : ℕ → List Product → List CartItem → List Line
unfolding find_price insert_line add_line
cart_lines cart products [] = []
cart_lines cart products (i ∷ is) =
    let others = cart_lines cart products is in
    if i.cart == cart then add_line i (find_price i.product products) others else others

-- `promoID`, `promoPct` and `promoProducts`.
pub record Promo : Type 0 where
  pub id : Option ℕ
  pub pct : ℕ
  pub products : List ℕ

abbrev pub no_promo : Promo
no_promo = record { id = none; pct = 0; products = [] }

-- Query 3: the promotion with this code that is active now.
unfoldable pub find_promotion : Text → ℕ → List Promotion → Option Promotion
find_promotion code now [] = none
find_promotion code now (p ∷ ps) =
    if equal p.code code && leb p.starts_at now && ltb now p.ends_at
    then some p
    else find_promotion code now ps

-- The products of the cart that the promotion covers.
unfoldable pub covered : ℕ → List ℕ → List PromotionProduct → List ℕ
covered id products [] = []
covered id products (p ∷ ps) =
    let others = covered id products ps in
    if p.promotion == id && mem p.product products then p.product ∷ others else others

abbrev pub is_nil {ℓ} : {A : Type ℓ} → List A → Bool
is_nil [] = true
is_nil (_ ∷ _) = false

-- The part of `placeOrder` on the promotion code.
unfoldable pub active_promotion : Text → List ℕ → ℕ → Tx Promo
active_promotion code products now = do
  p ← query_or (user (promotion_inactive code)) (λ d. find_promotion code now d.promotions)
  ids ← query (λ d. covered p.id products d.promotion_products)
  fail_if (is_nil ids) (user (promotion_elsewhere code))
  pure (record { id = some p.id; pct = p.pct; products = ids })

unfoldable pub read_promotion : Text → List ℕ → Tx Promo
read_promotion code products w =
    (if is_empty code then pure no_promo else active_promotion code products w.now) w

-- Query 4: the stock rows of the products.
unfoldable pub stock_rows : List ℕ → List Stock → List Stock
stock_rows products [] = []
stock_rows products (s ∷ ss) =
    let others = stock_rows products ss in if mem s.product products then s ∷ others else others

-- `stock[stockKey{w, p}]`, which is 0 where there is no row.
unfoldable pub stock_at : ℕ → ℕ → List Stock → ℕ
stock_at warehouse product [] = 0
stock_at warehouse product (s ∷ ss) =
    if s.warehouse == warehouse && s.product == product
    then s.on_hand
    else stock_at warehouse product ss

find_region : Text → List Country → Option Text
find_region code [] = none
find_region code (c ∷ cs) = if equal c.code code then some c.region else find_region code cs

-- The two sort keys of query 5 in one: 0 for the same country, 1 for the same region.
rank : Text → Text → Text → Text → ℕ
rank country region wh_country wh_region =
    if equal wh_country country then 0 else if equal wh_region region then 1 else 2

insert_ranked : ℕ × ℕ → List (ℕ × ℕ) → List (ℕ × ℕ)
insert_ranked k [] = k ∷ []
insert_ranked (r, id) ((s, j) ∷ ks) =
    if ltb r s || r == s && leb id j
    then (r, id) ∷ (s, j) ∷ ks
    else (s, j) ∷ insert_ranked (r, id) ks

add_ranked : Text → Text → Warehouse → Option Text → List (ℕ × ℕ) → List (ℕ × ℕ)
add_ranked country region w none ks = ks
add_ranked country region w (some wh_region) ks =
    insert_ranked (rank country region w.country wh_region, w.id) ks

ranked : Text → Text → List Country → List Warehouse → List (ℕ × ℕ)
ranked country region countries [] = []
ranked country region countries (w ∷ ws) =
    add_ranked country region w (find_region w.country countries)
      (ranked country region countries ws)

-- Query 5: the warehouses in order of preference.
unfoldable pub preferred : Text → List Country → List Warehouse → List ℕ
unfolding find_region rank insert_ranked add_ranked ranked
preferred country countries warehouses = elim (find_region country countries) [
  | none ↦ []
  | some region ↦ map (λ (k : ℕ × ℕ). k.1) (ranked country region countries warehouses)
]
