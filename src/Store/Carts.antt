-- ===== src/Store/Carts.antt =====
-- internal/web/checkout.go: `cartAdd` and `cartUpdate`.
pub mod Quantities
use duckstore.Prelude.{
  ℕ, ◌+◌, ◌≡◌, refl, Bool, true, false, not, ◌&&◌, ◌||◌, List, [], ◌∷◌, ◌++◌, map, Option, none,
  some, ltb, leb, ◌==◌, if◌then◌else◌,
}
use duckstore.Prelude.Int.{ℤ, pos, negsuc, pos_part}
use duckstore.Prelude.Text.Decimal.{decimal_ℤ, parse_int}
use duckstore.Prelude.Text.{Text, codes}
use duckstore.Store.Tables.{Cart, CartItem, Product, Db}
use duckstore.Store.Tx.{
  Result, ok, err, violation, UserError, World, Tx, pure, ◌>>=◌, ◌>>◌, statement, exec, exec_check,
  Begin,
}

-- What a handler answers: the page to go to, and the message to show there.
pub data Flash : Type 0 where
  note : Text → Flash
  refused : UserError → Flash
  placed : ℕ → Flash

pub record View : Type 0 where
  pub redirect : Text
  pub flash : Flash

-- `atoi`: the error of `strconv.Atoi` is dropped.
abbrev pub atoi : Text → ℤ
atoi s = (parse_int s).value

-- `min(max(v, lo), hi)`, for bounds that are not negative.
unfoldable pub clamp : ℕ → ℕ → ℤ → ℕ
clamp lo hi (pos n) = if ltb n lo then lo else if ltb hi n then hi else n
clamp lo hi (negsuc n) = lo

-- Whether an id from a form is that of a row.
abbrev pub is_id : ℤ → ℕ → Bool
is_id (pos n) id = n == id
is_id (negsuc _) id = false

abbrev pub find_cart : ℕ → List Cart → Option ℕ
find_cart customer [] = none
find_cart customer (c ∷ cs) = if c.customer == customer then some c.id else find_cart customer cs

unfoldable pub touch_cart : ℕ → ℕ → List Cart → List Cart
touch_cart customer now =
    map (λ (c : Cart). if c.customer == customer then record c { updated_at = now } else c)

-- Get or create the customer's cart: the UPSERT on `carts`. The identity column takes a value
-- from its sequence in any case.
unfoldable pub upsert_cart : ℕ → Tx ℕ
unfolding touch_cart
upsert_cart customer w =
    let w' = record w { next_cart = w.next_cart + 1 } in
    statement
      (λ d. elim (find_cart customer d.carts) [
        | some id ↦ ok (id, record d { carts = touch_cart customer w.now d.carts })
        | none ↦ ok (
          w.next_cart,
          record d {
            carts =
                d.carts
                ++ record { id = w.next_cart; customer = customer; updated_at = w.now } ∷ [];
          },
        )
      ])
      w'

abbrev pub has_product : ℤ → List Product → Bool
has_product id [] = false
has_product id (p ∷ ps) = is_id id p.id || has_product id ps

-- `integer` holds no more.
abbrev pub int_max : ℕ
int_max = 2147483647

abbrev pub in_line : ℕ → ℤ → CartItem → Bool
in_line cart product i = i.cart == cart && is_id product i.product

-- The UPSERT on `cart_items`: the quantity of the line grows, or a line is added.
unfoldable pub put_item : ℕ → ℤ → ℕ → List CartItem → List CartItem
put_item cart product qty [] =
    record { cart = cart; product = pos_part product; quantity = qty } ∷ []
put_item cart product qty (i ∷ is) =
    if in_line cart product i
    then record i { quantity = i.quantity + qty } ∷ is
    else i ∷ put_item cart product qty is

-- The range of `integer` for the line that is written.
unfoldable pub fits_line : ℕ → ℤ → ℕ → List CartItem → Bool
fits_line cart product qty [] = true
fits_line cart product qty (i ∷ is) =
    (not (in_line cart product i) || leb (i.quantity + qty) int_max)
    && fits_line cart product qty is

-- And the foreign key on products.
abbrev pub item_allowed : ℕ → ℤ → ℕ → Db → Bool
item_allowed cart product qty d =
    has_product product d.products && fits_line cart product qty d.cart_items

unfoldable pub cart_add_tx : ℕ → ℤ → ℕ → Tx (Unit {0})
cart_add_tx customer product qty = do
  cart ← upsert_cart customer
  exec_check (item_allowed cart product qty)
      (λ d. record d { cart_items = put_item cart product qty d.cart_items })

abbrev product_page : ℤ → Text
product_page id = codes "/p/" ++ decimal_ℤ id

-- The form values are `product_id` and `quantity`.
unfoldable pub cart_add : Begin → ℕ → Text → Text → Tx View
cart_add begin customer product_value quantity_value =
    let product = (parse_int product_value).value in
    let qty = clamp 1 99 (atoi quantity_value) in
    begin.run (cart_add_tx customer product qty)
    >> pure (record { redirect = product_page product; flash = note (codes "Added to your cart.") })

-- `ca.id = ci.cart_id AND ca.customer_id = $1 AND ci.product_id = $2`
unfoldable pub is_line_of : ℕ → ℤ → List Cart → CartItem → Bool
is_line_of customer product [] i = false
is_line_of customer product (c ∷ cs) i =
    (c.id == i.cart && c.customer == customer && is_id product i.product)
    || is_line_of customer product cs i

unfoldable pub remove_lines : ℕ → ℤ → List Cart → List CartItem → List CartItem
remove_lines customer product carts [] = []
remove_lines customer product carts (i ∷ is) =
    let others = remove_lines customer product carts is in
    if is_line_of customer product carts i then others else i ∷ others

unfoldable pub set_lines : ℕ → ℤ → ℕ → List Cart → List CartItem → List CartItem
set_lines customer product qty carts = map (λ (i : CartItem).
    if is_line_of customer product carts i then record i { quantity = qty } else i)

unfoldable pub cart_update : ℕ → Text → Text → Tx View
cart_update customer product_value quantity_value =
    let product = (parse_int product_value).value in
    let qty = clamp 0 99 (atoi quantity_value) in
    let delete =
      exec (λ d. record d { cart_items = remove_lines customer product d.carts d.cart_items }) in
    let change =
      exec (λ d. record d { cart_items = set_lines customer product qty d.carts d.cart_items }) in
    (if qty == 0 then delete else change)
    >> pure (record { redirect = codes "/cart"; flash = note [] })
