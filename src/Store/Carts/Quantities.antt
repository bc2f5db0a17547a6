-- ===== src/Store/Carts/Quantities.antt =====
-- internal/web/checkout.go: the quantities that `cartAdd` and `cartUpdate` leave in the carts.
use duckstore.Prelude.{
  ℕ, ◌≤◌, ◌≡◌, inl, inr, refl, sym, ap, subst, Bool, true, false, ◌&&◌, List, [], ◌∷◌, arith, All,
  Bool-cases, Option-cases, if_ind, ◌==◌,
}
use duckstore.Prelude.Int.{ℤ}
use duckstore.Prelude.Text.Decimal.{parse_int}
use duckstore.Prelude.Text.{Text}
use duckstore.Store.Carts.{
  clamp, atoi, find_cart, touch_cart, upsert_cart, int_max, in_line, put_item, fits_line,
  cart_add_tx, cart_add, is_line_of, remove_lines, set_lines, cart_update,
}
use duckstore.Store.Tables.{CartItem, Cart, Db}
use duckstore.Store.Tx.{ok, World, Tx, Begin, exec}
use duckstore.Store.Tx.Laws.{
  bind-eq-ok, statement-eq-ok, exec_check-eq-ok, ok-injective, Pair-eq, bind_pure-db, exec_cases,
}
use duckstore.Store.Tx.Commits.{Commits}

-- A quantity that the table takes: above 0, and an `integer`.
abbrev pub IsQuantity : ℕ → Type 0
IsQuantity n = (1 ≤ n) × (n ≤ int_max)

abbrev pub LinesFit : Db → Type 0
LinesFit d = All (λ i. IsQuantity i.quantity) d.cart_items

-- `min(max(v, lo), hi)` is between its bounds.
pub clamp_bounds : (lo hi : ℕ) (v : ℤ) → lo ≤ hi → (lo ≤ clamp lo hi v) × (clamp lo hi v ≤ hi)
unfolding clamp
clamp_bounds lo hi v h = ground arith

put_item-fits :
    (cart : ℕ) (product : ℤ) (qty : ℕ) (is : List CartItem)
    → IsQuantity qty
    → fits_line cart product qty is ≡ true
    → All (λ i. IsQuantity i.quantity) is
    → All (λ i. IsQuantity i.quantity) (put_item cart product qty is)
unfolding put_item fits_line
put_item-fits cart product qty [] q fit h = (q, tt)
put_item-fits cart product qty (i ∷ is) q fit h = elim (Bool-cases (in_line cart product i)) [
  | inl e ↦ let fit' = rw e at fit in rw e ((ground arith), h.1)
  | inr e ↦ let fit' = rw e at fit in rw e (h.0, put_item-fits cart product qty is q fit' h.1)
]

remove_lines-fits :
    (customer : ℕ) (product : ℤ) (carts : List Cart) (is : List CartItem)
    → All (λ i. IsQuantity i.quantity) is
    → All (λ i. IsQuantity i.quantity) (remove_lines customer product carts is)
unfolding remove_lines
remove_lines-fits customer product carts [] h = tt
remove_lines-fits customer product carts (i ∷ is) h =
    let others = remove_lines-fits customer product carts is h.1 in
    if_ind (All (λ i. IsQuantity i.quantity)) (is_line_of customer product carts i) (λ _. others)
      (λ _. (h.0, others))

set_lines-fits :
    (customer : ℕ) (product : ℤ) (qty : ℕ) (carts : List Cart) (is : List CartItem)
    → IsQuantity qty
    → All (λ i. IsQuantity i.quantity) is
    → All (λ i. IsQuantity i.quantity) (set_lines customer product qty carts is)
unfolding set_lines
set_lines-fits customer product qty carts [] q h = tt
set_lines-fits customer product qty carts (i ∷ is) q h = (
  if_ind (λ (j : CartItem). IsQuantity j.quantity) (is_line_of customer product carts i) (λ _. q)
      (λ _. h.0),
  set_lines-fits customer product qty carts is q h.1,
)

upsert_cart-items :
    (customer : ℕ) (w : World) {cart : ℕ} {w' : World}
    → upsert_cart customer w ≡ (ok cart, w')
    → w'.db.cart_items ≡ w.db.cart_items
unfolding upsert_cart touch_cart
upsert_cart-items customer w h =
    let (found, _) = statement-eq-ok _ _ h in
    elim (Option-cases (find_cart customer w.db.carts)) [
      | inl e ↦ ap (λ p. p.1.cart_items) (sym (ok-injective (rw e at found)))
      | inr (id, e) ↦ ap (λ p. p.1.cart_items) (sym (ok-injective (rw e at found)))
    ]

cart_add_tx-LinesFit :
    (customer : ℕ) (product : ℤ) (qty : ℕ) (w : World) {u : Unit {0}} {w' : World}
    → IsQuantity qty
    → LinesFit w.db
    → cart_add_tx customer product qty w ≡ (ok u, w')
    → LinesFit w'.db
unfolding cart_add_tx
cart_add_tx-LinesFit customer product qty w {u} {w'} q fit h =
    let (cart, w1, a, b) = bind-eq-ok _ _ w h in
    let same = upsert_cart-items customer w a in
    let (allowed, e, _) = exec_check-eq-ok _ _ w1 b in
    let fit1 = subst (All (λ (i : CartItem). IsQuantity i.quantity)) (sym same) fit in
    subst LinesFit (sym e)
      (put_item-fits cart product qty w1.db.cart_items q (second _ _ allowed) fit1)
  where
    second : (a b : Bool) → (a && b) ≡ true → b ≡ true
    second a b h = ground arith

-- Every line of every cart has a quantity that is above 0 and fits the column. `cartAdd` keeps this,
-- whatever the form values are and whatever fails: it adds from 1 to 99 units.
pub cart_add-LinesFit :
    (begin : Begin)
    → Commits begin
    → (customer : ℕ) (product_value quantity_value : Text) (w : World) → LinesFit w.db
    → LinesFit (cart_add begin customer product_value quantity_value w).1.db
unfolding cart_add
cart_add-LinesFit begin commits customer product_value quantity_value w fit =
    let product = (parse_int product_value).value in
    let qty = clamp 1 99 (atoi quantity_value) in
    let body = cart_add_tx customer product qty in
    let (low, high) = clamp_bounds 1 99 (atoi quantity_value) (omega arith) in
    let (w0, rows, _, ends) = commits.once body w in
    subst LinesFit (sym (bind_pure-db (begin.run body) _ w)) (elim ends [
      | inl (same, _) ↦ subst LinesFit (sym same) fit
      | inr (u, ran, _, same, _) ↦ subst LinesFit (sym same) (
          cart_add_tx-LinesFit customer product qty w0 (low, omega arith)
            (subst LinesFit (sym rows) fit) (Pair-eq _ _ _ ran refl))
    ])

exec-LinesFit :
    (f : Db → Db) (w : World) → LinesFit (f w.db) → LinesFit w.db → LinesFit (exec f w).1.db
exec-LinesFit f w h k = elim (exec_cases f w) [
  | inl e ↦ subst LinesFit (sym e) h
  | inr e ↦ subst LinesFit (sym e) k
]

not_zero : (n : ℕ) → (n == 0) ≡ false → 1 ≤ n
not_zero n h = ground arith

-- `cartUpdate` keeps it too: it removes the lines for a quantity of 0 or below, and sets at most
-- 99 units.
pub cart_update-LinesFit :
    (customer : ℕ) (product_value quantity_value : Text) (w : World)
    → LinesFit w.db
    → LinesFit (cart_update customer product_value quantity_value w).1.db
unfolding cart_update
cart_update-LinesFit customer product_value quantity_value w fit =
    let product = (parse_int product_value).value in
    let qty = clamp 0 99 (atoi quantity_value) in
    let (_, high) = clamp_bounds 0 99 (atoi quantity_value) (omega arith) in
    subst LinesFit (sym (bind_pure-db _ _ w)) (
      if_ind (λ (m : Tx (Unit {0})). LinesFit (m w).1.db) (qty == 0)
        (λ _.
          exec-LinesFit _ w (remove_lines-fits customer product w.db.carts w.db.cart_items fit) fit)
        (λ e.
          exec-LinesFit _ w
            (set_lines-fits customer product qty w.db.carts w.db.cart_items
              (not_zero qty e, omega arith) fit)
            fit))
