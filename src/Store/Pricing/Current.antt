-- ===== src/Store/Pricing/Current.antt =====
-- internal/web/store.go: `changePrice` keeps the price on the product row equal to the open row of
-- `product_prices`.
use duckstore.Prelude.{
  ℕ, ◌≡◌, inl, inr, refl, sym, ap, ◌∙◌, subst, Bool, true, false, ◌&&◌, List, [], ◌∷◌, ◌++◌, map,
  Option, none, some, arith, All, if_ind, ◌==◌, if◌then◌else◌,
}
use duckstore.Prelude.Int.{ℤ, pos, negsuc, pos_part}
use duckstore.Prelude.Text.Decimal.{parse_int}
use duckstore.Prelude.Text.{Text}
use duckstore.Store.Carts.{View, has_product}
use duckstore.Store.Float.{Float}
use duckstore.Store.Pricing.{
  is_open, is_current, close_row, close_current, open_price, price_row, set_price, change_price_tx,
  PriceText, is_outside, accept_price, change_to, change_price, may_close, count_current,
}
use duckstore.Store.Tables.{Price, Product, Db}
use duckstore.Store.Tx.{Result, ok, err, violation, World, Tx, Begin}
use duckstore.Store.Tx.Laws.{
  bind-eq-ok, statement-eq-ok, exec_check-eq-ok, fail_if-eq-ok, ok-injective, Pair-eq, bind_pure-db,
  SameClock,
}
use duckstore.Store.Tx.Commits.{Commits}

-- If the row is the open one of the product, it has the price of the product.
abbrev pub Agrees : Product → Price → Type 0
Agrees p r = r.product ≡ p.id → is_open r ≡ true → r.price ≡ p.price

abbrev pub PricesCurrent : Db → Type 0
PricesCurrent d = All (λ p. All (Agrees p) d.prices) d.products

new_row : ℤ → ℤ → ℕ → Price
new_row id price now = record {
  product = pos_part id;
  valid_from = now;
  valid_to = none;
  price = pos_part price;
}

not_both : (n a b : ℕ) (o : Bool) → (n == b) ≡ true → a ≡ b → ((n == a) && o) ≡ false → o ≡ true → ⊥
not_both n a b true same e other h = ground arith
not_both n a b false same e other h = absurd cc

-- One row of a product, after the close and the update of the products.
row-Agrees :
    (n : ℕ) (price : ℤ) (now : ℕ) (p : Product) (r : Price)
    → Agrees p r
    → Agrees (price_row (pos n) price p) (close_row (pos n) now r)
row-Agrees n price now p r h =
    if_ind (λ (p' : Product). Agrees p' (close_row (pos n) now r)) (n == p.id)
      (λ same.
        let p' : Product = record p { price = pos_part price } in
        if_ind (λ (r' : Price). Agrees p' r') (is_current (pos n) r)
          (λ _ e o. absurd (let h' = o in cc))
          (λ other e o. absurd (not_both n r.product p.id (is_open r) same e other o)))
      (λ other.
        if_ind (λ (r' : Price). Agrees p r') (is_current (pos n) r)
          (λ _ e o. absurd (let h' = o in cc)) (λ _. h))

new_row-Agrees :
    (n : ℕ) (price : ℤ) (now : ℕ) (p : Product)
    → Agrees (price_row (pos n) price p) (new_row (pos n) price now)
unfolding new_row
new_row-Agrees n price now p =
    if_ind (λ (p' : Product). Agrees p' (new_row (pos n) price now)) (n == p.id) (λ _ _ _. refl)
      (λ other e o. absurd (not_self n p.id other e))
  where
    not_self : (a b : ℕ) → (a == b) ≡ false → a ≡ b → ⊥
    not_self a b h e = ground arith

rows-Agree :
    (n : ℕ) (price : ℤ) (now : ℕ) (p : Product) (rs : List Price)
    → All (Agrees p) rs
    → All
        (Agrees (price_row (pos n) price p))
        (map (close_row (pos n) now) rs ++ new_row (pos n) price now ∷ [])
rows-Agree n price now p [] h = (new_row-Agrees n price now p, tt)
rows-Agree n price now p (r ∷ rs) h =
    (row-Agrees n price now p r h.0, rows-Agree n price now p rs h.1)

changed-Agree :
    (n : ℕ) (price : ℤ) (now : ℕ) (rs : List Price) (ps : List Product)
    → All (λ p. All (Agrees p) rs) ps
    → All
        (λ p. All (Agrees p) (map (close_row (pos n) now) rs ++ new_row (pos n) price now ∷ []))
        (map (price_row (pos n) price) ps)
changed-Agree n price now rs [] h = tt
changed-Agree n price now rs (p ∷ ps) h =
    (rows-Agree n price now p rs h.0, changed-Agree n price now rs ps h.1)

has_product-negsuc : (n : ℕ) (ps : List Product) → has_product (negsuc n) ps ≡ false
has_product-negsuc n [] = refl
has_product-negsuc n (p ∷ ps) = has_product-negsuc n ps

-- What the first UPDATE has done, when it succeeded.
close_current-eq-ok :
    (id : ℤ) (w : World) {n : ℕ} {w' : World}
    → close_current id w ≡ (ok n, w')
    → (w'.db ≡ record w.db { prices = map (close_row id w.now) w.db.prices }) × SameClock w w'
unfolding close_current
close_current-eq-ok id w {n} {w'} h =
    let (e, same) = statement-eq-ok _ w h in (go (may_close id w.now w.db.prices) e, same)
  where
    closed : Db
    closed = record w.db { prices = map (close_row id w.now) w.db.prices }

    go :
        (b : Bool)
        → ◌≡◌ {A = Result (ℕ × Db)}
            (if b then ok (count_current id w.db.prices, closed) else err violation)
            (ok (n, w'.db))
        → w'.db ≡ closed
    go true e = ap (λ p. p.1) (sym (ok-injective e))
    go false e = absurd cc

is_pos :
    (id : ℤ) (a : Bool) (ps : List Product) (c : Bool)
    → (a && has_product id ps && c) ≡ true
    → (n : ℕ) × (id ≡ pos n)
is_pos (pos n) a ps c h = (n, refl)
is_pos (negsuc n) a ps c h = absurd (none_left a c (rw (has_product-negsuc n ps) at h))
  where
    none_left : (a c : Bool) → (a && false && c) ≡ true → ⊥
    none_left a c h = ground arith

with_new : ℤ → ℤ → Db → ℕ → Db
with_new id price d now = record d { prices = d.prices ++ new_row id price now ∷ [] }

with_price : ℤ → ℤ → Db → Db
with_price id price d = record d { products = map (price_row id price) d.products }

closed_at : ℤ → ℕ → Db → Db
closed_at id now d = record d { prices = map (close_row id now) d.prices }

-- What the function in the transaction has done, when it succeeded.
change_price_tx-eq-ok :
    (id price : ℤ) (w : World) {w' : World}
    → change_price_tx id price w ≡ (ok tt, w')
    → ((n : ℕ) × (id ≡ pos n))
      × (w'.db ≡ with_price id price (with_new id price (closed_at id w.now w.db) w.now))
unfolding change_price_tx open_price set_price new_row with_new with_price closed_at
change_price_tx-eq-ok id price w {w'} h =
    let (n, w1, h1, rest1) = bind-eq-ok _ _ w h in
    let (_, w2, h2, rest2) = bind-eq-ok _ _ w1 rest1 in
    let (_, w3, h3, h4) = bind-eq-ok _ _ w2 rest2 in
    let (e1, same) = close_current-eq-ok id w h1 in
    let (_, e2) = fail_if-eq-ok _ _ w1 h2 in
    let (allowed, e3, _) = exec_check-eq-ok _ _ w2 h3 in
    let (_, e4, _) = exec_check-eq-ok _ _ w3 h4 in
    (
      is_pos id _ w2.db.products _ allowed,
      e4
          ∙ ap (with_price id price) (
              e3
              ∙ (ap (λ (x : World). with_new id price x.db x.now) e2
                  ∙ (ap (λ (d : Db). with_new id price d w1.now) e1
                      ∙ ap (with_new id price (closed_at id w.now w.db)) same.now))),
    )

changed-PricesCurrent :
    (id price : ℤ) (now : ℕ) (d : Db)
    → (n : ℕ) × (id ≡ pos n)
    → PricesCurrent d
    → PricesCurrent (with_price id price (with_new id price (closed_at id now d) now))
unfolding new_row with_new with_price closed_at
changed-PricesCurrent id price now d (n, e) h =
    rw e (changed-Agree n price now d.prices d.products h)

change_price_tx-PricesCurrent :
    (id price : ℤ) (w : World) {w' : World}
    → PricesCurrent w.db
    → change_price_tx id price w ≡ (ok tt, w')
    → PricesCurrent w'.db
change_price_tx-PricesCurrent id price w h e =
    let (positive, rows) = change_price_tx-eq-ok id price w e in
    subst PricesCurrent (sym rows) (changed-PricesCurrent id price w.now w.db positive h)

module _ (fl : Float) (pt : PriceText (fl.F)) where
  accept_price-PricesCurrent :
      (begin : Begin)
      → Commits begin
      → (id : ℤ) (price : fl.F) (w : World) → PricesCurrent w.db
      → PricesCurrent (accept_price fl pt begin id price w).1.db
  accept_price-PricesCurrent begin commits id price w h =
      let cents = fl.round (fl.mul price (fl.of_int (pos 100))) in
      let body = change_price_tx id cents in
      let (w0, rows, _, ends) = commits.once body w in
      subst PricesCurrent (sym (bind_pure-db (begin.run body) _ w)) (elim ends [
        | inl (same, _) ↦ subst PricesCurrent (sym same) h
        | inr (u, ran, _, same, _) ↦ subst PricesCurrent (sym same) (
            change_price_tx-PricesCurrent id cents w0 (subst PricesCurrent (sym rows) h)
              (Pair-eq _ _ _ ran refl))
      ])

  change_to-PricesCurrent :
      (begin : Begin)
      → Commits begin
      → (id : ℤ) (price : Option fl.F) (w : World) → PricesCurrent w.db
      → PricesCurrent (change_to fl pt begin id price w).1.db
  change_to-PricesCurrent begin commits id none w h = h
  change_to-PricesCurrent begin commits id (some price) w h =
      if_ind (λ (m : Tx View). PricesCurrent (m w).1.db) (is_outside fl pt price) (λ _. h)
        (λ _. accept_price-PricesCurrent begin commits id price w h)

  -- If every open row of `product_prices` has the price that its product's row has, then so it is
  -- after `changePrice`, whatever the path and the form hold and whatever fails.
  pub change_price-PricesCurrent :
      (begin : Begin)
      → Commits begin
      → (id_value price_value : Text) (w : World) → PricesCurrent w.db
      → PricesCurrent (change_price fl pt begin id_value price_value w).1.db
  unfolding change_price
  change_price-PricesCurrent begin commits id_value price_value w h =
      if_ind (λ (m : Tx View). PricesCurrent (m w).1.db) (parse_int id_value).valid
        (λ _.
          change_to-PricesCurrent begin commits (parse_int id_value).value
            (pt.parse_float price_value) w h)
        (λ _. h)
