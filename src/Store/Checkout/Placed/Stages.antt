-- ===== src/Store/Checkout/Placed/Stages.antt =====
-- internal/web/checkout.go: the stages of `placeOrder`, each as what it read or wrote when it
-- succeeded.
use duckstore.Prelude.{ℕ, ◌≡◌, inl, inr, sym, ap, ◌∙◌, false, List, [], some, Bool-cases}
use duckstore.Prelude.Text.{Text, is_empty}
use duckstore.Store.Carts.{find_cart}
use duckstore.Store.Tables.{Promotion, Stock, Db}
use duckstore.Store.Tx.{Result, ok, err, World}
use duckstore.Store.Tx.Laws.{SameClock, bind-eq-ok, fail_if-eq-ok, query-eq-ok, query_or-eq-ok}
use duckstore.Store.Checkout.Reads.{
  Line, cart_lines, Promo, find_promotion, covered, is_nil, active_promotion, read_promotion,
  stock_rows, preferred,
}
use duckstore.Store.Checkout.{products_of, lock_cart, allocate_lines, settled}
use duckstore.Store.Checkout.Allocate.{Taken, Allocation, allocated, short, allocate}
use duckstore.Store.Checkout.Placed.{IsPromo}

-- The state is that of before but for the faults and the random numbers.
pub record Same (w w' : World) : Type 0 where
  pub db : w'.db ≡ w.db
  pub now : w'.now ≡ w.now
  pub next_order : w'.next_order ≡ w.next_order

pub Same-trans : {a b c : World} → Same a b → Same b c → Same a c
Same-trans p q = record {
  db = q.db ∙ p.db;
  now = q.now ∙ p.now;
  next_order = q.next_order ∙ p.next_order;
}

pub clock_Same : {w w' : World} → w'.db ≡ w.db → SameClock w w' → Same w w'
clock_Same e c = record { db = e; now = c.now; next_order = c.next_order }

eq_Same : {w w' : World} → w' ≡ w → Same w w'
eq_Same e = record {
  db = ap (λ (v : World). v.db) e;
  now = ap (λ (v : World). v.now) e;
  next_order = ap (λ (v : World). v.next_order) e;
}

pub pure_Same :
    {A : Type 0} {a b : A} {w w' : World}
    → ◌≡◌ {A = Result A × World} (ok a, w) (ok b, w')
    → Same w w'
pure_Same e = eq_Same (ap (λ p. p.1) (sym e))

ok_value : {A : Type 0} → A → Result A → A
ok_value d (ok a) = a
ok_value d (err _) = d

pub pure_eq :
    {A : Type 0} {a b : A} {w w' : World} → ◌≡◌ {A = Result A × World} (ok a, w) (ok b, w') → a ≡ b
unfolding ok_value
pure_eq {a} e = ap (λ p. ok_value a p.0) e

-- Facts of the rows read by an earlier statement are facts of the rows before it.
pub lock_cart-eq-ok :
    (customer : ℕ) (w : World) {r : ℕ × List Line} {w' : World}
    → lock_cart customer w ≡ (ok r, w')
    → (find_cart customer w.db.carts ≡ some r.0)
      × (r.1 ≡ cart_lines r.0 w.db.products w.db.cart_items)
      × (is_nil r.1 ≡ false)
      × Same w w'
unfolding lock_cart
lock_cart-eq-ok customer w {r} {w'} h =
    let (cart, w1, a, h1) = bind-eq-ok _ _ w h in
    let (lines, w2, b, h2) = bind-eq-ok _ _ w1 h1 in
    let (_, w3, c, h3) = bind-eq-ok _ _ w2 h2 in
    let (found, e1, c1) = query_or-eq-ok _ _ w a in
    let (read, e2, c2) = query-eq-ok _ w1 b in
    let (g, e3) = fail_if-eq-ok _ _ w2 c in
    let is_r = pure_eq h3 in
    (
      found ∙ ap (λ (q : ℕ × List Line). some q.0) is_r,
      ap (λ (q : ℕ × List Line). q.1) (sym is_r)
          ∙ sym read
          ∙ ap (λ (d : Db). cart_lines cart d.products d.cart_items) e1
          ∙ ap (λ (q : ℕ × List Line). cart_lines q.0 w.db.products w.db.cart_items) is_r,
      ap (λ (q : ℕ × List Line). is_nil q.1) (sym is_r) ∙ g,
      Same-trans (clock_Same e1 c1)
          (Same-trans (clock_Same e2 c2) (Same-trans (eq_Same e3) (pure_Same h3))),
    )

abbrev promo_of : Promotion → List ℕ → Promo
promo_of p ids = record { id = some p.id; pct = p.pct; products = ids }

active_promotion-eq-ok :
    (code : Text) (products : List ℕ) (now : ℕ) (w : World) {promo : Promo} {w' : World}
    → active_promotion code products now w ≡ (ok promo, w')
    → ((p : Promotion) × (find_promotion code now w.db.promotions ≡ some p)
        × (is_nil (covered p.id products w.db.promotion_products) ≡ false)
        × (promo ≡ record {
          id = some p.id;
          pct = p.pct;
          products = covered p.id products w.db.promotion_products;
        }))
      × Same w w'
unfolding active_promotion
active_promotion-eq-ok code products now w {promo} {w'} h =
    let (p, w1, a, h1) = bind-eq-ok _ _ w h in
    let (ids, w2, b, h2) = bind-eq-ok _ _ w1 h1 in
    let (_, w3, c, h3) = bind-eq-ok _ _ w2 h2 in
    let (found, e1, c1) = query_or-eq-ok _ _ w a in
    let (read, e2, c2) = query-eq-ok _ w1 b in
    let (g, e3) = fail_if-eq-ok _ _ w2 c in
    let read' = ap (λ (d : Db). covered p.id products d.promotion_products) (sym e1) ∙ read in
    (
      (
        p,
        found,
        ap (λ (l : List ℕ). is_nil l) read' ∙ g,
        sym (pure_eq h3) ∙ ap (promo_of p) (sym read'),
      ),
      Same-trans (clock_Same e1 c1)
          (Same-trans (clock_Same e2 c2) (Same-trans (eq_Same e3) (pure_Same h3))),
    )

pub read_promotion-eq-ok :
    (code : Text) (products : List ℕ) (w : World) {promo : Promo} {w' : World}
    → read_promotion code products w ≡ (ok promo, w')
    → IsPromo code products w.now w.db promo × Same w w'
unfolding read_promotion
read_promotion-eq-ok code products w {promo} {w'} h = elim (Bool-cases (is_empty code)) [
  | inl e ↦ let h' = rw e at h in (inl (e, sym (pure_eq h')), pure_Same h')
  | inr e ↦
      let (found, same) = active_promotion-eq-ok code products w.now w (rw e at h) in
      (inr found, same)
]

pub allocate_lines-eq-ok :
    (country : Text) (lines : List Line) (w : World) {r : List Taken × List ℕ} {w' : World}
    → allocate_lines country lines w ≡ (ok r, w')
    → (allocate
          (stock_rows (products_of lines) w.db.inventory)
          (preferred country w.db.countries w.db.warehouses)
          []
          lines
        ≡ allocated r.0 r.1)
      × Same w w'
unfolding allocate_lines
allocate_lines-eq-ok country lines w {r} {w'} h =
    let (stock, w1, a, h1) = bind-eq-ok _ _ w h in
    let (warehouses, w2, b, h2) = bind-eq-ok _ _ w1 h1 in
    let (read, e1, c1) = query-eq-ok _ w a in
    let (read', e2, c2) = query-eq-ok _ w1 b in
    let (found, same) = settle (allocate stock warehouses [] lines) w2 h2 in
    let preferred' = ap (λ (d : Db). preferred country d.countries d.warehouses) (sym e1) ∙ read' in
    (
      ap
            (λ (s : List Stock).
              allocate s (preferred country w.db.countries w.db.warehouses) [] lines)
            read
          ∙ ap (λ (ws : List ℕ). allocate stock ws [] lines) preferred'
          ∙ found,
      Same-trans (clock_Same e1 c1) (Same-trans (clock_Same e2 c2) same),
    )
  where
    settle :
        (x : Allocation) (w2 : World)
        → settled x w2 ≡ (ok r, w')
        → (x ≡ allocated r.0 r.1) × Same w2 w'
    settle (allocated ts ships) w2 h =
        (ap (λ (q : List Taken × List ℕ). allocated q.0 q.1) (pure_eq h), pure_Same h)
    settle (short e) w2 h = absurd cc
